-- ===== src/Errors.antt =====
-- Go errors as values: those of the root package, of internal/errors, and of foreign code.
pub mod Codes
use gnomock.Base.{ℕ, Text, lit, Option, none, some, Bool, true, false, ◌||◌, ◌++◌, if◌then◌else◌}
use gnomock.Container.{Container}

pub data GoError : Type 0 where
  -- errors.New, fmt.Errorf without %w, an error of foreign code
  plain : Text → GoError
  -- the sentinels ErrPortNotFound, ErrEnvClient, context.Canceled and errConflict of
  -- preset/splunk/init.go
  port_not_found env_client canceled conflict : GoError
  -- fmt.Errorf("prefix: %w", err) and fmt.Errorf("%w: suffix", err)
  wrap : Text → GoError → GoError
  wrap_before : GoError → Text → GoError
  -- fmt.Errorf("prefix, %w", err)
  wrap_comma : Text → GoError → GoError
  -- the types of internal/errors; none of them has a method Unwrap
  preset_not_found : Text → GoError
  invalid_start invalid_stop : GoError → GoError
  start_failed stop_failed : GoError → Option Container → GoError

-- The method Error.
unfoldable pub error : GoError → Text
error (plain s) = s
error port_not_found = lit "port not found"
error env_client = lit "can't connect to docker host"
error canceled = lit "context canceled"
error conflict = lit "409: conflict"
error (wrap prefix e) = prefix ++ (lit ": " ++ error e)
error (wrap_before e suffix) = error e ++ (lit ": " ++ suffix)
error (wrap_comma prefix e) = prefix ++ (lit ", " ++ error e)
error (preset_not_found name) = lit "preset '" ++ (name ++ lit "' not found")
error (invalid_start e) = lit "invalid start request: " ++ error e
error (invalid_stop e) = lit "invalid stop request: " ++ error e
error (start_failed e c) = lit "start failed: " ++ error e
error (stop_failed e c) = lit "stop failed: " ++ error e

-- errors.As for a type that the test recognises: the error itself, then what it wraps.
unfoldable pub error_as : (GoError → Bool) → GoError → Bool
error_as is (wrap prefix e) = is (wrap prefix e) || error_as is e
error_as is (wrap_before e suffix) = is (wrap_before e suffix) || error_as is e
error_as is (wrap_comma prefix e) = is (wrap_comma prefix e) || error_as is e
error_as is e = is e

abbrev is_invalid_start : GoError → Bool
is_invalid_start (invalid_start e) = true
is_invalid_start _ = false

abbrev is_invalid_stop : GoError → Bool
is_invalid_stop (invalid_stop e) = true
is_invalid_stop _ = false

abbrev is_preset_not_found : GoError → Bool
is_preset_not_found (preset_not_found name) = true
is_preset_not_found _ = false

-- ErrorCode: the HTTP status of a response.
unfoldable pub error_code : GoError → ℕ
unfolding error_as
error_code e =
    if error_as is_invalid_start e || error_as is_invalid_stop e
    then 400
    else if error_as is_preset_not_found e
    then 404
    else 500
