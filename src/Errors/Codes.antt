-- ===== src/Errors/Codes.antt =====
-- The status code of an error is decided by the innermost error of its chain of wraps.
use gnomock.Base.{ℕ, ◌≡◌, refl}
use gnomock.Errors.{
  GoError, wrap_comma, wrap, wrap_before, preset_not_found, invalid_start, invalid_stop, error_code,
}

abbrev pub innermost : GoError → GoError
innermost (wrap prefix e) = innermost e
innermost (wrap_before e suffix) = innermost e
innermost (wrap_comma prefix e) = innermost e
innermost e = e

abbrev pub code_of : GoError → ℕ
code_of (invalid_start e) = 400
code_of (invalid_stop e) = 400
code_of (preset_not_found name) = 404
code_of _ = 500

-- Only an invalid request that is the innermost error gives 400 and only a missing preset that is
-- the innermost error gives 404; all else gives 500. An error inside a failed start or stop is not
-- looked at.
pub error_code-eq-code_of : (e : GoError) → error_code e ≡ code_of (innermost e)
unfolding error_code
error_code-eq-code_of (wrap prefix e) = error_code-eq-code_of e
error_code-eq-code_of (wrap_before e suffix) = error_code-eq-code_of e
error_code-eq-code_of (wrap_comma prefix e) = error_code-eq-code_of e
error_code-eq-code_of _ = refl
