-- ===== src/Gnomockd.antt =====
-- internal/gnomockd: the HTTP handlers that start and stop containers.
pub mod Responses
pub mod LogWriter
use gnomock.Base.{ℕ, Text, lit, is_empty, Option, none, some, List, [], ◌∷◌, ◌++◌, if◌then◌else◌}
use gnomock.Container.{Container}
use gnomock.Errors.{
  GoError, plain, wrap, preset_not_found, invalid_start, invalid_stop, start_failed, stop_failed,
  error_code,
}
use gnomock.Engine.{World, Context, request, Writer, pipe, History}
use gnomock.Engine.Actions.{M, look, try, Tried, value, failed, pure, ◌>>=◌}
use gnomock.Options.{Options, Setting, with_options, with_log_writer, with_context}
use gnomock.Registry
use gnomock.Registry.{Registry, AnyPreset}
use gnomock.Session.Create.{Started, start}
use gnomock.Session.Stop.{stop_all}

pub data Body : Type 0 where
  error_body : GoError → Body
  container_body : Option Container → Body
  -- what was written of a container before a write failed, and then an error
  broken_body : Option Container → GoError → Body
  empty : Body

pub record Response : Type 0 where
  pub status : ℕ
  pub body : Body

-- respondWithError
unfoldable pub respond_with_error : GoError → Response
respond_with_error e = record { status = error_code e; body = error_body e }

-- strings.Join(logs, ";")
unfoldable pub join : List Text → Text
join [] = []
join (line ∷ []) = line
join (line ∷ more) = line ++ (b';' ∷ join more)

-- encoding/json over the types of the requests and of the response, and the lines that the log
-- writer had received.
pub record Codec : Type 1 where
  -- the decoder writes into the options and into the preset that was found
  pub decode_start : Text → (p : AnyPreset) → Tried (Options × p.State)
  pub decode_stop : Text → Tried Text
  pub encode : Option Container → Tried (Unit {0})
  -- the write of the encoded container, which sends the status 200 first
  pub writes_body : History → Tried (Unit {0})
  pub log_lines : History → List Text

module _ (w : World) (fuel : ℕ) (codec : Codec) where
  unfoldable pub respond_to_start : Started → M Response
  respond_to_start s = elim s.failure [
    | some e ↦ do
      lines ← look codec.log_lines
      pure (respond_with_error (start_failed (wrap (join lines) e) s.container))
    | none ↦ elim (codec.encode s.container) [
      | failed e ↦ pure (respond_with_error (start_failed e s.container))
      | value u ↦ do
        wrote ← look codec.writes_body
        pure (record {
          status = 200;
          body = elim wrote [
            | value v ↦ container_body s.container
            | failed e ↦ broken_body s.container (start_failed e s.container)
          ];
        })
    ]
  ]

  unfoldable pub start_decoded : ℕ → (p : AnyPreset) → Options × p.State → M Response
  start_decoded id p (options, state) = do
    s ←
        start w fuel p.preset state
          (with_options options ∷ with_log_writer (pipe id) ∷ with_context (request id) ∷ [])
    respond_to_start s

  -- startHandler for the request number `id`
  unfoldable pub handle_start : Registry → ℕ → Text → Text → M Response
  handle_start registry id name body = elim (Registry.find registry name) [
    | none ↦ pure (respond_with_error (preset_not_found name))
    | some p ↦ elim (codec.decode_start body p) [
      | failed e ↦ pure (respond_with_error (invalid_start e))
      | value decoded ↦ start_decoded id p decoded
    ]
  ]

  -- A container of which only the identifier is known.
  abbrev pub known_by : Text → Container
  known_by id = record { id = id; host = []; ports = []; gateway = []; on_stop = none }

  unfoldable pub stop_decoded : Text → M Response
  stop_decoded id =
      if is_empty id
      then pure (respond_with_error (invalid_stop (plain (lit "missing container id"))))
      else do
        stopped ← try (stop_all w (some (known_by id) ∷ []))
        elim stopped [
          | failed e ↦ pure (respond_with_error (stop_failed e (some (known_by id))))
          | value u ↦ pure (record { status = 200; body = empty })
        ]

  -- stopHandler
  unfoldable pub handle_stop : Text → M Response
  handle_stop body = elim (codec.decode_stop body) [
    | failed e ↦ pure (respond_with_error (invalid_stop e))
    | value id ↦ stop_decoded id
  ]
