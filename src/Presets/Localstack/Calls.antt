-- ===== src/Presets/Localstack/Calls.antt =====
-- What the preset of localstack calls: net/http, the file system and the client of S3.
use gnomock.Base.{Text, Bool, Option, lit, ◌∷◌, List, []}
use gnomock.Engine.{Reply, Call, client_call, History}
use gnomock.Errors.{GoError}
use gnomock.Base.Assoc.{Assoc}

-- The arguments that filepath.Walk gives to its function, but for the error a size and a mode.
pub record Entry : Type 0 where
  pub path : Text
  pub is_dir : Bool
  pub failure : Option GoError

-- The answers. The files do not change while a container is set up.
pub record Client : Type 0 where
  -- http.NewRequestWithContext, http.DefaultClient.Do, Decode and Close of the body
  pub new_request : Text → Reply (Unit {0})
  pub do_request : Text → History → Reply (Unit {0})
  pub decode : History → Reply (Assoc Text)
  pub close_body : Reply (Unit {0})
  -- session.NewSession, for an endpoint
  pub new_session : Text → Reply (Unit {0})
  -- os.ReadDir: the names, and whether they are directories
  pub read_dir : Text → Reply (List (Text × Bool))
  pub path_join : Text → Text → Text
  -- filepath.Walk: what it finds below a path, in its order
  pub walk : Text → List Entry
  pub opens_file : Text → Reply (Unit {0})
  pub closes_file : Text → Reply (Unit {0})
  pub creates_bucket : Text → History → Reply (Unit {0})
  pub puts_object : Text → Text → Text → History → Reply (Unit {0})

unfoldable pub create_bucket_call : Text → Call
create_bucket_call bucket = client_call (lit "s3.CreateBucket") (bucket ∷ [])

unfoldable pub put_object_call : Text → Text → Text → Call
put_object_call bucket key file = client_call (lit "s3.PutObject") (bucket ∷ key ∷ file ∷ [])
