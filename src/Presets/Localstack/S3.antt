-- ===== src/Presets/Localstack/S3.antt =====
-- preset/localstack/options_s3.go: the files that are uploaded to S3.
pub mod Uploads
use gnomock.Engine.Actions.{◌>>=◌, ◌>>◌, M, wrapping, pure, ask, fail, given, crash, closing}
use gnomock.Base.{
  Text, lit, if◌then◌else◌, List, ◌++◌, some, leb, is_empty, Bool, ◌∷◌, length, drop, none, [],
  false, true,
}
use gnomock.Presets.Localstack.Calls.{Client, Entry, create_bucket_call, put_object_call}
use gnomock.Container.{Container, address}
use gnomock.Errors.{wrap}

-- file[len(localPath):], which panics if the path is longer.
unfoldable pub key_of : Text → Text → M Text
key_of file local_path =
    if leb (length local_path) (length file) then pure (drop (length local_path) file) else crash

module _ (s : Client) (s3_path : Text) where
  unfoldable pub upload_file : Text → Text → M (Unit {0})
  upload_file bucket file = do
    wrapping (lit "can't open file '" ++ (file ++ lit "'")) (given (s.opens_file file))
    closing (s.closes_file file) (do
      key ← key_of file (s.path_join s3_path bucket)
      wrapping (lit "can't upload file '" ++ (file ++ (lit "' to bucket '" ++ (bucket ++ lit "'"))))
          (ask (put_object_call bucket key file) (s.puts_object bucket key file)))

  -- The function given to filepath.Walk.
  unfoldable pub visit : Text → Entry → M (Unit {0})
  visit bucket e = elim e.failure [
    | some x ↦ fail (wrap (lit "error reading input file '" ++ (e.path ++ lit "'")) x)
    | none ↦ if e.is_dir then pure tt else upload_file bucket e.path
  ]

  unfoldable pub visit_all : Text → List Entry → M (Unit {0})
  visit_all bucket [] = pure tt
  visit_all bucket (e ∷ entries) = visit bucket e >> visit_all bucket entries

  unfoldable pub upload_files : List Text → M (Unit {0})
  upload_files [] = pure tt
  upload_files (bucket ∷ buckets) =
      wrapping (lit "error uploading input dir")
        (visit_all bucket (s.walk (s.path_join s3_path bucket)))
      >> upload_files buckets

  abbrev bucket_prefix : Text → Text
  bucket_prefix bucket = lit "can't create bucket '" ++ (bucket ++ lit "'")

  unfoldable pub create_bucket : Text → M (Unit {0})
  create_bucket bucket =
      wrapping (bucket_prefix bucket) (ask (create_bucket_call bucket) (s.creates_bucket bucket))

  -- The loop of createBuckets.
  unfoldable pub create_each : List (Text × Bool) → M (List Text)
  create_each [] = pure []
  create_each ((name, false) ∷ files) = create_each files
  create_each ((name, true) ∷ files) = do
    wrapping (bucket_prefix name) (create_bucket name)
    buckets ← create_each files
    pure (name ∷ buckets)

  unfoldable pub create_buckets : M (List Text)
  create_buckets = do
    files ← wrapping (lit "can't read s3 initial files") (given (s.read_dir s3_path))
    create_each files

  abbrev endpoint : Container → Text
  endpoint c = lit "http://" ++ (address c (lit "api") ++ lit "/")

  unfoldable pub init_s3 : Container → M (Unit {0})
  init_s3 c = if is_empty s3_path then pure tt else do
    wrapping (lit "can't create s3 session") (given (s.new_session (endpoint c)))
    buckets ← wrapping (lit "can't create buckets") create_buckets
    upload_files buckets
