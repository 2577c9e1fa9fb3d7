-- ===== src/Presets/Localstack/S3/Uploads.antt =====
-- What a successful setup of S3 has created and uploaded.
use gnomock.Base.{
  Text, List, Bool, ◌≡◌, ◌∷◌, is_empty, if◌then◌else◌, [], true, false, arith, drop, length, inl,
  Option-cases, inr, Bool-cases, lit, leb, ◌++◌,
}
use gnomock.Presets.Localstack.S3.{
  init_s3, upload_file, visit_all, visit, upload_files, key_of, create_each, create_buckets,
  create_bucket,
}
use gnomock.Presets.Localstack.Calls.{Client, Entry, create_bucket_call, put_object_call}
use gnomock.Engine.{Reply, History, reply, refuse}
use gnomock.Engine.Actions.{
  Result, ok, close_result, ended, Reply-cases, returned, err, refused, panic, stuck, panicked,
  hung,
}
use gnomock.Container.{Container, address}

-- The directories among the listed files.
abbrev pub directories : List (Text × Bool) → List Text
directories [] = []
directories ((name, true) ∷ files) = name ∷ directories files
directories ((name, false) ∷ files) = directories files

-- One creation for each bucket.
abbrev pub created : List Text → History → History
created [] h = h
created (bucket ∷ buckets) h = created buckets (create_bucket_call bucket ∷ h)

-- One upload for each file below `root`, under the rest of its path.
abbrev pub uploaded_from : Text → Text → List Entry → History → History
uploaded_from root bucket [] h = h
uploaded_from root bucket (e ∷ entries) h =
    uploaded_from root bucket entries
      (if e.is_dir then h else put_object_call bucket (drop (length root) e.path) e.path ∷ h)

module _ (s : Client) (s3_path : Text) where
  abbrev pub uploaded : List Text → History → History
  uploaded [] h = h
  uploaded (bucket ∷ buckets) h =
      let root = s.path_join s3_path bucket in
      uploaded buckets (uploaded_from root bucket (s.walk root) h)

  close_result_ok :
      (r : Reply (Unit {0})) (x : Result (Unit {0})) → close_result r x ≡ ok tt → x ≡ ok tt
  close_result_ok (reply tt) x e = e
  close_result_ok (refuse f) (ok a) e = absurd (ground arith)
  close_result_ok (refuse f) (err g) e = absurd (ground arith)
  close_result_ok (refuse f) panic e = absurd (ground arith)
  close_result_ok (refuse f) stuck e = absurd (ground arith)

  upload_file-calls :
      (bucket file : Text) (h h' : History)
      → upload_file s s3_path bucket file h ≡ (ok tt, h')
      → h' ≡ put_object_call bucket (drop (length (s.path_join s3_path bucket)) file) file ∷ h
  unfolding upload_file key_of
  upload_file-calls bucket file h h' e = elim (Reply-cases (s.opens_file file)) [
    | inr (f, p) ↦ absurd (ground arith)
    | inl (u, p) ↦ elim (Bool-cases (leb (length (s.path_join s3_path bucket)) (length file))) [
      | inr q ↦ absurd (ground arith)
      | inl q ↦ ground arith
    ]
  ]

  visit-calls :
      (bucket : Text) (x : Entry) (h h' : History)
      → visit s s3_path bucket x h ≡ (ok tt, h')
      → h' ≡ (
          if x.is_dir
          then h
          else put_object_call bucket (drop (length (s.path_join s3_path bucket)) x.path) x.path
            ∷ h)
  unfolding visit
  visit-calls bucket x h h' e = elim (Option-cases x.failure) [
    | inr (f, p) ↦ absurd (ground arith)
    | inl p ↦ elim (Bool-cases x.is_dir) [
      | inl q ↦ ground arith
      | inr q ↦ ground (arith, upload_file-calls bucket x.path h h')
    ]
  ]

  visit_all-calls :
      (bucket : Text) (entries : List Entry) (h h' : History)
      → visit_all s s3_path bucket entries h ≡ (ok tt, h')
      → h' ≡ uploaded_from (s.path_join s3_path bucket) bucket entries h
  unfolding visit_all
  visit_all-calls bucket [] h h' e = ground arith
  visit_all-calls bucket (x ∷ entries) h h' e = elim (ended (visit s s3_path bucket x h)) [
    | returned u g p ↦ ground (arith, visit-calls bucket x h g, visit_all-calls bucket entries g h')
    | refused f g p ↦ absurd (ground arith)
    | panicked g p ↦ absurd (ground arith)
    | hung g p ↦ absurd (ground arith)
  ]

  upload_files-calls :
      (buckets : List Text) (h h' : History)
      → upload_files s s3_path buckets h ≡ (ok tt, h')
      → h' ≡ uploaded buckets h
  unfolding upload_files
  upload_files-calls [] h h' e = ground arith
  upload_files-calls (bucket ∷ buckets) h h' e =
      let root = s.path_join s3_path bucket in
      elim (ended (visit_all s s3_path bucket (s.walk root) h)) [
        | returned u g p ↦
            ground
              (arith, visit_all-calls bucket (s.walk root) h g, upload_files-calls buckets g h')
        | refused f g p ↦ absurd (ground arith)
        | panicked g p ↦ absurd (ground arith)
        | hung g p ↦ absurd (ground arith)
      ]

  create_each-calls :
      (files : List (Text × Bool)) (h h' : History) (buckets : List Text)
      → create_each s s3_path files h ≡ (ok buckets, h')
      → (buckets ≡ directories files) × (h' ≡ created (directories files) h)
  unfolding create_each create_bucket
  create_each-calls [] h h' buckets e = (ground arith, ground arith)
  create_each-calls ((name, false) ∷ files) h h' buckets e = create_each-calls files h h' buckets e
  create_each-calls ((name, true) ∷ files) h h' buckets e =
      elim (Reply-cases (s.creates_bucket name h)) [
        | inl (u, p) ↦ elim (ended (create_each s s3_path files (create_bucket_call name ∷ h))) [
          | returned rest g q ↦
              let (same, calls) = create_each-calls files (create_bucket_call name ∷ h) g rest q in
              (ground arith, ground arith)
          | refused f g q ↦ absurd (ground arith)
          | panicked g q ↦ absurd (ground arith)
          | hung g q ↦ absurd (ground arith)
        ]
        | inr (f, p) ↦ absurd (ground arith)
      ]

  -- A setup of S3 that succeeds has made these calls and no others, in this order: it creates a
  -- bucket for each directory of the given path, and then uploads every file below each of them,
  -- under the part of its path that follows the bucket's.
  pub init_s3-calls :
      (c : Container) (files : List (Text × Bool)) (h h' : History)
      → is_empty s3_path ≡ false
      → s.read_dir s3_path ≡ reply files
      → init_s3 s s3_path c h ≡ (ok tt, h')
      → h' ≡ uploaded (directories files) (created (directories files) h)
  unfolding init_s3 create_buckets
  init_s3-calls c files h h' given_path listed e =
      elim (Reply-cases (s.new_session (lit "http://" ++ (address c (lit "api") ++ lit "/")))) [
        | inr (f, p) ↦ absurd (ground arith)
        | inl (u, p) ↦ elim (ended (create_each s s3_path files h)) [
          | returned buckets g q ↦
              let (same, calls) = create_each-calls files h g buckets q in
              ground (arith, upload_files-calls buckets g h')
          | refused f g q ↦ absurd (ground arith)
          | panicked g q ↦ absurd (ground arith)
          | hung g q ↦ absurd (ground arith)
        ]
      ]
