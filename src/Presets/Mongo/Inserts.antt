-- ===== src/Presets/Mongo/Inserts.antt =====
-- What a successful initialization of mongo has inserted.
use gnomock.Engine.Actions.{ok, value, failed, Tried, wrapping, Reply-cases}
use gnomock.Engine.{reply, History}
use gnomock.Presets.Mongo.{
  P, Client, connect_call, insert_call, uri_of, insert_each, setup_collection, setup_collections,
  setup_db, setup_dbs, initf, connect, collection_name, read_sub_path,
}
use gnomock.Container.{Container}
use gnomock.Base.{
  Text, ◌≡◌, List, ◌∷◌, map, Bool, inr, arith, [], true, lit, inl, false, ◌++◌, refl,
}
use gnomock.Engine.Success.{bind-ok, wrapping-ok}
use mathlib.Core.Path.{subst}

-- One insertion for each document.
abbrev pub inserted : Text → Text → List Text → History → History
inserted db collection [] h = h
inserted db collection (d ∷ documents) h =
    inserted db collection documents (insert_call db collection d ∷ h)

module _ (s : Client) where
  -- Every file of a directory is decoded to its end, and its documents are inserted into the
  -- collection of its name.
  abbrev pub FilesInserted : Text → Text → List (Text × Bool) → History → History → Type 0
  FilesInserted path dir [] h h' = h' ≡ h
  FilesInserted path dir ((name, true) ∷ files) h h' = FilesInserted path dir files h h'
  FilesInserted path dir ((name, false) ∷ files) h h' =
      (documents : List Text) × (s.decodes (s.path_join (s.path_join path dir) name)
        ≡ map value documents)
      × FilesInserted path dir files (inserted dir (collection_name name) documents h) h'

  -- The same of every directory of the data path, as the database of its name.
  abbrev pub DirsInserted : Text → List (Text × Bool) → History → History → Type 0
  DirsInserted path [] h h' = h' ≡ h
  DirsInserted path ((name, false) ∷ dirs) h h' = DirsInserted path dirs h h'
  DirsInserted path ((name, true) ∷ dirs) h h' =
      (files : List (Text × Bool)) × (g : History) × (s.read_dir (s.path_join path name)
        ≡ reply files)
      × FilesInserted path name files h g
      × DirsInserted path dirs g h'

  insert_each-inserted :
      (db file : Text) (items : List (Tried Text)) (h h' : History)
      → insert_each s db file items h ≡ (ok tt, h')
      → (documents : List Text) × (items ≡ map value documents)
        × (h' ≡ inserted db (collection_name file) documents h)
  unfolding insert_each
  insert_each-inserted db file [] h h' e = ([], refl, ground arith)
  insert_each-inserted db file (failed x ∷ items) h h' e = absurd (ground arith)
  insert_each-inserted db file (value d ∷ items) h h' e =
      elim (Reply-cases (s.inserts db (collection_name file) d h)) [
        | inr (x, p) ↦ absurd (ground arith)
        | inl (u, p) ↦
            let (documents, q, r) =
              insert_each-inserted db file items (insert_call db (collection_name file) d ∷ h) h'
                (ground arith) in
            (d ∷ documents, ground arith, r)
      ]

  setup_collection-inserted :
      (path dir file : Text) (h h' : History)
      → setup_collection s path dir file h ≡ (ok tt, h')
      → (documents : List Text) × (s.decodes (s.path_join (s.path_join path dir) file)
          ≡ map value documents)
        × (h' ≡ inserted dir (collection_name file) documents h)
  unfolding setup_collection
  setup_collection-inserted path dir file h h' e =
      let full = s.path_join (s.path_join path dir) file in
      elim (Reply-cases (s.opens_file full)) [
        | inr (x, p) ↦ absurd (ground arith)
        | inl (u, p) ↦ elim (Reply-cases (s.new_reader full)) [
          | inr (x, q) ↦ absurd (ground arith)
          | inl (v, q) ↦ elim (Reply-cases (s.new_decoder full)) [
            | inr (x, r) ↦ absurd (ground arith)
            | inl (t, r) ↦ insert_each-inserted dir file (s.decodes full) h h' (ground arith)
          ]
        ]
      ]

  setup_collections-FilesInserted :
      (path dir : Text) (files : List (Text × Bool)) (h h' : History)
      → setup_collections s path dir files h ≡ (ok tt, h')
      → FilesInserted path dir files h h'
  unfolding setup_collections
  setup_collections-FilesInserted path dir [] h h' e = ground arith
  setup_collections-FilesInserted path dir ((name, true) ∷ files) h h' e =
      setup_collections-FilesInserted path dir files h h' e
  setup_collections-FilesInserted path dir ((name, false) ∷ files) h h' e =
      let prefix = lit "can't setup collection from file '" ++ (name ++ lit "'") in
      let one = setup_collection s path dir name in
      let (u, g, p, q) =
        bind-ok (wrapping prefix one) (λ _. setup_collections s path dir files) h h' tt e in
      let (documents, r, now) =
        setup_collection-inserted path dir name h g (wrapping-ok prefix one h g tt p) in
      let rest = setup_collections-FilesInserted path dir files g h' q in
      (documents, r, subst (λ k. FilesInserted path dir files k h') now rest)

  setup_dbs-DirsInserted :
      (path : Text) (dirs : List (Text × Bool)) (h h' : History)
      → setup_dbs s path dirs h ≡ (ok tt, h')
      → DirsInserted path dirs h h'
  unfolding setup_dbs setup_db read_sub_path
  setup_dbs-DirsInserted path [] h h' e = ground arith
  setup_dbs-DirsInserted path ((name, false) ∷ dirs) h h' e =
      setup_dbs-DirsInserted path dirs h h' e
  setup_dbs-DirsInserted path ((name, true) ∷ dirs) h h' e =
      let (u, g, p, q) = bind-ok (setup_db s path name) (λ _. setup_dbs s path dirs) h h' tt e in
      elim (Reply-cases (s.read_dir (s.path_join path name))) [
        | inr (x, r) ↦ absurd (ground arith)
        | inl (files, r) ↦ (
          files,
          g,
          r,
          setup_collections-FilesInserted path name files h g (ground arith),
          setup_dbs-DirsInserted path dirs g h' q,
        )
      ]

  -- A successful initialization has connected with the address of the container, as the user of the
  -- preset if it has a name and a password, and has then made these calls and no others: for every
  -- directory of the data path, in the order of os.ReadDir, and every file of it that is no
  -- directory, one insertion of every document of the file into the database with the name of the
  -- directory and the collection with the name of the file without its extension.
  pub initf-inserted :
      (p : P) (c : Container) (h h' : History)
      → initf s p c h ≡ (ok tt, h')
      → (dirs : List (Text × Bool)) × (s.read_dir p.data_path ≡ reply dirs)
        × DirsInserted p.data_path dirs (connect_call (uri_of p c) ∷ h) h'
  unfolding initf connect
  initf-inserted p c h h' e = elim (Reply-cases (s.new_client (uri_of p c))) [
    | inr (x, q) ↦ absurd (ground arith)
    | inl (u, q) ↦ elim (Reply-cases (s.connects (uri_of p c) h)) [
      | inr (x, r) ↦ absurd (ground arith)
      | inl (v, r) ↦ elim (Reply-cases (s.read_dir p.data_path)) [
        | inr (x, t) ↦ absurd (ground arith)
        | inl (dirs, t) ↦ (
          dirs,
          t,
          setup_dbs-DirsInserted p.data_path dirs (connect_call (uri_of p c) ∷ h) h' (ground arith),
        )
      ]
    ]
  ]
