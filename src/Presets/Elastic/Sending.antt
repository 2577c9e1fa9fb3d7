-- ===== src/Presets/Elastic/Sending.antt =====
-- What a successful ingestion of files into elasticsearch has indexed.
use gnomock.Base.{
  none, some, ◌^◌, ◌%◌, ◌+◌, ℕ, Text, List, ◌≡◌, ◌∷◌, inr, [], arith, inl, length, lit, ◌∙◌, ap,
  refl, suc, Bool-cases, ◌++◌, ◌<◌,
}
use gnomock.Engine.Actions.{ok, value, failed, Tried, wrapping, Reply-cases}
use gnomock.Engine.{World, Context, reply, History, select}
use gnomock.Presets.Elastic.{
  Client, ingest_data, ingest_docs, ingest_file, ingest_seed_files, unless_error, index_call,
}
use gnomock.Engine.Success.{bind-ok, wrapping-ok, closing-ok}
use gnomock.Docker.Client.{select_done}
use gnomock.Base.FilePaths.{path_base}
use mathlib.Core.Path.{subst}

-- One request for each document.
abbrev pub indexed : Text → List Text → History → History
indexed index [] h = h
indexed index (bs ∷ docs) h = indexed index docs (index_call index bs ∷ h)

mod_bound : (a : ℕ) → a % 2 ^ 64 < 2 ^ 64
mod_bound a = omega arith

keep_word : (a : ℕ) → a < 2 ^ 64 → a ≡ (a + 0) % 2 ^ 64
keep_word a lt = omega arith

next_word : (a n : ℕ) → ((a + 1) % 2 ^ 64 + n) % 2 ^ 64 ≡ (a + suc n) % 2 ^ 64
next_word a n = omega arith

sum_word :
    (a k d m : ℕ) → k ≡ (0 + d) % 2 ^ 64 → ((a + k) % 2 ^ 64 + m) % 2 ^ 64 ≡ (a + (d + m)) % 2 ^ 64
sum_word a k d m e = omega arith

module _ (s : Client) where
  -- The decoder gave values and then the end of the file, and these are their encodings.
  abbrev pub Marshaled : List (Tried Text) → List Text → Type 0
  Marshaled [] docs = docs ≡ []
  Marshaled (failed e ∷ items) docs = ⊥
  Marshaled (value v ∷ items) docs =
      (bs : Text) × (rest : List Text) × (s.marshal v ≡ reply bs)
      × Marshaled items rest
      × (docs ≡ bs ∷ rest)

  ingest_data-calls :
      (index bs : Text) (h h' : History)
      → ingest_data s index bs h ≡ (ok tt, h')
      → h' ≡ index_call index bs ∷ h
  unfolding ingest_data unless_error
  ingest_data-calls index bs h h' e = elim (Reply-cases (s.index index bs h)) [
    | inr (x, p) ↦ absurd (ground arith)
    | inl (none, p) ↦ elim (Reply-cases s.close_body) [
      | inr (x, q) ↦ absurd (ground arith)
      | inl (u, q) ↦ ground arith
    ]
    | inl (some text, p) ↦ elim (Reply-cases s.close_body) [
      | inr (x, q) ↦ absurd (ground arith)
      | inl (u, q) ↦ absurd (ground arith)
    ]
  ]

  ingest_docs-indexed :
      (index : Text) (items : List (Tried Text)) (count n : ℕ) (h h' : History)
      → count < 2 ^ 64
      → ingest_docs s index items count h ≡ (ok n, h')
      → (docs : List Text) × Marshaled items docs
        × (h' ≡ indexed index docs h)
        × (n ≡ (count + length docs) % 2 ^ 64)
  unfolding ingest_docs
  ingest_docs-indexed index [] count n h h' lt e =
      ([], refl, ground arith, ground (arith, keep_word count lt))
  ingest_docs-indexed index (failed x ∷ items) count n h h' lt e = absurd (ground arith)
  ingest_docs-indexed index (value v ∷ items) count n h h' lt e = elim (Reply-cases (s.marshal v)) [
    | inr (x, p) ↦ absurd (ground arith)
    | inl (bs, p) ↦
        let send = ingest_data s index bs in
        let prefix = lit "failed to ingest data" in
        let (u, g, q, r) =
          bind-ok (wrapping prefix send) (λ _. ingest_docs s index items ((count + 1) % 2 ^ 64)) h
            h' n (ground arith) in
        let now = ingest_data-calls index bs h g (wrapping-ok prefix send h g tt q) in
        let (docs, ms, calls, total) =
          ingest_docs-indexed index items ((count + 1) % 2 ^ 64) n g h' (mod_bound (count + 1)) r in
        (
          bs ∷ docs,
          (bs, docs, p, ms, refl),
          calls ∙ ap (indexed index docs) now,
          total ∙ next_word count (length docs),
        )
  ]

  ingest_file-indexed :
      (file : Text) (n : ℕ) (h h' : History)
      → ingest_file s file h ≡ (ok n, h')
      → (docs : List Text) × Marshaled (s.decodes file) docs
        × (h' ≡ indexed (path_base file) docs h)
        × (n ≡ (0 + length docs) % 2 ^ 64)
  unfolding ingest_file
  ingest_file-indexed file n h h' e = elim (Reply-cases (s.opens_file file)) [
    | inr (x, p) ↦ absurd (ground arith)
    | inl (u, p) ↦ ingest_docs-indexed (path_base file) (s.decodes file) 0 n h h' (omega arith) (
        closing-ok (s.closes_file file) (ingest_docs s (path_base file) (s.decodes file) 0) h h' n
          (ground arith))
  ]

  module _ (w : World) (ctx : Context) where
    -- File by file, the context was looked at, and the documents of the file were indexed under the
    -- last element of its path. The number is that of all documents.
    abbrev pub FilesIndexed : List Text → History → History → ℕ → Type 0
    FilesIndexed [] h h' n = (h' ≡ h) × (n ≡ 0)
    FilesIndexed (file ∷ files) h h' n =
        (docs : List Text) × (m : ℕ) × Marshaled (s.decodes file) docs
        × FilesIndexed files (indexed (path_base file) docs (select ctx ∷ h)) h' m
        × (n ≡ length docs + m)

    pub ingest_seed_files-FilesIndexed :
        (files : List Text) (count n : ℕ) (h h' : History)
        → count < 2 ^ 64
        → ingest_seed_files s w ctx files count h ≡ (ok n, h')
        → (m : ℕ) × FilesIndexed files h h' m × (n ≡ (count + m) % 2 ^ 64)
    unfolding ingest_seed_files select_done
    ingest_seed_files-FilesIndexed [] count n h h' lt e =
        (0, (ground arith, refl), ground (arith, keep_word count lt))
    ingest_seed_files-FilesIndexed (file ∷ files) count n h h' lt e =
        elim (Bool-cases (w.done ctx h)) [
          | inl over ↦ absurd (ground arith)
          | inr early ↦
              let prefix = lit "can't ingest file '" ++ (file ++ lit "'") in
              let (k, g, p, q) =
                bind-ok (wrapping prefix (ingest_file s file))
                  (λ a. ingest_seed_files s w ctx files ((count + a) % 2 ^ 64)) (select ctx ∷ h) h'
                  n (ground arith) in
              let (docs, ms, now, size) =
                ingest_file-indexed file k (select ctx ∷ h) g
                  (wrapping-ok prefix (ingest_file s file) (select ctx ∷ h) g k p) in
              let (m, rest, total) =
                ingest_seed_files-FilesIndexed files ((count + k) % 2 ^ 64) n g h'
                  (mod_bound (count + k)) q in
              (
                length docs + m,
                (docs, m, ms, subst (λ x. FilesIndexed files x h' m) now rest, refl),
                total ∙ sum_word count k (length docs) m size,
              )
        ]
