-- ===== src/Presets/Files/Decoded.antt =====
-- What a successful loop over files of messages has read.
use gnomock.Base.{Text, List, ◌≡◌, ◌∷◌, map, ◌++◌, arith, inr, [], inl, ◌∙◌, refl, sym, ap}
use mathlib.Core.List.{append-nil, append_assoc}
use gnomock.Engine.Actions.{
  value, failed, Tried, ok, Reply-cases, pure, ended, returned, refused, panicked, hung,
}
use gnomock.Engine.Success.{bind-ok, closing-ok}
use gnomock.Presets.Files.{Files, kept_messages, read_messages, load_messages_from_file, load_files}
use gnomock.Engine.{History}

module _ {A : Type 0} where
  -- The decoder gave these messages and then the end of the file.
  abbrev pub Decoded : List (Tried A) → List A → Type 0
  Decoded items messages = items ≡ map value messages

  read_messages-Decoded :
      (file : Text) (items : List (Tried A)) (messages : List A) (h h' : History)
      → read_messages file items h ≡ (ok messages, h')
      → Decoded items messages × (h' ≡ h)
  unfolding read_messages
  read_messages-Decoded file [] messages h h' e = ground arith
  read_messages-Decoded file (failed x ∷ items) messages h h' e = absurd (ground arith)
  read_messages-Decoded file (value m ∷ items) messages h h' e =
      let (more, g, p, q) =
        bind-ok (read_messages file items) (λ rest. pure (m ∷ rest)) h h' messages e in
      let (d, same) = read_messages-Decoded file items more h g p in (ground arith, ground arith)

  module _ (s : Files A) where
    -- The messages of the files, one after the other.
    abbrev pub AllDecoded : List Text → List A → Type 0
    AllDecoded [] all = all ≡ []
    AllDecoded (f ∷ files) all =
        (first : List A) × (rest : List A) × Decoded (s.decodes f) first
        × AllDecoded files rest
        × (all ≡ first ++ rest)

    load_file-Decoded :
        (file : Text) (messages : List A) (h h' : History)
        → load_messages_from_file s file h ≡ (ok messages, h')
        → Decoded (s.decodes file) messages × (h' ≡ h)
    unfolding load_messages_from_file
    load_file-Decoded file messages h h' e = elim (Reply-cases (s.opens_file file)) [
      | inr (x, p) ↦ absurd (ground arith)
      | inl (u, p) ↦ read_messages-Decoded file (s.decodes file) messages h h' (
          closing-ok (s.closes_file file) (read_messages file (s.decodes file)) h h' messages
            (ground arith))
    ]

    -- A loop over files that succeeds makes no call and adds the messages of all files, in order.
    pub load_files-AllDecoded :
        (files : List Text) (messages all : List A) (h h' : History)
        → load_files s files messages h ≡ (ok all, h')
        → (more : List A) × AllDecoded files more × (all ≡ messages ++ more) × (h' ≡ h)
    unfolding load_files
    load_files-AllDecoded [] messages all h h' e =
        ([], refl, ground (arith, append-nil messages), ground arith)
    load_files-AllDecoded (f ∷ files) messages all h h' e =
        elim (ended (load_messages_from_file s f h)) [
          | returned first g p ↦
              let (d, same) = load_file-Decoded f first h g p in
              let (rest, ds, split_all, same') =
                load_files-AllDecoded files (messages ++ first) all g h' (ground arith) in
              (
                first ++ rest,
                (first, rest, d, ds, refl),
                split_all ∙ append_assoc messages first rest,
                same' ∙ same,
              )
          | refused x g p ↦ absurd (ground arith)
          | panicked g p ↦ absurd (ground arith)
          | hung g p ↦ absurd (ground arith)
        ]

    -- The messages of a list of files are determined by the files.
    Decoded-unique :
        (items : List (Tried A)) (xs ys : List A) → Decoded items xs → Decoded items ys → xs ≡ ys
    Decoded-unique items [] [] d e = refl
    Decoded-unique items [] (y ∷ ys) d e = absurd (ground arith)
    Decoded-unique items (x ∷ xs) [] d e = absurd (ground arith)
    Decoded-unique [] (x ∷ xs) (y ∷ ys) d e = absurd (ground arith)
    Decoded-unique (i ∷ items) (x ∷ xs) (y ∷ ys) d e = ground (arith, Decoded-unique items xs ys)

    pub AllDecoded-unique :
        (files : List Text) (xs ys : List A) → AllDecoded files xs → AllDecoded files ys → xs ≡ ys
    AllDecoded-unique [] xs ys d e = d ∙ sym e
    AllDecoded-unique (f ∷ files) xs ys (a, b, d, ds, p) (a', b', d', ds', p') =
        let same = Decoded-unique (s.decodes f) a a' d d' in
        let same' = AllDecoded-unique files b b' ds ds' in ground arith

    read_messages-value :
        (file : Text) (messages : List A) (g : History)
        → read_messages file (map value messages) g ≡ (ok messages, g)
    unfolding read_messages
    read_messages-value file [] g = refl
    read_messages-value file (m ∷ messages) g = ground (arith, read_messages-value file messages g)

    -- What one file gives does not depend on the calls made before.
    load_file-anywhere :
        (file : Text) (messages : List A) (h h' g : History)
        → load_messages_from_file s file h ≡ (ok messages, h')
        → load_messages_from_file s file g ≡ (ok messages, g)
    unfolding load_messages_from_file
    load_file-anywhere file messages h h' g e =
        let items : s.decodes file ≡ map value messages =
          (load_file-Decoded file messages h h' e).0 in
        let read : read_messages file (s.decodes file) g ≡ (ok messages, g) =
          ap (λ x. read_messages file x g) items ∙ read_messages-value file messages g in
        elim (Reply-cases (s.opens_file file)) [
          | inr (x, p) ↦ absurd (ground arith)
          | inl (u, p) ↦ elim (Reply-cases (s.closes_file file)) [
            | inr (x, q) ↦ elim (ended (read_messages file (s.decodes file) h)) [
              | returned a k r ↦ absurd (ground arith)
              | refused y k r ↦ absurd (ground arith)
              | panicked k r ↦ absurd (ground arith)
              | hung k r ↦ absurd (ground arith)
            ]
            | inl (v, q) ↦ ground arith
          ]
        ]

    -- What a successful loop has read is what the preset keeps.
    pub load_files-kept :
        (files : List Text) (messages all : List A) (h h' : History)
        → load_files s files messages h ≡ (ok all, h')
        → kept_messages s files messages ≡ all
    unfolding load_files kept_messages
    load_files-kept [] messages all h h' e = ground arith
    load_files-kept (f ∷ files) messages all h h' e = elim (ended (load_messages_from_file s f h)) [
      | returned first g p ↦ ground (
        arith,
        load_file-anywhere f first h g [] p,
        load_files-kept files (messages ++ first) all g h',
      )
      | refused x g p ↦ absurd (ground arith)
      | panicked g p ↦ absurd (ground arith)
      | hung g p ↦ absurd (ground arith)
    ]
