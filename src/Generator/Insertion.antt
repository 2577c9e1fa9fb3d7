-- ===== src/Generator/Insertion.antt =====
-- What the generator makes of a file with a placeholder.
use gnomock.Base.{◌∷◌, Text, ◌≡◌, ℕ, ◌++◌, contains, inr, false, arith, ◌∙◌, inl, ap, sym, ◌⊎◌, lit}
use mathlib.Core.List.{append_assoc}
use gnomock.Engine.Actions.{ok, Reply-cases, Result, err}
use gnomock.Engine.{reply, History, refuse}
use gnomock.Errors.{GoError, wrap}
use gnomock.Generator.{Client, PresetParams, replace_placeholder, write_call, write}
use gnomock.Base.Replace.{replace_all, Before, replace_all_of_absent, replace_all-Before}
use gnomock.Base.FilePaths.{path_base}

module _ (s : Client) where
  replace_placeholder-writes :
      (target template placeholder : Text) (params : PresetParams) (h h' : History)
      → replace_placeholder s target template placeholder params h ≡ (ok tt, h')
      → (text : Text) × (rendered : Text) × (s.read_file target h ≡ reply text)
        × (s.renders template params ≡ reply rendered)
        × (h' ≡ write_call target (replace_all text placeholder rendered) ∷ h)
  unfolding replace_placeholder write
  replace_placeholder-writes target template placeholder params h h' e =
      elim (Reply-cases (s.read_file target h)) [
        | inr (x, p) ↦ absurd (ground arith)
        | inl (text, p) ↦ elim (Reply-cases (s.parses (path_base template) template)) [
          | inr (x, q) ↦ absurd (ground arith)
          | inl (u, q) ↦ elim (Reply-cases (s.renders template params)) [
            | inr (x, r) ↦ absurd (ground arith)
            | inl (rendered, r) ↦
                let content = replace_all text placeholder rendered in
                elim (Reply-cases (s.writes target content h)) [
                  | inr (x, t) ↦ absurd (ground arith)
                  | inl (v, t) ↦ (text, rendered, p, r, ground arith)
                ]
          ]
        ]
      ]

  -- Where the placeholder stands once in a file and the template ends with it, a successful
  -- replacement writes the file with the new block put right before the placeholder, which stays,
  -- so that the next preset can be added in the same way.
  pub replace_placeholder-inserted :
      (target template : Text) (b : ℕ) (rest before after block : Text) (params : PresetParams)
      (h h' : History)
      → replace_placeholder s target template (b ∷ rest) params h ≡ (ok tt, h')
      → s.read_file target h ≡ reply (before ++ ((b ∷ rest) ++ after))
      → s.renders template params ≡ reply (block ++ b ∷ rest)
      → Before (b ∷ rest) before ((b ∷ rest) ++ after)
      → contains after (b ∷ rest) ≡ false
      → h' ≡ write_call target ((before ++ block) ++ ((b ∷ rest) ++ after)) ∷ h
  replace_placeholder-inserted target template b rest before after block params h h' e reads renders
        first last =
      let (text, rendered, p, q, calls) =
        replace_placeholder-writes target template (b ∷ rest) params h h' e in
      let same : text ≡ before ++ ((b ∷ rest) ++ after) = ground arith in
      let drawn : rendered ≡ block ++ b ∷ rest = ground arith in
      let placed : replace_all text (b ∷ rest) rendered
          ≡ (before ++ block) ++ ((b ∷ rest) ++ after) =
        ap (λ t. replace_all t (b ∷ rest) rendered) same
        ∙ replace_all-Before before after rendered b rest first
        ∙ ap (λ t. before ++ (rendered ++ t)) (replace_all_of_absent after (b ∷ rest) rendered last)
        ∙ ap (λ t. before ++ (t ++ after)) drawn
        ∙ ap (λ t. before ++ t) (append_assoc block (b ∷ rest) after)
        ∙ sym (append_assoc before block ((b ∷ rest) ++ after)) in
      calls ∙ ap (λ t. write_call target t ∷ h) placed

  -- The file was written with a text, or it could not be written, which is the error.
  abbrev pub Written : Text → Text → History → Result (Unit {0}) × History → Type 0
  Written target text h (r, h') =
      (h' ≡ write_call target text ∷ h)
      × (((s.writes target text h ≡ reply tt) × (r ≡ ok tt))
          ⊎ ((x : GoError) × (y : GoError) × (s.writes target text h ≡ refuse x) × (r ≡ err y)))

  -- The template could not be parsed or executed, which is the error, and nothing was written.
  abbrev pub NoBlock : Text → PresetParams → History → Result (Unit {0}) × History → Type 0
  NoBlock template params h (r, h') =
      (h' ≡ h)
      × (y : GoError) × (r ≡ err y)
      × (x : GoError) × ((s.parses (path_base template) template ≡ refuse x)
          ⊎ (s.renders template params ≡ refuse x))

  -- Where the placeholder is missing in a file that can be read, a replacement writes the file as it
  -- was. The only errors are those of the template and of the write: none says that the preset was not
  -- added.
  pub replace_placeholder-absent :
      (target template placeholder text : Text) (params : PresetParams) (h : History)
      → s.read_file target h ≡ reply text
      → contains text placeholder ≡ false
      → Written target text h (replace_placeholder s target template placeholder params h)
        ⊎ NoBlock template params h (replace_placeholder s target template placeholder params h)
  unfolding replace_placeholder write
  replace_placeholder-absent target template placeholder text params h reads none_there =
      elim (Reply-cases (s.parses (path_base template) template)) [
        | inr (x, q) ↦
            inr (
              ground arith,
              wrap (lit "can't read " ++ path_base template) x,
              ground arith,
              x,
              inl q,
            )
        | inl (u, q) ↦ elim (Reply-cases (s.renders template params)) [
          | inr (x, r) ↦
              inr (ground arith, wrap (lit "can't execute template") x, ground arith, x, inr r)
          | inl (rendered, r) ↦
              let same = replace_all_of_absent text placeholder rendered none_there in
              elim (Reply-cases (s.writes target text h)) [
                | inl (v, t) ↦ inl (ground arith, inl (t, ground arith))
                | inr (x, t) ↦
                    inl (
                      ground arith,
                      inr (x, wrap (lit "can't write " ++ target) x, t, ground arith),
                    )
              ]
        ]
      ]
