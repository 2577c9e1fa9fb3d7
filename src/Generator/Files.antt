-- ===== src/Generator/Files.antt =====
-- Which files the generator makes for a preset.
use gnomock.Base.{[], ◌∷◌, ◌≡◌, Text, List, lit, inr, false, arith, ◌++◌, inl, ◌∙◌, ap, refl}
use gnomock.Engine.Actions.{ok, wrapping, Reply-cases, ended, returned, refused, panicked, hung}
use gnomock.Engine.{reply, History}
use gnomock.Generator.{
  Client, PresetParams, render_into, preset_file, preset_files, preset_pkg, generate,
  files_of_preset, mkdir_call, create_call, write_call, write, to_lower,
}
use gnomock.Engine.Success.{bind-ok, wrapping-ok}

-- One new file with each of these texts.
abbrev pub made : List (Text × Text) → History → History
made [] h = h
made ((file, text) ∷ rest) h = made rest (write_call file text ∷ create_call file ∷ h)

module _ (s : Client) where
  -- The files of the folder, each with the text of its template.
  abbrev pub Rendered : Text → List Text → PresetParams → List (Text × Text) → Type 0
  Rendered dir [] params made_files = made_files ≡ []
  Rendered dir (file ∷ files) params made_files =
      (text : Text) × (rest : List (Text × Text)) × (s.renders
          (s.path_join (lit "cmd/generator/templates/preset" ∷ (file ++ lit ".template") ∷ []))
          params
        ≡ reply text)
      × Rendered dir files params rest
      × (made_files ≡ (s.path_join (dir ∷ file ∷ []), text) ∷ rest)

  render_into-made :
      (name template file : Text) (params : PresetParams) (h h' : History)
      → render_into s name template file params h ≡ (ok tt, h')
      → (text : Text) × (s.renders template params ≡ reply text)
        × (h' ≡ write_call file text ∷ create_call file ∷ h)
  unfolding render_into write
  render_into-made name template file params h h' e = elim (Reply-cases (s.parses name template)) [
    | inr (x, p) ↦ absurd (ground arith)
    | inl (u, p) ↦ elim (Reply-cases (s.creates file h)) [
      | inr (x, q) ↦ absurd (ground arith)
      | inl (v, q) ↦ elim (Reply-cases (s.renders template params)) [
        | inr (x, r) ↦ absurd (ground arith)
        | inl (text, r) ↦ elim (Reply-cases (s.writes file text (create_call file ∷ h))) [
          | inr (x, t) ↦ absurd (ground arith)
          | inl (z, t) ↦ (text, r, ground arith)
        ]
      ]
    ]
  ]

  preset_files-Rendered :
      (dir : Text) (files : List Text) (params : PresetParams) (h h' : History)
      → preset_files s dir files params h ≡ (ok tt, h')
      → (made_files : List (Text × Text)) × Rendered dir files params made_files
        × (h' ≡ made made_files h)
  unfolding preset_files preset_file
  preset_files-Rendered dir [] params h h' e = ([], refl, ground arith)
  preset_files-Rendered dir (file ∷ files) params h h' e =
      let prefix = lit "can't generate preset file" in
      let one = preset_file s dir file params in
      let (u, g, p, q) =
        bind-ok (wrapping prefix one) (λ _. preset_files s dir files params) h h' tt e in
      let template_name = file ++ lit ".template" in
      let (text, r, now) =
        render_into-made template_name
          (s.path_join (lit "cmd/generator/templates/preset" ∷ template_name ∷ []))
          (s.path_join (dir ∷ file ∷ [])) params h g (wrapping-ok prefix one h g tt p) in
      let (rest, rendered, calls) = preset_files-Rendered dir files params g h' q in
      (
        (s.path_join (dir ∷ file ∷ []), text) ∷ rest,
        (text, rest, r, rendered, refl),
        calls ∙ ap (made rest) now,
      )

  preset_pkg-Rendered :
      (params : PresetParams) (dir : Text) (h h' : History)
      → dir ≡ s.path_join (lit "preset" ∷ to_lower params.name ∷ [])
      → preset_pkg s params h ≡ (ok tt, h')
      → (made_files : List (Text × Text)) × Rendered dir files_of_preset params made_files
        × (h' ≡ made made_files (mkdir_call dir ∷ h))
  unfolding preset_pkg
  preset_pkg-Rendered params dir h h' is e = elim (Reply-cases (s.makes_dir dir h)) [
    | inr (x, p) ↦ absurd (ground arith)
    | inl (u, p) ↦
        preset_files-Rendered dir files_of_preset params (mkdir_call dir ∷ h) h' (ground arith)
  ]

  -- For a preset that is not public, a successful run makes the folder of the preset, under its name
  -- in lower case, and in it the four files of a preset, each with the text of its template, and
  -- touches nothing else.
  pub generate-Rendered :
      (params : PresetParams) (h h' : History)
      → params.public ≡ false
      → generate s params h ≡ (ok tt, h')
      → (made_files : List (Text × Text)) × Rendered
          (s.path_join (lit "preset" ∷ to_lower params.name ∷ []))
          files_of_preset
          params
          made_files
        × (h'
            ≡ made made_files
                (mkdir_call (s.path_join (lit "preset" ∷ to_lower params.name ∷ [])) ∷ h))
  unfolding generate
  generate-Rendered params h h' private e =
      let dir = s.path_join (lit "preset" ∷ to_lower params.name ∷ []) in
      elim (ended (preset_pkg s params h)) [
        | returned u g p ↦
            let (made_files, rendered, calls) = preset_pkg-Rendered params dir h g refl p in
            let same : h' ≡ g = ground arith in (made_files, rendered, same ∙ calls)
        | refused x g p ↦ absurd (ground arith)
        | panicked g p ↦ absurd (ground arith)
        | hung g p ↦ absurd (ground arith)
      ]
