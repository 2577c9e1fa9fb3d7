-- ===== src/Generator.antt =====
-- cmd/generator/main.go: the generator of new presets.
pub mod Insertion
pub mod Names
pub mod Files
use gnomock.Engine.Actions.{◌>>=◌, ◌>>◌, M, pure, given, ask, wrapping}
use gnomock.Base.{lower_byte, lit, if◌then◌else◌, Text, List, ◌∷◌, ◌++◌, ℤ, not, map, [], Bool}
use gnomock.Engine.{History, Call, client_call, Reply}
use gnomock.Base.FilePaths.{path_base}
use gnomock.Base.Replace.{replace_all}

abbrev pub registry_placeholder : Text
registry_placeholder = lit "// new presets go here.\n"

abbrev pub start_preset_placeholder : Text
start_preset_placeholder = lit "### /start/preset\n"

abbrev pub request_body_placeholder : Text
request_body_placeholder = lit "### preset-request\n"

abbrev pub readme_placeholder : Text
readme_placeholder = lit "<!-- new presets go here -->\n"

abbrev pub ci_test_placeholder : Text
ci_test_placeholder = lit "### preset tests go here\n"

abbrev pub circleci_jobs_placeholder : Text
circleci_jobs_placeholder = lit "### circleci jobs go here\n"

pub record PresetParams : Type 0 where
  pub name : Text
  pub default_port : ℤ
  pub image : Text
  pub public : Bool

-- The answers of the file system and of text/template. The templates do not change.
pub record Client : Type 0 where
  pub path_join : List Text → Text
  pub makes_dir : Text → History → Reply (Unit {0})
  pub creates : Text → History → Reply (Unit {0})
  pub read_file : Text → History → Reply Text
  pub writes : Text → Text → History → Reply (Unit {0})
  -- a name and the file of a template, with the functions of fMap
  pub parses : Text → Text → Reply (Unit {0})
  pub renders : Text → PresetParams → Reply Text
  -- the encoding of the JSON of gnomockdPkg, which is always the same
  pub version_json : Text

-- strings.ToLower on ASCII texts.
unfoldable pub to_lower : Text → Text
unfolding lower_byte
to_lower s = map lower_byte s

unfoldable pub mkdir_call : Text → Call
mkdir_call dir = client_call (lit "os.MkdirAll") (dir ∷ [])

unfoldable pub create_call : Text → Call
create_call file = client_call (lit "os.Create") (file ∷ [])

unfoldable pub write_call : Text → Text → Call
write_call file text = client_call (lit "os.WriteFile") (file ∷ text ∷ [])

abbrev pub files_of_preset : List Text
files_of_preset = lit "preset.go" ∷ lit "preset_test.go" ∷ lit "options.go" ∷ lit "README.md" ∷ []

module _ (s : Client) where
  unfoldable pub write : Text → Text → M (Unit {0})
  write file text = ask (write_call file text) (s.writes file text)

  -- A template executed into a new file. What an execution that fails has written is not kept; an
  -- error of Close is only logged.
  unfoldable pub render_into : Text → Text → Text → PresetParams → M (Unit {0})
  render_into template_name template file params = do
    wrapping (lit "can't parse template") (given (s.parses template_name template))
    wrapping (lit "can't create new file") (ask (create_call file) (s.creates file))
    text ← wrapping (lit "can't execute template") (given (s.renders template params))
    wrapping (lit "can't execute template") (write file text)

  unfoldable pub preset_file : Text → Text → PresetParams → M (Unit {0})
  preset_file dir file params =
      let template_name = file ++ lit ".template" in
      render_into template_name
        (s.path_join (lit "cmd/generator/templates/preset" ∷ template_name ∷ []))
        (s.path_join (dir ∷ file ∷ [])) params

  unfoldable pub preset_files : Text → List Text → PresetParams → M (Unit {0})
  preset_files dir [] params = pure tt
  preset_files dir (file ∷ files) params =
      wrapping (lit "can't generate preset file") (preset_file dir file params)
      >> preset_files dir files params

  unfoldable pub preset_pkg : PresetParams → M (Unit {0})
  preset_pkg params = do
    let dir = s.path_join (lit "preset" ∷ to_lower params.name ∷ [])
    wrapping (lit "can't create preset folder") (ask (mkdir_call dir) (s.makes_dir dir))
    preset_files dir files_of_preset params

  unfoldable pub gnomockd_pkg : PresetParams → M (Unit {0})
  gnomockd_pkg params = do
    let gnomockd_path = s.path_join (lit "internal" ∷ lit "gnomockd" ∷ [])
    let testdata_path = s.path_join (gnomockd_path ∷ lit "testdata" ∷ [])
    let dir = s.path_join (testdata_path ∷ to_lower params.name ∷ [])
    let preset_file_name = s.path_join (testdata_path ∷ (to_lower params.name ++ lit ".json") ∷ [])
    wrapping (lit "can't create testdata dir") (ask (mkdir_call dir) (s.makes_dir dir))
    wrapping (lit "can't create preset file")
        (ask (create_call preset_file_name) (s.creates preset_file_name))
    wrapping (lit "can't write into preset file") (write preset_file_name s.version_json)
    render_into (lit "preset_test.go.template")
        (lit "cmd/generator/templates/gnomockd/preset_test.go.template")
        (s.path_join (gnomockd_path ∷ (to_lower params.name ++ lit "_test.go") ∷ [])) params

  unfoldable pub replace_placeholder : Text → Text → Text → PresetParams → M (Unit {0})
  replace_placeholder target template placeholder params = do
    text ← wrapping (lit "can't read " ++ target) (λ h. given (s.read_file target h) h)
    wrapping (lit "can't read " ++ path_base template)
        (given (s.parses (path_base template) template))
    rendered ← wrapping (lit "can't execute template") (given (s.renders template params))
    wrapping (lit "can't write " ++ target) (write target (replace_all text placeholder rendered))

  unfoldable pub registry : PresetParams → M (Unit {0})
  registry params = wrapping (lit "can't generate registry code") (
      replace_placeholder (s.path_join (lit "cmd" ∷ lit "server" ∷ lit "presets.go" ∷ []))
        (lit "cmd/generator/templates/cmd/server/presets.go.template") registry_placeholder params)

  unfoldable pub swagger : PresetParams → M (Unit {0})
  swagger params = do
    let swagger_file = s.path_join (lit "swagger" ∷ lit "swagger.yaml" ∷ [])
    wrapping (lit "can't generate swagger spec") (
        replace_placeholder swagger_file (lit "cmd/generator/swagger/start.template")
          start_preset_placeholder params)
    wrapping (lit "can't generate swagger spec") (
        replace_placeholder swagger_file (lit "cmd/generator/swagger/body.template")
          request_body_placeholder params)

  unfoldable pub readme : PresetParams → M (Unit {0})
  readme params =
      replace_placeholder (lit "README.md") (lit "cmd/generator/templates/README.md.template")
        readme_placeholder params

  unfoldable pub github : PresetParams → M (Unit {0})
  github params =
      replace_placeholder (s.path_join (lit ".github" ∷ lit "workflows" ∷ lit "test.yaml" ∷ []))
        (lit "cmd/generator/templates/.github/workflows/test.yaml.template") ci_test_placeholder
        params

  unfoldable pub circleci : PresetParams → M (Unit {0})
  circleci params = do
    let circleci_path = s.path_join (lit ".circleci" ∷ lit "config.yml" ∷ [])
    wrapping (lit "can't create circleci job") (
        replace_placeholder circleci_path
          (lit "cmd/generator/templates/.circleci/config.yml.template") ci_test_placeholder params)
    wrapping (lit "can't add circleci job to config.yml") (
        replace_placeholder circleci_path (lit "cmd/generator/templates/.circleci/jobs.template")
          circleci_jobs_placeholder params)

  -- generate, after the flags.
  unfoldable pub generate : PresetParams → M (Unit {0})
  generate params = do
    preset_pkg params
    if not params.public then pure tt else do
      gnomockd_pkg params
      registry params
      swagger params
      readme params
      github params
      circleci params
