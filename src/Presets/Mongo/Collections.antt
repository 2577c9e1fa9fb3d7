-- ===== src/Presets/Mongo/Collections.antt =====
-- The collection that a file is inserted into.
use gnomock.Base.{Text, contains_byte, ◌≡◌, false, ◌++◌, ◌∷◌, ap, ◌∙◌}
use gnomock.Base.FilePaths.{
  path_ext-append, trim_suffix-append, trim_suffix, path_ext_of_absent, trim_suffix_nil,
}
use gnomock.Presets.Mongo.{collection_name}

-- The collection of a file with an extension is the name before the last dot, and that of a file
-- without a dot is its whole name.
pub collection_name_lem :
    (stem ext : Text)
    → contains_byte b'.' ext ≡ false
    → contains_byte b'/' ext ≡ false
    → (collection_name (stem ++ b'.' ∷ ext) ≡ stem) × (collection_name ext ≡ ext)
unfolding collection_name
collection_name_lem stem ext h k = (
  ap (trim_suffix (stem ++ b'.' ∷ ext)) (path_ext-append stem ext h k)
      ∙ trim_suffix-append stem (b'.' ∷ ext),
  ap (trim_suffix ext) (path_ext_of_absent ext h) ∙ trim_suffix_nil ext,
)
