-- ===== src/Api/CopySource.antt =====
-- The names in the header X-Amz-Copy-Source, as `CopyObjectHandler` and `CopyObjectPartHandler` read
-- them (api/object-handlers.go). `url.QueryUnescape` is a parameter.
pub mod Written
use Prim.Native.Char.{code as rune}
use Prim.Native.String
use yig.Prelude.{ℕ, String, Bool, Option, none, some, str_eq, if◌then◌else◌, ◌==◌}
use yig.Errors
use yig.Api.{get, Request, code}
use yig.Api.Sse.{Checked, fine, wrong, ◌>>=◌, pure}

-- `strings.SplitN(s, sep, 2)`, where it gives two texts
unfoldable pub split_text : ℕ → String → Option (String × String)
split_text sep String.[] = none
split_text sep (String.◌∷◌ c s) =
    if rune c == sep
    then some ("", s)
    else (elim (split_text sep s) [ none ↦ none | some (a, b) ↦ some (String.◌∷◌ c a, b) ])

-- `strings.TrimPrefix(s, prefix)`, where `strings.HasPrefix(s, prefix)`
unfoldable pub strip_text : String → String → Option String
strip_text String.[] s = some s
strip_text (String.◌∷◌ p ps) String.[] = none
strip_text (String.◌∷◌ p ps) (String.◌∷◌ c s) = if rune p == rune c then strip_text ps s else none

pub record CopySource : Type 0 where
  pub bucket : String
  pub object : String
  pub version : String

abbrev pub or_text : Option String → String → String
or_text none s = s
or_text (some rest) s = rest

-- the header without a slash in front
abbrev pub copy_source_text : Request → String
copy_source_text r =
    or_text (strip_text "/" (get r.header "X-Amz-Copy-Source")) (get r.header "X-Amz-Copy-Source")

abbrev invalid_source : {A : Type 0} → Checked A
invalid_source = wrong (code Errors.invalid_copy_source)

-- bucket and object, which is not empty
abbrev pub source_names : Option (String × String) → Checked (String × String)
source_names none = invalid_source
source_names (some (bucket, object)) =
    if str_eq object "" then invalid_source else fine (bucket, object)

-- object and version
abbrev pub source_version : String → Option (String × String) → Checked (String × String)
source_version object none = fine (object, "")
source_version object (some (name, rest)) = elim (strip_text "versionId=" rest) [
  | none ↦ invalid_source
  | some version ↦ fine (name, version)
]

abbrev pub unescaped : Option String → Checked String
unescaped none = invalid_source
unescaped (some s) = fine s

-- the names in the header of a copy; `unescape` is `url.QueryUnescape`
unfoldable pub parse_copy_source : (String → Option String) → String → Checked CopySource
unfolding split_text strip_text
parse_copy_source unescape text = do
  names ← source_names (split_text b'/' text)
  object ← source_version names.1 (split_text b'?' names.1)
  bucket_name ← unescaped (unescape names.0)
  object_name ← unescaped (unescape object.0)
  pure (record { bucket = bucket_name; object = object_name; version = object.1 })
