-- ===== src/Api/CopySource/Written.antt =====
-- The header of a copy, read back (api/object-handlers.go).
use Prim.Native.Char.{code as rune, Char}
use Prim.Native.String.append
use yig.Prelude.{
  ℕ, String, Option, none, some, str_eq, concat, ◌≡◌, refl, ◌==◌, true, false, arith, ap,
  Bool-cases, inl, inr, eq_iff, ◌∙◌,
}
use yig.Api.{get, Request}
use yig.Api.Sse.{fine}
use yig.Api.CopySource.{split_text, source_version, strip_text, copy_source_text, parse_copy_source}

-- No character of the text is the one given.
abbrev pub Lacks : ℕ → String → Type 0
Lacks sep String.[] = Unit
Lacks sep (String.◌∷◌ c s) = ((rune c == sep) ≡ false) × Lacks sep s

split_text-Lacks : (sep : ℕ) (s : String) → Lacks sep s → split_text sep s ≡ none
unfolding split_text
split_text-Lacks sep String.[] h = refl
split_text-Lacks sep (String.◌∷◌ c s) h = rw (h.0, split_text-Lacks sep s h.1) refl

split_text-concat :
    (sep : ℕ) (s : String) (c : Char) (t : String)
    → Lacks sep s
    → (rune c == sep) ≡ true
    → split_text sep (concat s (String.◌∷◌ c t)) ≡ some (s, t)
unfolding split_text
split_text-concat sep String.[] c t h e = rw (append.nil (String.◌∷◌ c t), e) refl
split_text-concat sep (String.◌∷◌ d s) c t h e =
    rw (append.cons d s (String.◌∷◌ c t), h.0, split_text-concat sep s c t h.1 e) refl

strip_text-concat : (p s : String) → strip_text p (concat p s) ≡ some s
unfolding strip_text
strip_text-concat String.[] s = rw (append.nil s) refl
strip_text-concat (String.◌∷◌ c p) s =
    rw (append.cons c p s, ==_self (rune c), strip_text-concat p s) refl
  where
    ==_self : (n : ℕ) → (n == n) ≡ true
    ==_self n = ground arith

-- a text of one character in front
one : (c : Char) (t : String) → concat (String.◌∷◌ c "") t ≡ String.◌∷◌ c t
one c t = append.cons c "" t ∙ ap (λ s. String.◌∷◌ c s) (append.nil t)

cons_ne_empty : (c : Char) (s : String) → str_eq (String.◌∷◌ c s) "" ≡ false
cons_ne_empty c s = elim (Bool-cases (str_eq (String.◌∷◌ c s) "")) [
  | inl e ↦ cc ((eq_iff (String.◌∷◌ c s) "").0 e)
  | inr e ↦ e
]

concat_ne_empty : (s t : String) → str_eq t "" ≡ false → str_eq (concat s t) "" ≡ false
concat_ne_empty String.[] t h = rw (append.nil t) h
concat_ne_empty (String.◌∷◌ c s) t h = rw (append.cons c s t) (cons_ne_empty c (concat s t))

abbrev pub with_version : String → Option String → String
with_version object none = object
with_version object (some version) = concat object (concat "?versionId=" version)

abbrev pub version_or_empty : Option String → String
version_or_empty none = ""
version_or_empty (some version) = version

module _ (unescape : String → Option String) (r : Request)
    (bucket object bucket_name object_name : String) (bucket_fits : Lacks b'/' bucket)
    (object_fits : Lacks b'?' object) (is_bucket : unescape bucket ≡ some bucket_name)
    (is_object : unescape object ≡ some object_name) where
  parse_copy_source-source_version :
      (version : String)
      → get r.header "X-Amz-Copy-Source"
        ≡ concat "/" (concat bucket (concat "/" (concat object (concat "?versionId=" version))))
      → parse_copy_source unescape (copy_source_text r)
        ≡ fine (record { bucket = bucket_name; object = object_name; version = version })
  unfolding parse_copy_source
  parse_copy_source-source_version version h =
      let query = concat "versionId=" version in
      let tail = concat object (concat "?versionId=" version) in
      rw
        (
          h,
          strip_text-concat "/" (concat bucket (concat "/" tail)),
          one "/" tail,
          split_text-concat b'/' bucket "/" tail bucket_fits refl,
          append.cons "?" "versionId=" version,
          concat_ne_empty object (String.◌∷◌ "?" query) (cons_ne_empty "?" query),
          split_text-concat b'?' object "?" query object_fits refl,
          strip_text-concat "versionId=" version,
          source_version,
          is_bucket,
          is_object,
        )
        refl

  parse_copy_source-plain :
      str_eq object "" ≡ false
      → get r.header "X-Amz-Copy-Source" ≡ concat "/" (concat bucket (concat "/" object))
      → parse_copy_source unescape (copy_source_text r)
        ≡ fine (record { bucket = bucket_name; object = object_name; version = "" })
  unfolding parse_copy_source
  parse_copy_source-plain nonempty h =
      rw
        (
          h,
          strip_text-concat "/" (concat bucket (concat "/" object)),
          one "/" object,
          split_text-concat b'/' bucket "/" object bucket_fits refl,
          nonempty,
          split_text-Lacks b'?' object object_fits,
          is_bucket,
          is_object,
        )
        refl

  -- The header /bucket/object, with ?versionId= and a version or without, gives the names without
  -- their escapes and the version: the bucket has no slash, and the object, which is not empty, no
  -- question mark.
  pub parse_copy_source-written :
      (version : Option String)
      → str_eq object "" ≡ false
      → get r.header "X-Amz-Copy-Source"
        ≡ concat "/" (concat bucket (concat "/" (with_version object version)))
      → parse_copy_source unescape (copy_source_text r)
        ≡ fine (record {
          bucket = bucket_name;
          object = object_name;
          version = version_or_empty version;
        })
  parse_copy_source-written none nonempty h = parse_copy_source-plain nonempty h
  parse_copy_source-written (some version) nonempty h = parse_copy_source-source_version version h
