-- ===== src/Names/Bucket.antt =====
-- Which names of buckets pass `isValidBucketName`.
use yig.Prelude.{
  ◌≡◌, ◌≤◌, refl, ap, ◌∙◌, true, false, ◌||◌, [], ◌∷◌, ◌++◌, arith, ◌==◌, All, length,
}
use yig.Types.{Bytes}
use yig.Names.{
  dot, split, has_octet, is_octet, is_valid_bucket_name, valid_bucket, ends_well, is_name_byte,
  has_two_dots,
}

-- No byte of the label is a dot.
abbrev pub IsLabel : Bytes → Type 0
IsLabel label = All (λ c. (c == dot) ≡ false) label

split-label : (w s : Bytes) → IsLabel w → split dot (w ++ dot ∷ s) ≡ w ∷ split dot s
unfolding split
split-label [] s h = refl
split-label (c ∷ w) s h = rw (h.0, split-label w s h.1) refl

split-last : (w : Bytes) → IsLabel w → split dot w ≡ w ∷ []
unfolding split
split-last [] h = refl
split-last (c ∷ w) h = rw (h.0, split-last w h.1) refl

split-four :
    (a b c d : Bytes)
    → IsLabel a
    → IsLabel b
    → IsLabel c
    → IsLabel d
    → split dot (a ++ dot ∷ (b ++ dot ∷ (c ++ dot ∷ d))) ≡ a ∷ b ∷ c ∷ d ∷ []
split-four a b c d ha hb hc hd =
    split-label a (b ++ dot ∷ (c ++ dot ∷ d)) ha
    ∙ ap (λ r. a ∷ r)
        (split-label b (c ++ dot ∷ d) hb
          ∙ ap (λ r. b ∷ r) (split-label c d hc ∙ ap (λ r. c ∷ r) (split-last d hd)))

four_labels_refused :
    (name a b c d : Bytes)
    → split dot name ≡ a ∷ b ∷ c ∷ d ∷ []
    → (is_octet a || is_octet b || is_octet c || is_octet d) ≡ true
    → is_valid_bucket_name name ≡ false
unfolding is_valid_bucket_name has_octet
four_labels_refused name a b c d parts h = rw parts (ground arith)

-- A name of four labels is refused as soon as one of them is a number from 0 to 255.
pub is_valid_bucket_name-four :
    (a b c d : Bytes)
    → IsLabel a
    → IsLabel b
    → IsLabel c
    → IsLabel d
    → (is_octet a || is_octet b || is_octet c || is_octet d) ≡ true
    → is_valid_bucket_name (a ++ dot ∷ (b ++ dot ∷ (c ++ dot ∷ d))) ≡ false
is_valid_bucket_name-four a b c d ha hb hc hd h =
    four_labels_refused (a ++ dot ∷ (b ++ dot ∷ (c ++ dot ∷ d))) a b c d
      (split-four a b c d ha hb hc hd) h

-- A name as the documents ask for it: from 3 to 63 bytes, all of them small letters, digits, dots
-- and dashes.
abbrev pub IsPlain : Bytes → Type 0
IsPlain name = (3 ≤ length name) × (length name ≤ 63) × All (λ c. is_name_byte c ≡ true) name

ends_well-All : (s : Bytes) → ends_well s ≡ true → All (λ c. is_name_byte c ≡ true) s
unfolding ends_well
ends_well-All [] h = tt
ends_well-All (c ∷ []) h = (ground arith, tt)
ends_well-All (c ∷ d ∷ s) h = (ground arith, ends_well-All (d ∷ s) (ground arith))

valid_bucket-IsPlain : (name : Bytes) → valid_bucket name ≡ true → IsPlain name
unfolding valid_bucket
valid_bucket-IsPlain [] h = ground arith
valid_bucket-IsPlain (c ∷ s) h =
    (ground arith, ground arith, (ground arith, ends_well-All s (ground arith)))

-- A name that is accepted has from 3 to 63 bytes, which are small letters, digits, dots and dashes,
-- and no two dots stand side by side in it.
pub is_valid_bucket_name-IsPlain :
    (name : Bytes) → is_valid_bucket_name name ≡ true → IsPlain name × (has_two_dots name ≡ false)
unfolding is_valid_bucket_name
is_valid_bucket_name-IsPlain name h = (valid_bucket-IsPlain name (ground arith), ground arith)
