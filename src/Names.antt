-- ===== src/Names.antt =====
-- The names of buckets and objects (api/object-utils.go): `isValidBucketName` and
-- `isValidObjectName`. A name is its list of bytes. The regular expression `validBucket` is written
-- out; `utf8.ValidString` with the runes that a `range` over the text gives is a parameter.
pub mod Bucket
pub mod Object
mod Tests
use yig.Prelude.{
  ℕ, zero, suc, ◌+◌, ◌-◌, ◌*◌, ◌^◌, Bool, true, false, ◌&&◌, ◌||◌, not, List, [], ◌∷◌, Option, none,
  some, ltb, leb, ◌==◌, if◌then◌else◌, codes, length,
}
use yig.Prelude.Int.{ℤ, pos, negsuc, ◌+ℤ◌, ◌-ℤ◌, ltb_ℤ}
use yig.Types.{Bytes}

abbrev pub dot : ℕ
dot = b'.'

abbrev pub dash : ℕ
dash = b'-'

abbrev pub is_digit : ℕ → Bool
is_digit c = leb b'0' c && leb c b'9'

-- `[a-z0-9]`
abbrev pub is_alnum : ℕ → Bool
is_alnum c = (leb b'a' c && leb c b'z') || is_digit c

-- `[a-z0-9\.\-]`
abbrev pub is_name_byte : ℕ → Bool
is_name_byte c = is_alnum c || (c == dot || c == dash)

-- `[a-z0-9\.\-]*[a-z0-9]$`
unfoldable pub ends_well : Bytes → Bool
ends_well [] = false
ends_well (c ∷ []) = is_alnum c
ends_well (c ∷ d ∷ s) = is_name_byte c && ends_well (d ∷ s)

-- `validBucket`: behind the first byte stand from 1 to 61 of the bytes and a last one.
unfoldable pub valid_bucket : Bytes → Bool
valid_bucket [] = false
valid_bucket (c ∷ s) = is_alnum c && ends_well s && leb 2 (length s) && leb (length s) 62

-- `strings.Contains(s, "..")`
unfoldable pub has_two_dots : Bytes → Bool
has_two_dots [] = false
has_two_dots (c ∷ []) = false
has_two_dots (c ∷ d ∷ s) = (c == dot && d == dot) || has_two_dots (d ∷ s)

abbrev pub put_first : ℕ → List Bytes → List Bytes
put_first c [] = (c ∷ []) ∷ []
put_first c (w ∷ ws) = (c ∷ w) ∷ ws

-- `strings.Split(s, sep)`, with a separator of one byte
unfoldable pub split : ℕ → Bytes → List Bytes
split sep [] = [] ∷ []
split sep (c ∷ s) = let rest = split sep s in if c == sep then [] ∷ rest else put_first c rest

unfoldable pub digits_value : ℕ → Bytes → Option ℕ
digits_value n [] = some n
digits_value n (c ∷ s) =
    let rest = digits_value (n * 10 + (c - b'0')) s in if is_digit c then rest else none

abbrev one_digit_at_least : Bytes → Option ℕ
one_digit_at_least [] = none
one_digit_at_least (c ∷ s) = digits_value 0 (c ∷ s)

-- the value with its sign, if it fits 64 bits
abbrev signed_value : Bool → Option ℕ → Option ℤ
signed_value negative none = none
signed_value true (some n) = if leb n (2 ^ 63) then some (pos 0 -ℤ pos n) else none
signed_value false (some n) = if ltb n (2 ^ 63) then some (pos n) else none

-- `strconv.Atoi`
unfoldable pub atoi : Bytes → Option ℤ
atoi [] = none
atoi (c ∷ s) =
    if c == dash
    then signed_value true (one_digit_at_least s)
    else if c == b'+'
    then signed_value false (one_digit_at_least s)
    else signed_value false (one_digit_at_least (c ∷ s))

-- the test of the loop over the four labels
unfoldable pub is_octet : Bytes → Bool
is_octet p = elim (atoi p) [
  | none ↦ false
  | some n ↦ not (ltb_ℤ n (pos 0)) && not (ltb_ℤ (pos 255) n)
]

unfoldable pub has_octet : List Bytes → Bool
has_octet [] = false
has_octet (p ∷ ps) = is_octet p || has_octet ps

unfoldable pub is_valid_bucket_name : Bytes → Bool
is_valid_bucket_name name =
    if not (valid_bucket name)
    then false
    else if has_two_dots name
    then false
    else if length (split dot name) == 4
    then not (has_octet (split dot name))
    else true

unfoldable pub is_one_of : Bytes → ℕ → Bool
is_one_of [] c = false
is_one_of (d ∷ ds) c = (c == d) || is_one_of ds c

-- the characters of `strings.ContainsAny`
abbrev pub forbidden : Bytes
forbidden = codes "&$=;:+ ,?\\^`><{}][#%\"'~|"

-- the body of the loop over the runes: whether it goes on
unfoldable pub is_allowed : ℕ → Bool
is_allowed n = if leb n 31 || (leb 127 n && leb n 255) then false else not (is_one_of forbidden n)

-- the loop over the runes
unfoldable pub all_allowed : List ℕ → Bool
all_allowed [] = true
all_allowed (n ∷ ns) = is_allowed n && all_allowed ns

module _ (decode : Bytes → Option (List ℕ)) where
  unfoldable pub is_valid_object_name : Bytes → Bool
  is_valid_object_name name =
      if leb (length name) 0 || ltb 1024 (length name)
      then false
      else (elim (decode name) [ none ↦ false | some runes ↦ all_allowed runes ])
