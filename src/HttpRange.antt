-- ===== src/HttpRange.antt =====
-- `ParseRequestRange` and `HttpRange` (api/datatype/httprange.go). A text is its list of bytes.
-- The marker -1 of `offsetBegin` and `offsetEnd` is `none`.
pub mod Bounds
pub mod Parse
mod Tests
use yig.Prelude.{
  ℕ, zero, suc, ◌+◌, ◌-◌, ◌*◌, ◌^◌, Bool, true, false, ◌&&◌, List, [], ◌∷◌, Option, none, some, ltb,
  leb, ◌==◌, if◌then◌else◌, codes,
}
use yig.Prelude.Int.{ℤ, pos, negsuc, ◌+ℤ◌, ◌-ℤ◌}

abbrev pub Bytes : Type 0
Bytes = List ℕ

pub record HttpRange : Type 0 where
  pub offset_begin : ℤ
  pub offset_end : ℤ
  pub resource_size : ℤ

-- `fmt.Errorf(...)` is `malformed`, `ErrorInvalidRange` is `invalid`.
pub data RangeError : Type 0 where
  malformed invalid : RangeError

pub data Parsed (A : Type 0) : Type 0 where
  ok : A → Parsed A
  err : RangeError → Parsed A

unfoldable pub get_length : HttpRange → ℤ
get_length r = pos 1 +ℤ r.offset_end -ℤ r.offset_begin

abbrev pub byte_range_prefix : Bytes
byte_range_prefix = codes "bytes="

-- `strings.HasPrefix` with `strings.TrimPrefix`: what follows the prefix.
unfoldable pub strip_prefix : Bytes → Bytes → Option Bytes
strip_prefix [] s = some s
strip_prefix (p ∷ ps) [] = none
strip_prefix (p ∷ ps) (c ∷ s) = if p == c then strip_prefix ps s else none

-- `strings.Index(s, "-")` with the two slices round it.
unfoldable pub cut_at : ℕ → Bytes → Option (Bytes × Bytes)
cut_at sep [] = none
cut_at sep (c ∷ s) =
    if c == sep
    then some ([], s)
    else (elim (cut_at sep s) [ none ↦ none | some (a, b) ↦ some (c ∷ a, b) ])

abbrev pub is_digit : ℕ → Bool
is_digit c = leb b'0' c && leb c b'9'

-- the regular expression `^[0-9]+$`, on a text that is not empty
pub all_digits : Bytes → Bool
all_digits [] = true
all_digits (c ∷ s) = is_digit c && all_digits s

pub decimal_from : ℕ → Bytes → ℕ
decimal_from n [] = n
decimal_from n (c ∷ s) = decimal_from (n * 10 + (c - b'0')) s

abbrev pub max_int64 : ℕ
max_int64 = 2 ^ 63 - 1

-- `strconv.ParseInt(s, 10, 64)` on digits
pub parse_int : Bytes → Option ℕ
unfolding decimal_from
parse_int s = if leb (decimal_from 0 s) max_int64 then some (decimal_from 0 s) else none

-- One side of the range: an empty text leaves -1.
unfoldable pub offset_of : Bytes → Parsed (Option ℕ)
unfolding all_digits parse_int
offset_of [] = ok none
offset_of (c ∷ s) =
    if all_digits (c ∷ s)
    then (elim (parse_int (c ∷ s)) [ none ↦ err malformed | some n ↦ ok (some n) ])
    else err malformed

-- The part of the function behind the parsing of the two offsets.
unfoldable pub resolve : Option ℕ → Option ℕ → ℕ → Parsed HttpRange
resolve (some first) (some last) size =
    if ltb last first
    then err malformed
    else if leb size first
    then err invalid
    else ok (record {
      offset_begin = pos first;
      offset_end = if leb size last then pos size -ℤ pos 1 else pos last;
      resource_size = pos size;
    })
resolve (some first) none size =
    if leb size first
    then err invalid
    else ok (record {
      offset_begin = pos first;
      offset_end = pos size -ℤ pos 1;
      resource_size = pos size;
    })
resolve none (some last) size =
    if last == 0
    then err invalid
    else ok (record {
      offset_begin = if leb size last then pos 0 else pos (size - last);
      offset_end = pos size -ℤ pos 1;
      resource_size = pos size;
    })
resolve none none size = err malformed

infixl 5 ◌>>=◌
abbrev pub ◌>>=◌ : {A B : Type 0} → Parsed A → (A → Parsed B) → Parsed B
ok a >>= f = f a
err e >>= f = err e

abbrev pub or_malformed : {A : Type 0} → Option A → Parsed A
or_malformed none = err malformed
or_malformed (some a) = ok a

unfoldable pub parse_request_range : Bytes → ℕ → Parsed HttpRange
parse_request_range range size = do
  spec ← or_malformed (strip_prefix byte_range_prefix range)
  ends ← or_malformed (cut_at b'-' spec)
  first ← offset_of ends.0
  last ← offset_of ends.1
  resolve first last size
