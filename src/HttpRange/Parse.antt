-- ===== src/HttpRange/Parse.antt =====
-- What `ParseRequestRange` makes of a text, from its two groups of digits.
use yig.Prelude.{ℕ, ◌≡◌, ◌≤◌, refl, true, [], ◌∷◌, ◌++◌, Option, none, some, arith, ◌↔◌, sym, ◌∙◌}
use yig.Prelude.Int.{pos, ◌≤ℤ◌}
use yig.HttpRange.{
  HttpRange, Parsed, ok, err, resolve, Bytes, parse_request_range, offset_of, or_malformed, ◌>>=◌,
  cut_at, strip_prefix, byte_range_prefix, all_digits, decimal_from, max_int64,
}
use yig.HttpRange.Bounds.{Asked, IsInside, resolve-IsInside, resolve-Asked, resolve_accepts}

-- The offset that a group of digits stands for.
abbrev pub side : Bytes → Option ℕ
side [] = none
side (c ∷ s) = some (decimal_from 0 (c ∷ s))

strip_prefix-append : (p s : Bytes) → strip_prefix p (p ++ s) ≡ some s
unfolding strip_prefix
strip_prefix-append [] s = refl
strip_prefix-append (c ∷ p) s = ground (arith, strip_prefix-append p s)

cut_at-digits :
    (s rest : Bytes) → all_digits s ≡ true → cut_at b'-' (s ++ b'-' ∷ rest) ≡ some (s, rest)
unfolding cut_at all_digits
cut_at-digits [] rest h = refl
cut_at-digits (c ∷ s) rest h = ground (arith, cut_at-digits s rest)

offset_of-digits :
    (s : Bytes) → all_digits s ≡ true → decimal_from 0 s ≤ max_int64 → offset_of s ≡ ok (side s)
unfolding offset_of
offset_of-digits [] d h = refl
offset_of-digits (c ∷ s) d h = ground arith

-- A text `bytes=XS-YS` whose two groups hold digits only (either may be empty), with values that
-- fit 63 bits, is resolved by those values.
pub parse_request_range-resolve :
    (xs ys : Bytes) (size : ℕ)
    → all_digits xs ≡ true
    → all_digits ys ≡ true
    → decimal_from 0 xs ≤ max_int64
    → decimal_from 0 ys ≤ max_int64
    → parse_request_range (byte_range_prefix ++ (xs ++ b'-' ∷ ys)) size
      ≡ resolve (side xs) (side ys) size
unfolding parse_request_range
parse_request_range-resolve xs ys size dx dy hx hy =
    rw (strip_prefix-append byte_range_prefix (xs ++ b'-' ∷ ys)) (
      rw (cut_at-digits xs ys dx) (rw (offset_of-digits xs dx hx) (rw (offset_of-digits ys dy hy))))

-- A step that comes to a value has read something on the way.
step-ok :
    {A B : Type 0} (step : Parsed A) (next : A → Parsed B) {value : B}
    → (step >>= next) ≡ ok value
    → (got : A) × (step ≡ ok got) × (next got ≡ ok value)
step-ok (ok got) next reached = (got, refl, reached)
step-ok (err why) next reached = cc

-- A range that is accepted is the resolution of two offsets that were read.
accepted :
    (range : Bytes) (size : ℕ) {r : HttpRange}
    → parse_request_range range size ≡ ok r
    → (first : Option ℕ) × (last : Option ℕ) × (resolve first last size ≡ ok r)
unfolding parse_request_range
accepted range size h =
    let a = step-ok (or_malformed (strip_prefix byte_range_prefix range)) _ h in
    let b = step-ok (or_malformed (cut_at b'-' a.0)) _ a.2 in
    let c = step-ok (offset_of (b.0).0) _ b.2 in
    let d = step-ok (offset_of (b.0).1) _ c.2 in (c.0, d.0, d.2)

-- Whatever text is accepted: the range begins at 0 or later, ends before the size, has a length of
-- 0 or more, and carries the size.
pub parse_request_range-IsInside :
    (range : Bytes) (size : ℕ) {r : HttpRange}
    → parse_request_range range size ≡ ok r
    → IsInside r size
parse_request_range-IsInside range size h =
    let a = accepted range size h in resolve-IsInside a.0 a.1 size a.2

-- For digit groups that fit 63 bits: if the text is accepted, a byte lies in the range exactly if
-- the text asks for it: from the first number to the second, from the first on, or the last so
-- many.
pub parse_request_range-Asked :
    (xs ys : Bytes) (size i : ℕ) {r : HttpRange}
    → all_digits xs ≡ true
    → all_digits ys ≡ true
    → decimal_from 0 xs ≤ max_int64
    → decimal_from 0 ys ≤ max_int64
    → parse_request_range (byte_range_prefix ++ (xs ++ b'-' ∷ ys)) size ≡ ok r
    → ((r.offset_begin ≤ℤ pos i) × (pos i ≤ℤ r.offset_end)) ↔ Asked (side xs) (side ys) size i
parse_request_range-Asked xs ys size i dx dy hx hy h =
    resolve-Asked (side xs) (side ys) size i
      (sym (parse_request_range-resolve xs ys size dx dy hx hy) ∙ h)

-- A text of two digit groups as above that asks for some byte is accepted.
pub parse_request_range-accepts :
    (xs ys : Bytes) (size i : ℕ)
    → all_digits xs ≡ true
    → all_digits ys ≡ true
    → decimal_from 0 xs ≤ max_int64
    → decimal_from 0 ys ≤ max_int64
    → Asked (side xs) (side ys) size i
    → (r : HttpRange) × (parse_request_range (byte_range_prefix ++ (xs ++ b'-' ∷ ys)) size ≡ ok r)
parse_request_range-accepts xs ys size i dx dy hx hy h =
    let (r, e) = resolve_accepts (side xs) (side ys) size i h in
    (r, parse_request_range-resolve xs ys size dx dy hx hy ∙ e)
