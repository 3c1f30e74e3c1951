-- ===== src/HttpRange/Bounds.antt =====
-- The range that two offsets are resolved to (api/datatype/httprange.go), and the bytes in it.
use yig.Prelude.{if◌then◌else◌, leb, ◌-◌, ℕ, ◌≡◌, ◌≤◌, ◌<◌, ◌+◌, ◌↔◌, Option, none, some, arith}
use yig.Prelude.Int.{pos, ◌+ℤ◌, ◌-ℤ◌, ◌≤ℤ◌}
use yig.HttpRange.{HttpRange, ok, get_length, resolve}

-- The bytes that a pair of offsets asks for.
abbrev pub Asked : Option ℕ → Option ℕ → ℕ → ℕ → Type 0
Asked (some first) (some last) size i = (first ≤ i) × (i ≤ last) × (i < size)
Asked (some first) none size i = (first ≤ i) × (i < size)
Asked none (some last) size i = (size ≤ i + last) × (i < size)
Asked none none size i = ⊥

abbrev pub IsInside : HttpRange → ℕ → Type 0
IsInside r size =
    (pos 0 ≤ℤ r.offset_begin)
    × (r.offset_end +ℤ pos 1 ≤ℤ pos size)
    × (pos 0 ≤ℤ get_length r)
    × (r.resource_size ≡ pos size)

pub resolve-IsInside :
    (first last : Option ℕ) (size : ℕ) {r : HttpRange}
    → resolve first last size ≡ ok r
    → IsInside r size
unfolding resolve get_length ◌+ℤ◌ ◌-ℤ◌
resolve-IsInside (some first) (some last) size h = ground arith
resolve-IsInside (some first) none size h = ground arith
resolve-IsInside none (some last) size h = ground arith
resolve-IsInside none none size h = ground arith

pub resolve-Asked :
    (first last : Option ℕ) (size i : ℕ) {r : HttpRange}
    → resolve first last size ≡ ok r
    → ((r.offset_begin ≤ℤ pos i) × (pos i ≤ℤ r.offset_end)) ↔ Asked first last size i
unfolding resolve ◌-ℤ◌
resolve-Asked (some first) (some last) size i h = (λ p. ground arith, λ q. ground arith)
resolve-Asked (some first) none size i h = (λ p. ground arith, λ q. ground arith)
resolve-Asked none (some last) size i h = (λ p. ground arith, λ q. ground arith)
resolve-Asked none none size i h = (λ p. ground arith, λ q. ground arith)

-- The range that `resolve` makes where it makes one.
abbrev resolved : Option ℕ → Option ℕ → ℕ → HttpRange
resolved first last size = record {
  offset_begin = elim first [
    | some n ↦ pos n
    | none ↦ elim last [ some n ↦ if leb size n then pos 0 else pos (size - n) | none ↦ pos 0 ]
  ];
  offset_end = elim first [
    | some _ ↦ elim last [
      | some n ↦ if leb size n then pos size -ℤ pos 1 else pos n
      | none ↦ pos size -ℤ pos 1
    ]
    | none ↦ pos size -ℤ pos 1
  ];
  resource_size = pos size;
}

-- Offsets that ask for some byte are not refused.
pub resolve_accepts :
    (first last : Option ℕ) (size i : ℕ)
    → Asked first last size i
    → (r : HttpRange) × (resolve first last size ≡ ok r)
unfolding resolve
resolve_accepts (some first) (some last) size i h =
    (resolved (some first) (some last) size, ground arith)
resolve_accepts (some first) none size i h = (resolved (some first) none size, ground arith)
resolve_accepts none (some last) size i h = (resolved none (some last) size, ground arith)
resolve_accepts none none size i h = elim h [ ]
