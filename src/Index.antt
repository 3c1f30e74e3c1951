-- ===== src/Index.antt =====
-- `SimpleIndex` (meta/types/simpleindex.go): the offsets of an object's parts, and the two binary
-- searches over them. Offsets are never negative, so they are naturals. The loop variable `high`
-- is kept as its successor `top`, since it may fall to -1: `low <= high` is `low < top`,
-- `(low + high) / 2` is `(low + top - 1) / 2`, and `high = mid - 1` is `top = mid`.
pub mod Lower
mod Tests
use yig.Prelude.{
  ℕ, zero, suc, ◌+◌, ◌-◌, ◌/◌, ◌<◌, ◌≤◌, Bool, true, false, ◌&&◌, List, Option, none, some, length,
  get_elem?, get_or, ltb, leb, ◌==◌, if◌then◌else◌,
}

pub record SimpleIndex : Type 0 where
  pub index : List ℕ

-- What a search returns: a position, or -1; `fault` is a run-time panic (an index out of range).
pub data Found : Type 0 where
  fault minus_one : Found
  at : ℕ → Found

infix 60 ◌!◌
abbrev pub ◌!◌ : List ℕ → ℕ → ℕ
a ! i = get_or a i 0

-- The `for low <= high` loop, with the rounds that are left.
unfoldable pub lower_loop : ℕ → List ℕ → ℕ → ℕ → ℕ → Found
lower_loop zero a key low top = fault
lower_loop (suc rounds) a key low top =
    let mid = (low + top - 1) / 2 in
    elim (ltb low top) [
      | false ↦ at mid
      | true ↦ elim (get_elem? a mid) [
        | none ↦ fault
        | some v ↦ elim (v == key) [
          | true ↦ at mid
          | false ↦ elim (ltb key v) [
            | true ↦ lower_loop rounds a key low mid
            | false ↦ lower_loop rounds a key (mid + 1) top
          ]
        ]
      ]
    ]

unfoldable pub search_lower_bound : SimpleIndex → ℕ → Found
unfolding lower_loop
search_lower_bound s key = elim (get_elem? s.index 0) [
  | none ↦ fault
  | some first ↦
      if ltb key first
      then minus_one
      else lower_loop (suc (length s.index)) s.index key 0 (length s.index)
]

-- `mid-1 >= low && key >= array.Index[mid-1]`; the second test is read only if the first holds.
pub upper_here : List ℕ → ℕ → ℕ → ℕ → Bool
upper_here a key low zero = false
upper_here a key low (suc before) = leb low before && leb (a ! before) key

-- `mid+1 <= high && key < array.Index[mid+1]`
pub upper_next : List ℕ → ℕ → ℕ → ℕ → Bool
upper_next a key top mid = ltb (mid + 1) top && ltb key (a ! (mid + 1))

pub upper_loop : ℕ → List ℕ → ℕ → ℕ → ℕ → Found
unfolding upper_here upper_next
upper_loop zero a key low top = fault
upper_loop (suc rounds) a key low top =
    let mid = (low + top - 1) / 2 in
    elim (ltb low top) [
      | false ↦ at mid
      | true ↦ elim (get_elem? a mid) [
        | none ↦ fault
        | some v ↦ elim (ltb key v) [
          | true ↦ elim (upper_here a key low mid) [
            | true ↦ at mid
            | false ↦ upper_loop rounds a key low mid
          ]
          | false ↦ elim (upper_next a key top mid) [
            | true ↦ at (mid + 1)
            | false ↦ upper_loop rounds a key (mid + 1) top
          ]
        ]
      ]
    ]

unfoldable pub search_upper_bound : SimpleIndex → ℕ → Found
unfolding upper_loop
search_upper_bound s key = elim (get_elem? s.index (length s.index - 1)) [
  | none ↦ fault
  | some last ↦
      if leb last key
      then minus_one
      else upper_loop (suc (length s.index)) s.index key 0 (length s.index)
]
