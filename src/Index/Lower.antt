-- ===== src/Index/Lower.antt =====
-- The result of `SearchLowerBound`.
use yig.Prelude.{
  ℕ, zero, suc, ◌+◌, ◌-◌, ◌/◌, ◌<◌, ◌≤◌, ◌≡◌, List, some, arith, length, get_elem?,
  get_elem?-eq-get_or,
}
use native.Mathlib.Decide.{dec_lt}
use yig.Index.{SimpleIndex, minus_one, at, ◌!◌, lower_loop, search_lower_bound}

-- The offsets rise strictly.
abbrev pub Ascending : List ℕ → Type 0
Ascending a = (i j : ℕ) → i < j → j < length a → a ! i < a ! j

-- `i` is the last position whose offset is at most `key`.
abbrev pub IsLast : List ℕ → ℕ → ℕ → Type 0
IsLast a key i = (i < length a) × (a ! i ≤ key) × ((j : ℕ) → i < j → j < length a → key < a ! j)

-- One round of the loop, by what it sees at `mid`.
abbrev mid : ℕ → ℕ → ℕ
mid low top = (low + top - 1) / 2

module _ (a : List ℕ) (key rounds low top : ℕ) where
  step_stop : top ≤ low → lower_loop (suc rounds) a key low top ≡ at (mid low top)
  unfolding lower_loop
  step_stop h = ground arith

  module _ (more : low < top) (fits : top ≤ length a) where
    cell : get_elem? a (mid low top) ≡ some (a ! mid low top)
    cell = get_elem?-eq-get_or a (mid low top) 0 (omega arith)

    step_hit : a ! mid low top ≡ key → lower_loop (suc rounds) a key low top ≡ at (mid low top)
    unfolding lower_loop
    step_hit e = ground (arith, cell)

    step_left :
        key < a ! mid low top
        → lower_loop (suc rounds) a key low top ≡ lower_loop rounds a key low (mid low top)
    unfolding lower_loop
    step_left h = ground (arith, cell)

    step_right :
        a ! mid low top < key
        → lower_loop (suc rounds) a key low top ≡ lower_loop rounds a key (mid low top + 1) top
    unfolding lower_loop
    step_right h = ground (arith, cell)

module _ (a : List ℕ) (key : ℕ) (sorted : Ascending a) where
  upto : (m : ℕ) → m < length a → a ! m ≤ key → (i : ℕ) → i < m + 1 → a ! i ≤ key
  upto m inside h i q = elim (dec_lt i m) [
    | yes less ↦ omega (arith, sorted i m less inside)
    | no same ↦ let e : i ≡ m = omega arith in rw e h
  ]

  from_on : (m : ℕ) → key < a ! m → (j : ℕ) → m ≤ j → j < length a → key < a ! j
  from_on m h j q k = elim (dec_lt m j) [
    | yes more ↦ omega (arith, sorted m j more k)
    | no same ↦ let e : j ≡ m = omega arith in rw e h
  ]

  hit_IsLast : (m : ℕ) → m < length a → a ! m ≡ key → IsLast a key m
  hit_IsLast m inside e = (inside, omega arith, λ j q k. omega (arith, sorted m j q k))

  not_first : (m : ℕ) → a ! 0 ≤ key → key < a ! m → 0 < m
  not_first zero s h = absurd (omega arith)
  not_first (suc m) s h = omega arith

  -- The loop invariant: everything before `low` is at most the key, everything from `top` on is
  -- above it.
  lower_loop-IsLast :
      (rounds low top : ℕ)
      → a ! 0 ≤ key
      → top ≤ length a
      → 0 < top
      → low ≤ top
      → top < low + rounds
      → ((i : ℕ) → i < low → a ! i ≤ key)
      → ((j : ℕ) → top ≤ j → j < length a → key < a ! j)
      → (i : ℕ) × (lower_loop rounds a key low top ≡ at i) × IsLast a key i
  lower_loop-IsLast zero low top z t p l r below above = absurd (omega arith)
  lower_loop-IsLast (suc rounds) low top z t p l r below above = elim (dec_lt low top) [
    | no done ↦ (
      mid low top,
      step_stop a key rounds low top (omega arith),
      (omega arith, below (mid low top) (omega arith), λ j h k. above j (omega arith) k),
    )
    | yes more ↦
        let inside : mid low top < length a = omega arith in
        elim (dec_lt key (a ! mid low top)) [
          | yes over ↦ rw (step_left a key rounds low top more t over) (
              lower_loop-IsLast rounds low (mid low top) z (omega arith)
                (not_first (mid low top) z over) (omega arith) (omega arith) below
                (from_on (mid low top) over))
          | no under ↦ elim (dec_lt (a ! mid low top) key) [
            | yes less ↦ rw (step_right a key rounds low top more t less) (
                lower_loop-IsLast rounds (mid low top + 1) top z t p (omega arith) (omega arith)
                  (upto (mid low top) inside (omega arith)) above)
            | no same ↦
                let e : a ! mid low top ≡ key = omega arith in
                (
                  mid low top,
                  step_hit a key rounds low top more t e,
                  hit_IsLast (mid low top) inside e,
                )
          ]
        ]
  ]

-- On strictly rising offsets that begin at or below the key, the search ends, reads no cell out of
-- range, and returns the last position whose offset is at most the key.
pub search_lower_bound-IsLast :
    (s : SimpleIndex) (key : ℕ)
    → Ascending s.index
    → 0 < length s.index
    → s.index ! 0 ≤ key
    → (i : ℕ) × (search_lower_bound s key ≡ at i) × IsLast s.index key i
unfolding search_lower_bound
search_lower_bound-IsLast s key sorted some_part starts =
    let found =
      lower_loop-IsLast s.index key sorted (suc (length s.index)) 0 (length s.index) starts
        (omega arith) some_part (omega arith) (omega arith) (λ i h. absurd (omega arith))
        (λ j h k. absurd (omega arith)) in
    (found.0, ground (arith, found.1, get_elem?-eq-get_or s.index 0 0 some_part), found.2)

-- A key below the first offset is answered by -1.
pub search_lower_bound_before :
    (s : SimpleIndex) (key : ℕ)
    → 0 < length s.index
    → key < s.index ! 0
    → search_lower_bound s key ≡ minus_one
unfolding search_lower_bound
search_lower_bound_before s key some_part h =
    ground (arith, get_elem?-eq-get_or s.index 0 0 some_part)
