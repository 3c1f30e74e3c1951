-- ===== src/Names/Object.antt =====
-- Which names of objects pass `isValidObjectName`.
use yig.Prelude.{
  ℕ, ◌≡◌, ◌≢◌, ◌≤◌, ◌↔◌, ◌⊎◌, refl, true, false, List, [], ◌∷◌, Option, some, arith, All, length,
}
use yig.Types.{Bytes}
use yig.Names.{forbidden, is_allowed, is_one_of, all_allowed, is_valid_object_name}

-- A printable rune, or one behind the first 256, that is none of the forbidden.
abbrev pub IsAllowed : ℕ → Type 0
IsAllowed n = (((32 ≤ n) × (n ≤ 126)) ⊎ (256 ≤ n)) × All (λ d. n ≢ d) forbidden

is_one_of-All : (ds : Bytes) (c : ℕ) → (is_one_of ds c ≡ false) ↔ All (λ d. c ≢ d) ds
unfolding is_one_of
is_one_of-All [] c = (λ h. tt, λ h. refl)
is_one_of-All (d ∷ ds) c =
    let rest = is_one_of-All ds c in
    (
      λ h. (ground arith, rest.0 (ground arith)),
      λ h. rw (rest.1 h.1) (let other = h.0 in ground arith),
    )

abbrev IsPrintable : ℕ → Type 0
IsPrintable n = ((32 ≤ n) × (n ≤ 126)) ⊎ (256 ≤ n)

is_allowed-parts :
    (n : ℕ) → (is_allowed n ≡ true) ↔ (IsPrintable n × (is_one_of forbidden n ≡ false))
unfolding is_allowed
is_allowed-parts n =
    (λ h. (ground arith, ground arith), λ h. let p = h.0 in let q = h.1 in ground arith)

is_allowed-IsAllowed : (n : ℕ) → (is_allowed n ≡ true) ↔ IsAllowed n
is_allowed-IsAllowed n =
    let parts = is_allowed-parts n in
    let none_of = is_one_of-All forbidden n in
    (λ h. let p = parts.0 h in (p.0, none_of.0 p.1), λ h. parts.1 (h.0, none_of.1 h.1))

all_allowed-All : (ns : List ℕ) → (all_allowed ns ≡ true) ↔ All IsAllowed ns
unfolding all_allowed
all_allowed-All [] = (λ h. tt, λ h. refl)
all_allowed-All (n ∷ ns) =
    let first = is_allowed-IsAllowed n in
    let rest = all_allowed-All ns in
    (λ h. (first.0 (ground arith), rest.0 (ground arith)), λ h. rw (first.1 h.0, rest.1 h.1) refl)

-- Where the name is a UTF-8 text, it is accepted exactly if it has from 1 to 1024 bytes and each of
-- its runes is printable or behind the first 256, and none of the forbidden.
pub is_valid_object_name-IsAllowed :
    (decode : Bytes → Option (List ℕ)) (name : Bytes) (runes : List ℕ)
    → decode name ≡ some runes
    → (is_valid_object_name decode name ≡ true)
      ↔ ((1 ≤ length name) × (length name ≤ 1024) × All IsAllowed runes)
unfolding is_valid_object_name
is_valid_object_name-IsAllowed decode name runes text =
    let loop = all_allowed-All runes in
    rw text (
      λ h. (ground arith, ground arith, loop.0 (ground arith)),
      λ h. let low = h.0 in let high = h.1 in let all = loop.1 h.2 in ground arith,
    )
