-- ===== src/Index/Tests.antt =====
-- Runs of the two searches, and the theorems at concrete offsets.
use yig.Prelude.{ℕ, zero, suc, ◌≡◌, refl, [], ◌∷◌, arith}
use yig.Index.{
  SimpleIndex, minus_one, at, search_lower_bound, search_upper_bound, lower_loop, upper_loop,
  upper_here, upper_next,
}
use yig.Index.Lower.{Ascending, IsLast, search_lower_bound-IsLast, search_lower_bound_before}

abbrev offsets : SimpleIndex
offsets = record { index = 0 ∷ 1 ∷ 10 ∷ 11 ∷ 40 ∷ 50 ∷ 51 ∷ 90 ∷ [] }

lower_runs :
    (search_lower_bound offsets 56 ≡ at 6)
    × (search_lower_bound offsets 20 ≡ at 3)
    × (search_lower_bound offsets 90 ≡ at 7)
    × (search_lower_bound offsets 100 ≡ at 7)
unfolding search_lower_bound lower_loop
lower_runs = (refl, refl, refl, refl)

upper_runs :
    (search_upper_bound offsets 56 ≡ at 7)
    × (search_upper_bound offsets 20 ≡ at 4)
    × (search_upper_bound offsets 90 ≡ minus_one)
    × (search_upper_bound offsets 39 ≡ at 4)
unfolding search_upper_bound upper_loop upper_here upper_next
upper_runs = (refl, refl, refl, refl)

abbrev two_parts : SimpleIndex
two_parts = record { index = 3 ∷ 8 ∷ [] }

two_parts-Ascending : Ascending two_parts.index
two_parts-Ascending zero zero h k = absurd (omega arith)
two_parts-Ascending zero (suc zero) h k = omega arith
two_parts-Ascending zero (suc (suc j)) h k = absurd (omega arith)
two_parts-Ascending (suc i) zero h k = absurd (omega arith)
two_parts-Ascending (suc i) (suc zero) h k = absurd (omega arith)
two_parts-Ascending (suc i) (suc (suc j)) h k = absurd (omega arith)

search_lower_bound-IsLast_example :
    (i : ℕ) × (search_lower_bound two_parts 5 ≡ at i) × IsLast two_parts.index 5 i
search_lower_bound-IsLast_example =
    search_lower_bound-IsLast two_parts 5 two_parts-Ascending (omega arith) (omega arith)

search_lower_bound_before_run : search_lower_bound two_parts 2 ≡ minus_one
search_lower_bound_before_run = search_lower_bound_before two_parts 2 (omega arith) (omega arith)
