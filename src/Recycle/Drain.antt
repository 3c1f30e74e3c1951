-- ===== src/Recycle/Drain.antt =====
-- The rounds of the reader of the queue.
use yig.Prelude.{
  ℕ, zero, suc, ◌+◌, ◌-◌, ◌≡◌, ◌≤◌, refl, arith, Bool, List, [], ◌∷◌, ◌++◌, ltb, inl, inr,
  Bool-cases,
}
use yig.Storage.{ObjectToRecycle, World}
use yig.Recycle.{try_again, remove_first, remove_failed, max_try_times}

-- How often the objects of the queue can still be tried.
abbrev pub attempts : List ObjectToRecycle → ℕ
attempts [] = 0
attempts (o ∷ os) = suc max_try_times - o.tried_times + attempts os

-- No object has been tried too often.
abbrev pub IsFresh : List ObjectToRecycle → Type 0
IsFresh [] = Unit
IsFresh (o ∷ os) = (o.tried_times ≤ max_try_times) × IsFresh os

attempts-append :
    (os : List ObjectToRecycle) (o : ObjectToRecycle)
    → attempts (os ++ o ∷ []) ≡ attempts os + (suc max_try_times - o.tried_times)
attempts-append [] o = omega arith
attempts-append (p ∷ os) o = omega (arith, attempts-append os o)

append-IsFresh :
    (os : List ObjectToRecycle) (o : ObjectToRecycle)
    → IsFresh os
    → o.tried_times ≤ max_try_times
    → IsFresh (os ++ o ∷ [])
append-IsFresh [] o f h = (h, tt)
append-IsFresh (p ∷ os) o f h = (f.0, append-IsFresh os o f.1 h)

try_again-IsFresh :
    (o : ObjectToRecycle) (os : List ObjectToRecycle)
    → IsFresh (o ∷ os)
    → IsFresh (try_again o os) × (attempts (try_again o os) + 1 ≤ attempts (o ∷ os))
unfolding try_again
try_again-IsFresh o os f =
    let again : ObjectToRecycle = record o { tried_times = o.tried_times + 1 } in
    elim (Bool-cases (ltb max_try_times (o.tried_times + 1))) [
      | inl spent ↦ rw spent (f.1, ground (arith, spent, f.0))
      | inr left ↦ rw left (
        append-IsFresh os again f.1 (ground (arith, left)),
        ground (arith, left, attempts-append os again),
      )
    ]

module _ {S : Type 0} (remove : ObjectToRecycle → S → Bool × S) where
  round-IsFresh :
      (s : S) (q : List ObjectToRecycle) (rounds : ℕ)
      → IsFresh q
      → attempts q ≤ suc rounds
      → IsFresh (remove_first remove (record { store = s; queue = q })).queue
        × (attempts (remove_first remove (record { store = s; queue = q })).queue ≤ rounds)
  unfolding remove_first
  round-IsFresh s [] rounds f h = (tt, omega arith)
  round-IsFresh s (o ∷ os) rounds f h = elim (Bool-cases (remove o s).0) [
    | inl failed ↦
        let again = try_again-IsFresh o os f in rw failed (again.0, omega (arith, again.1, h))
    | inr removed ↦ rw removed (f.1, omega (arith, f.0, h))
  ]

  -- Where no object has been tried too often, as many rounds as there are attempts left, or more,
  -- empty the queue, whatever removals fail: four for an object that was not tried yet.
  pub remove_failed_empties :
      (rounds : ℕ) (w : World S)
      → IsFresh w.queue
      → attempts w.queue ≤ rounds
      → (remove_failed remove rounds w).queue ≡ []
  unfolding remove_failed
  remove_failed_empties zero w f h = nothing_left w.queue f h
    where
      nothing_left : (q : List ObjectToRecycle) → IsFresh q → attempts q ≤ 0 → q ≡ []
      nothing_left [] f h = refl
      nothing_left (o ∷ os) f h = absurd (omega (arith, f.0, h))
  remove_failed_empties (suc rounds) w f h =
      let next = round-IsFresh w.store w.queue rounds f h in
      remove_failed_empties rounds (remove_first remove w) next.0 next.1
