-- ===== src/Recycle.antt =====
-- The reader of the queue of objects to remove (storage/recycle.go): the loop of `removeFailed`.
-- What Ceph makes of a removal is a parameter: whether it fails, and the next state.
pub mod Drain
mod Tests
use yig.Prelude.{
  ℕ, zero, suc, ◌+◌, String, Bool, true, false, List, [], ◌∷◌, ◌++◌, ltb, if◌then◌else◌,
}
use yig.Storage.{ObjectToRecycle, World}

abbrev pub max_try_times : ℕ
max_try_times = 3

-- behind an error of the removal: the object is dropped, or waits again
unfoldable pub try_again : ObjectToRecycle → List ObjectToRecycle → List ObjectToRecycle
try_again o queue =
    if ltb max_try_times (o.tried_times + 1)
    then queue
    else queue ++ record o { tried_times = o.tried_times + 1 } ∷ []

module _ {S : Type 0} (remove : ObjectToRecycle → S → Bool × S) where
  -- one round of the loop
  unfoldable pub remove_first : World S → World S
  remove_first w = elim w.queue [
    | [] ↦ w
    | o ∷ os ↦
        let (failed, s) = remove o w.store in
        record { store = s; queue = if failed then try_again o os else os }
  ]

  -- some rounds, without a send in between
  unfoldable pub remove_failed : ℕ → World S → World S
  remove_failed zero w = w
  remove_failed (suc rounds) w = remove_failed rounds (remove_first w)
