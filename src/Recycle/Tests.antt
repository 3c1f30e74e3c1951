-- ===== src/Recycle/Tests.antt =====
-- A removal that always fails.
use yig.Prelude.{ℕ, ◌+◌, ◌≡◌, arith, Bool, true, [], ◌∷◌}
use yig.Storage.{ObjectToRecycle, World}
use yig.Recycle.{remove_failed}
use yig.Recycle.Drain.{remove_failed_empties}

abbrev lost : ObjectToRecycle
lost = record { location = "c1"; pool = "rabbit"; object_id = "x"; tried_times = 0 }

abbrev failing : ObjectToRecycle → ℕ → Bool × ℕ
failing o s = (true, s + 1)

abbrev start : World ℕ
start = record { store = 0; queue = lost ∷ [] }

remove_failed_empties_example : (remove_failed failing 4 start).queue ≡ []
remove_failed_empties_example =
    remove_failed_empties failing 4 start (omega arith, tt) (omega arith)
