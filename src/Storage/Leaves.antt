-- ===== src/Storage/Leaves.antt =====
-- Runs that hand at most one object to the queue.
use yig.Prelude.{◌≡◌, ◌++◌, ◌⊎◌, inl, inr, ◌∙◌, ap, [], ◌∷◌}
use yig.Storage.{Outcome, ok, err, panicked, World, Action, ◌>>=◌, ObjectToRecycle}
use yig.Storage.Queue.{IsQuiet, Handed}

-- However the run ends, the queue is at most one object longer, and only where it ends in an error.
abbrev pub LeavesOne : {S A : Type 0} → World S → Outcome A × World S → Type 0
LeavesOne w (ok a, v) = v.queue ≡ w.queue
LeavesOne w (err e, v) =
    (v.queue ≡ w.queue) ⊎ ((r : ObjectToRecycle) × (v.queue ≡ w.queue ++ r ∷ []))
LeavesOne w (panicked, v) = v.queue ≡ w.queue

module _ {S A : Type 0} where
  quiet_leaves : (w : World S) (x : Outcome A × World S) → x.1.queue ≡ w.queue → LeavesOne w x
  quiet_leaves w (ok a, v) h = h
  quiet_leaves w (err e, v) h = inl h
  quiet_leaves w (panicked, v) h = h

  pub IsQuiet-LeavesOne : (m : Action S A) → IsQuiet m → (w : World S) → LeavesOne w (m w)
  IsQuiet-LeavesOne m h w = quiet_leaves w (m w) (h w)

  pub Handed-LeavesOne :
      (r : ObjectToRecycle) (w : World S) (x : Outcome A × World S) → Handed r w x → LeavesOne w x
  Handed-LeavesOne r w (ok a, v) h = h
  Handed-LeavesOne r w (err e, v) h = inr (r, h)
  Handed-LeavesOne r w (panicked, v) h = h

  moved :
      (u w : World S) (x : Outcome A × World S) → u.queue ≡ w.queue → LeavesOne u x → LeavesOne w x
  moved u w (ok a, v) h g = g ∙ h
  moved u w (err e, v) h (inl g) = inl (g ∙ h)
  moved u w (err e, v) h (inr (r, g)) = inr (r, g ∙ ap (λ q. q ++ r ∷ []) h)
  moved u w (panicked, v) h g = g ∙ h

module _ {S A B : Type 0} where
  after-LeavesOne :
      (w : World S) (x : Outcome A × World S) (k : A → Action S B)
      → LeavesOne w x
      → ((a : A) (v : World S) → LeavesOne v (k a v))
      → LeavesOne w (◌>>=◌ (λ _. x) k w)
  after-LeavesOne w (ok a, v) k h hk = moved v w (k a v) h (hk a v)
  after-LeavesOne w (err e, v) k h hk = h
  after-LeavesOne w (panicked, v) k h hk = h

  pub >>=-LeavesOne :
      (m : Action S A) (k : A → Action S B)
      → ((w : World S) → LeavesOne w (m w))
      → ((a : A) (v : World S) → LeavesOne v (k a v))
      → (w : World S) → LeavesOne w ((m >>= k) w)
  >>=-LeavesOne m k hm hk w = after-LeavesOne w (m w) k (hm w) hk
