-- ===== src/Storage/Queue.antt =====
-- What a run does to the queue of objects to remove from Ceph.
use yig.Prelude.{
  ◌≡◌, ◌++◌, if◌then◌else◌, true, false, Bool, [], ◌∷◌, ◌∙◌, ap, List, Bool, subst, sym,
}
use yig.Storage.{
  Outcome, ok, err, panicked, ObjectToRecycle, World, Action, ◌>>=◌, caught, or_recycle,
}

module _ {S A : Type 0} where
  -- However the run ends, the queue is as it was.
  abbrev pub IsQuiet : Action S A → Type 0
  IsQuiet m = (w : World S) → (m w).1.queue ≡ w.queue

  -- If it ends in an error, this object is in the queue as well.
  abbrev pub Handed : ObjectToRecycle → World S → Outcome A × World S → Type 0
  Handed r w (ok a, v) = v.queue ≡ w.queue
  Handed r w (err e, v) = v.queue ≡ w.queue ++ r ∷ []
  Handed r w (panicked, v) = v.queue ≡ w.queue

module _ {S A B : Type 0} where
  after_quiet :
      (w : World S) (x : Outcome A × World S) (k : A → Action S B)
      → x.1.queue ≡ w.queue
      → ((a : A) → IsQuiet (k a))
      → (◌>>=◌ (λ _. x) k w).1.queue ≡ w.queue
  after_quiet w (ok a, v) k h hk = hk a v ∙ h
  after_quiet w (err e, v) k h hk = h
  after_quiet w (panicked, v) k h hk = h

  pub >>=-IsQuiet :
      (m : Action S A) (k : A → Action S B)
      → IsQuiet m
      → ((a : A) → IsQuiet (k a))
      → IsQuiet (m >>= k)
  >>=-IsQuiet m k hm hk w = after_quiet w (m w) k (hm w) hk

  after-Handed :
      (r : ObjectToRecycle) (w : World S) (x : Outcome A × World S) (k : A → Action S B)
      → Handed r w x
      → ((a : A) (v : World S) → Handed r v (k a v))
      → Handed r w (◌>>=◌ (λ _. x) k w)
  after-Handed r w (ok a, v) k h hk = moved (k a v) (hk a v)
    where
      moved : (y : Outcome B × World S) → Handed r v y → Handed r w y
      moved (ok c, u) g = g ∙ h
      moved (err e, u) g = g ∙ ap (λ q. q ++ r ∷ []) h
      moved (panicked, u) g = g ∙ h
  after-Handed r w (err e, v) k h hk = h
  after-Handed r w (panicked, v) k h hk = h

  pub >>=-Handed :
      (r : ObjectToRecycle) (m : Action S A) (k : A → Action S B)
      → ((w : World S) → Handed r w (m w))
      → ((a : A) (v : World S) → Handed r v (k a v))
      → (w : World S) → Handed r w ((m >>= k) w)
  >>=-Handed r m k hm hk w = after-Handed r w (m w) k (hm w) hk

module _ {S A : Type 0} where
  caught_quiet :
      (w : World S) (x : Outcome A × World S)
      → x.1.queue ≡ w.queue
      → (caught (λ _. x) w).1.queue ≡ w.queue
  caught_quiet w (ok a, v) h = h
  caught_quiet w (err e, v) h = h
  caught_quiet w (panicked, v) h = h

  pub caught-IsQuiet : (m : Action S A) → IsQuiet m → IsQuiet (caught m)
  caught-IsQuiet m h w = caught_quiet w (m w) (h w)

  or_recycle_quiet :
      (r : ObjectToRecycle) (w : World S) (x : Outcome A × World S)
      → x.1.queue ≡ w.queue
      → Handed r w (or_recycle (λ _. x) r w)
  or_recycle_quiet r w (ok a, v) h = h
  or_recycle_quiet r w (err e, v) h = ap (λ q. q ++ r ∷ []) h
  or_recycle_quiet r w (panicked, v) h = h

  pub or_recycle-Handed :
      (m : Action S A) (r : ObjectToRecycle)
      → IsQuiet m
      → (w : World S) → Handed r w (or_recycle m r w)
  or_recycle-Handed m r h w = or_recycle_quiet r w (m w) (h w)

module _ {S : Type 0} where
  -- As `Handed`, but a run that succeeds adds some objects of its own.
  abbrev pub Ends :
      {A : Type 0} → ObjectToRecycle → List ObjectToRecycle → World S → Outcome A × World S → Type 0
  Ends r extra w (ok a, v) = v.queue ≡ w.queue ++ extra
  Ends r extra w (err e, v) = v.queue ≡ w.queue ++ r ∷ []
  Ends r extra w (panicked, v) = v.queue ≡ w.queue

  after-Ends :
      {A B : Type 0} (r : ObjectToRecycle) (extra : List ObjectToRecycle) (w : World S)
      (x : Outcome A × World S) (k : A → Action S B)
      → Handed r w x
      → ((a : A) (v : World S) → Ends r extra v (k a v))
      → Ends r extra w (◌>>=◌ (λ _. x) k w)
  after-Ends {B = B} r extra w (ok a, v) k h hk = moved (k a v) (hk a v)
    where
      moved : (y : Outcome B × World S) → Ends r extra v y → Ends r extra w y
      moved (ok c, u) g = g ∙ ap (λ q. q ++ extra) h
      moved (err e, u) g = g ∙ ap (λ q. q ++ r ∷ []) h
      moved (panicked, u) g = g ∙ h
  after-Ends r extra w (err e, v) k h hk = h
  after-Ends r extra w (panicked, v) k h hk = h

  pub >>=-Ends :
      {A B : Type 0} (r : ObjectToRecycle) (extra : List ObjectToRecycle) (m : Action S A)
      (k : A → Action S B)
      → ((w : World S) → Handed r w (m w))
      → ((a : A) (v : World S) → Ends r extra v (k a v))
      → (w : World S) → Ends r extra w ((m >>= k) w)
  >>=-Ends r extra m k hm hk w = after-Ends r extra w (m w) k (hm w) hk

  pub if-Ends :
      {A : Type 0} (r : ObjectToRecycle) (extra : List ObjectToRecycle) (t : Bool)
      (m k : Action S A)
      → ((w : World S) → Ends r extra w (m w))
      → ((w : World S) → Ends r extra w (k w))
      → (w : World S) → Ends r extra w ((if t then m else k) w)
  if-Ends r extra true m k hm hk = hm
  if-Ends r extra false m k hm hk = hk

  -- Going on from what a run has come to.
  pub >>=-from :
      {A B : Type 0} (P : Outcome B × World S → Type 0) (m : Action S A) (k : A → Action S B)
      {a : A} {w v : World S}
      → m w ≡ (ok a, v)
      → P (k a v)
      → P ((m >>= k) w)
  >>=-from P m k {w = w} e h = subst (λ x. P (((λ _. x) >>= k) w)) (sym e) h
