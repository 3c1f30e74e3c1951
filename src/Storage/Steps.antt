-- ===== src/Storage/Steps.antt =====
-- A run that succeeds, taken apart.
use yig.Prelude.{◌≡◌, refl, arith, ◌∙◌}
use yig.Storage.{Outcome, ok, err, panicked, World, Action, ◌>>=◌, or_recycle, ObjectToRecycle}

-- The second of two steps that succeed begins where the first has ended.
pub >>=-ok :
    {S A B : Type 0} (m : Action S A) (k : A → Action S B) {w v : World S} {r : B}
    → (m >>= k) w ≡ (ok r, v)
    → (a : A) × (u : World S) × (m w ≡ (ok a, u)) × (k a u ≡ (ok r, v))
>>=-ok {S} {A} {B} m k {w} {v} {r} h = from (m w) refl h
  where
    from :
        (x : Outcome A × World S)
        → m w ≡ x
        → ((λ _. x) >>= k) w ≡ (ok r, v)
        → (a : A) × (u : World S) × (m w ≡ (ok a, u)) × (k a u ≡ (ok r, v))
    from (ok a, u) e g = (a, u, e, g)
    from (err c, u) e g = absurd (ground arith)
    from (panicked, u) e g = absurd (ground arith)

pub or_recycle-ok :
    {S A : Type 0} (m : Action S A) (place : ObjectToRecycle) {w v : World S} {r : A}
    → or_recycle m place w ≡ (ok r, v)
    → m w ≡ (ok r, v)
or_recycle-ok {S} {A} m place {w} {v} {r} h = from (m w) refl h
  where
    from :
        (x : Outcome A × World S)
        → m w ≡ x
        → or_recycle (λ _. x) place w ≡ (ok r, v)
        → m w ≡ (ok r, v)
    from (ok a, u) e g = e ∙ g
    from (err c, u) e g = absurd (ground arith)
    from (panicked, u) e g = absurd (ground arith)
