-- ===== src/Put/Rows.antt =====
-- `PutObject` and the objects table, on a bucket without versions.
use yig.Prelude.{◌≡◌, refl, arith, true, str_eq, eq_iff, ℕ}
use yig.Types.{Object, Bucket}
use yig.Storage.{ok, World, Backend}
use yig.Storage.Rows.{Rows}
use yig.Versions.{with_version_id}
use yig.Put.{point_to_null, null_number}

module _ {S : Type 0} (b : Backend S) (t : Rows b) where
  pub null_number_zero :
      (bucket : Bucket) (now : ℕ)
      → str_eq bucket.versioning "Disabled" ≡ true
      → null_number bucket 0 now ≡ 0
  null_number_zero bucket now disabled = rw ((eq_iff bucket.versioning "Disabled").0 disabled) refl

  pub with_version_id_null : (o : Object) → o.null_version ≡ true → with_version_id b o ≡ o
  unfolding with_version_id
  with_version_id_null o h = ground arith

  pub point_to_null_zero :
      (o : Object) (n : ℕ) (w : World S) → n ≡ 0 → point_to_null b o n w ≡ (ok tt, w)
  unfolding point_to_null
  point_to_null_zero o n w h = ground arith
