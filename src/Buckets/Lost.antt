-- ===== src/Buckets/Lost.antt =====
-- The roll backs of `MakeBucket` and `DeleteBucket`.
use yig.Prelude.{◌≡◌, arith, String, true}
use yig.Types.{Acl, Credential}
use yig.Storage.{Error, ok, err, World, Backend}
use yig.Meta.{add_bucket_for_user}
use yig.Versions.{clock}
use yig.Buckets.{make_bucket, own_bucket, fresh_bucket}

-- `MakeBucket` reports success for a bucket that it has just removed again: the bucket could not be
-- added to the user, and its row was deleted without an error.
pub make_bucket_lost :
    {S : Type 0} (b : Backend S) (name : String) (acl : Acl) (credential : Credential) (e : Error)
    (w v u : World S) (s : S)
    → b.client_check_and_put_bucket
        (fresh_bucket name acl credential (b.now w.store).0)
        (b.now w.store).1
      ≡ (ok true, v.store)
    → v.queue ≡ w.queue
    → add_bucket_for_user b name credential.user_id v ≡ (err e, u)
    → b.client_delete_bucket (fresh_bucket name acl credential (b.now w.store).0) u.store
      ≡ (ok tt, s)
    → (make_bucket b name acl credential w).0 ≡ ok tt
unfolding make_bucket own_bucket clock
make_bucket_lost b name acl credential e w v u s put same add del = ground arith
