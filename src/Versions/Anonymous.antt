-- ===== src/Versions/Anonymous.antt =====
-- The test with which `DeleteObject` begins.
use yig.Prelude.{◌≡◌, arith, String, true, str_eq}
use yig.Types.{Credential, Bucket}
use yig.Storage.{ok, World, Backend}
use yig.Meta.{get_bucket}
use yig.Access.{may_delete}
use yig.Versions.Delete.{delete_object}

may_delete_anonymous :
    (bucket : Bucket) (c : Credential) → str_eq c.user_id "" ≡ true → may_delete bucket c ≡ true
unfolding may_delete
may_delete_anonymous bucket c h = ground arith

may_delete_owner :
    (bucket : Bucket) (c : Credential)
    → str_eq bucket.owner_id c.user_id ≡ true
    → may_delete bucket c ≡ true
unfolding may_delete
may_delete_owner bucket c h = ground arith

-- A request without a user deletes whatever the owner of the bucket can delete, with the same
-- answer and the same effects, whatever the ACL of the bucket.
pub delete_object_anonymous :
    {S : Type 0} (b : Backend S) (bucket_name name version : String) (nobody owner : Credential)
    (bucket : Bucket) (w v : World S)
    → str_eq nobody.user_id "" ≡ true
    → get_bucket b bucket_name true w ≡ (ok bucket, v)
    → str_eq bucket.owner_id owner.user_id ≡ true
    → delete_object b bucket_name name version nobody w
      ≡ delete_object b bucket_name name version owner w
unfolding delete_object
delete_object_anonymous b bucket_name name version nobody owner bucket w v anonymous found owns =
    ground (arith, may_delete_anonymous bucket nobody anonymous, may_delete_owner bucket owner owns)
