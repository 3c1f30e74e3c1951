-- ===== src/Buckets/Guard.antt =====
-- The methods on buckets, called by another than the owner.
use yig.Prelude.{◌≡◌, arith, String, true, false, str_eq, List}
use yig.Types.{Acl, Credential, Bucket, LcRule, CorsRule}
use yig.Storage.{ok, err, World, Backend, bucket_access_forbidden}
use yig.Meta.{get_bucket}
use yig.Acl.{AccessControlPolicy}
use yig.Objects.{acl_of_request}
use yig.Buckets.{
  get_own_bucket, set_bucket_acl, set_bucket_lc, del_bucket_lc, set_bucket_cors, delete_bucket_cors,
  set_bucket_versioning, delete_bucket,
}

module _ {S : Type 0} (b : Backend S) (name : String) (c : Credential) (bucket : Bucket)
    (w v u : World S) (cached : get_bucket b name true w ≡ (ok bucket, v))
    (fresh : get_bucket b name false w ≡ (ok bucket, u))
    (foreign : str_eq bucket.owner_id c.user_id ≡ false) where
  cached_own : get_own_bucket b name true c w ≡ (err bucket_access_forbidden, v)
  unfolding get_own_bucket
  cached_own = ground arith

  fresh_own : get_own_bucket b name false c w ≡ (err bucket_access_forbidden, u)
  unfolding get_own_bucket
  fresh_own = ground arith

  -- For a credential that does not own the bucket, the methods that set or delete its ACL, its
  -- rules, its versioning or the bucket itself end in ErrBucketAccessForbidden, and do nothing but
  -- read the bucket; for the ACL, where the one that is asked for can be stored.
  pub not_owner_changes_nothing :
      (policy : AccessControlPolicy) (acl new_acl : Acl) (lc : List LcRule) (cors : List CorsRule)
      (status : String)
      → acl_of_request policy acl ≡ ok new_acl
      → (set_bucket_acl b name policy acl c w ≡ (err bucket_access_forbidden, u))
        × (set_bucket_lc b name lc c w ≡ (err bucket_access_forbidden, v))
        × (del_bucket_lc b name c w ≡ (err bucket_access_forbidden, v))
        × (set_bucket_cors b name cors c w ≡ (err bucket_access_forbidden, u))
        × (delete_bucket_cors b name c w ≡ (err bucket_access_forbidden, u))
        × (set_bucket_versioning b name status c w ≡ (err bucket_access_forbidden, u))
        × (delete_bucket b name c w ≡ (err bucket_access_forbidden, u))
  unfolding set_bucket_acl set_bucket_lc del_bucket_lc set_bucket_cors delete_bucket_cors
      set_bucket_versioning delete_bucket
  not_owner_changes_nothing policy acl new_acl lc cors status stored = (
    ground (arith, fresh_own),
    ground (arith, cached_own),
    ground (arith, cached_own),
    ground (arith, fresh_own),
    ground (arith, fresh_own),
    ground (arith, fresh_own),
    ground (arith, fresh_own),
  )
