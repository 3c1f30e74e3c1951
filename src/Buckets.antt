-- ===== src/Buckets.antt =====
-- The methods on buckets (storage/bucket.go).
pub mod Lost
pub mod Guard
mod Tests
use yig.Prelude.{
  ℕ, String, Bool, true, false, ◌||◌, not, List, [], ◌∷◌, str_eq, if◌then◌else◌, length, ◌==◌,
}
use yig.Prelude.Int.{pos}
use yig.Types.{Acl, Credential, Bucket, LcRule, CorsRule}
use yig.Storage.{
  bucket_access_forbidden, bucket_already_exists, bucket_already_owned_by_you, bucket_not_empty,
  no_such_bucket_lc, no_such_bucket_cors, ok, err, panicked, Action, pure, raise, ◌>>=◌, ◌>>◌, call,
  do_call, caught, raise_if, return_of, user_table, bucket_table, Backend,
}
use yig.Meta.{get_bucket, get_user_buckets, add_bucket_for_user}
use yig.Acl.{AccessControlPolicy, create_policy_from_canned, no_owner}
use yig.Objects.{acl_of_request}
use yig.Versions.{clock}

abbrev pub fresh_bucket : String → Acl → Credential → ℕ → Bucket
fresh_bucket name acl credential now = record {
  name = name;
  create_time = now;
  owner_id = credential.user_id;
  cors = [];
  acl = acl;
  lc = [];
  versioning = "Disabled";
  usage = pos 0;
}

module _ {S : Type 0} (b : Backend S) where
  -- why a bucket could not be made
  unfoldable pub refuse_bucket : String → Credential → Action S (Unit {0})
  refuse_bucket name credential = caught (get_bucket b name false) >>= λ r. elim r [
    | ok bucket ↦ raise (
        if str_eq bucket.owner_id credential.user_id
        then bucket_already_owned_by_you
        else bucket_already_exists)
    | err _ ↦ raise bucket_already_exists
    | panicked ↦ return_of panicked
  ]

  -- `AddBucketForUser` with its roll back, whose answer takes the place of the error
  unfoldable pub own_bucket : Bucket → Credential → Action S (Unit {0})
  own_bucket bucket credential =
      caught (add_bucket_for_user b bucket.name credential.user_id) >>= λ r. elim r [
        | ok _ ↦ pure tt
        | err _ ↦ call (b.client_delete_bucket bucket)
        | panicked ↦ return_of panicked
      ]

  -- `MakeBucket`
  unfoldable pub make_bucket : String → Acl → Credential → Action S (Unit {0})
  make_bucket name acl credential = do
    now ← clock b
    processed ← call (b.client_check_and_put_bucket (fresh_bucket name acl credential now))
    if processed
        then own_bucket (fresh_bucket name acl credential now) credential
          >> do_call (b.cache_remove user_table credential.user_id)
        else refuse_bucket name credential

  -- the bucket, if the credential owns it
  unfoldable pub get_own_bucket : String → Bool → Credential → Action S Bucket
  get_own_bucket name will_need credential = do
    bucket ← get_bucket b name will_need
    raise_if (not (str_eq bucket.owner_id credential.user_id)) bucket_access_forbidden
    pure bucket

  -- `Client.PutBucket`, then its entry leaves the cache
  unfoldable pub put_bucket : String → Bucket → Action S (Unit {0})
  put_bucket name bucket =
      call (b.client_put_bucket bucket) >> do_call (b.cache_remove bucket_table name)

  -- `SetBucketAcl`
  unfoldable pub set_bucket_acl :
      String → AccessControlPolicy → Acl → Credential → Action S (Unit {0})
  set_bucket_acl name policy acl credential = do
    new_acl ← return_of (acl_of_request policy acl)
    bucket ← get_own_bucket name false credential
    put_bucket name (record bucket { acl = new_acl })

  -- `SetBucketLc`
  unfoldable pub set_bucket_lc : String → List LcRule → Credential → Action S (Unit {0})
  set_bucket_lc name lc credential = do
    bucket ← get_own_bucket name true credential
    put_bucket name (record bucket { lc = lc })
    call (b.client_put_to_life_cycle bucket.name "Pending")

  -- `GetBucketLc`
  unfoldable pub get_bucket_lc : String → Credential → Action S (List LcRule)
  get_bucket_lc name credential = do
    bucket ← get_own_bucket name true credential
    raise_if (length bucket.lc == 0) no_such_bucket_lc
    pure bucket.lc

  -- `DelBucketLc`
  unfoldable pub del_bucket_lc : String → Credential → Action S (Unit {0})
  del_bucket_lc name credential = do
    bucket ← get_own_bucket name true credential
    put_bucket name (record bucket { lc = [] })
    call (b.client_remove_from_life_cycle (record bucket { lc = [] }))

  -- `SetBucketCors`
  unfoldable pub set_bucket_cors : String → List CorsRule → Credential → Action S (Unit {0})
  set_bucket_cors name cors credential = do
    bucket ← get_own_bucket name false credential
    put_bucket name (record bucket { cors = cors })

  -- `DeleteBucketCors`
  unfoldable pub delete_bucket_cors : String → Credential → Action S (Unit {0})
  delete_bucket_cors name credential = set_bucket_cors name [] credential

  -- `GetBucketCors`
  unfoldable pub get_bucket_cors : String → Credential → Action S (List CorsRule)
  get_bucket_cors name credential = do
    bucket ← get_own_bucket name true credential
    raise_if (length bucket.cors == 0) no_such_bucket_cors
    pure bucket.cors

  -- `SetBucketVersioning`
  unfoldable pub set_bucket_versioning : String → String → Credential → Action S (Unit {0})
  set_bucket_versioning name status credential = do
    bucket ← get_own_bucket name false credential
    put_bucket name (record bucket { versioning = status })

  -- `GetBucketVersioning`
  unfoldable pub get_bucket_versioning : String → Action S String
  get_bucket_versioning name = do
    bucket ← get_bucket b name false
    pure (if str_eq bucket.versioning "Disabled" then "" else bucket.versioning)

  -- `GetBucketAcl`
  unfoldable pub get_bucket_acl : String → Credential → Action S AccessControlPolicy
  get_bucket_acl name credential = do
    bucket ← get_own_bucket name false credential
    return_of (
        create_policy_from_canned
          (record { id = credential.user_id; display_name = credential.display_name }) no_owner
          bucket.acl)

  -- `GetBucketInfo`
  unfoldable pub get_bucket_info : String → Credential → Action S Bucket
  get_bucket_info name credential = do
    bucket ← get_bucket b name true
    raise_if
        (not (
          str_eq bucket.owner_id credential.user_id
          || str_eq bucket.acl.canned_acl "public-read"
          || str_eq bucket.acl.canned_acl "public-read-write"
          || str_eq bucket.acl.canned_acl "authenticated-read"))
        bucket_access_forbidden
    pure bucket

  -- the loop of `ListBuckets`
  unfoldable pub get_buckets : List String → Action S (List Bucket)
  get_buckets [] = pure []
  get_buckets (name ∷ names) = do
    bucket ← get_bucket b name true
    rest ← get_buckets names
    pure (bucket ∷ rest)

  -- `ListBuckets`
  unfoldable pub list_buckets : Credential → Action S (List Bucket)
  list_buckets credential = get_user_buckets b credential.user_id true >>= get_buckets

  -- `RemoveBucketForUser`; if it fails, the bucket is added to the user again
  unfoldable pub disown_bucket : String → Credential → Action S (Unit {0})
  disown_bucket name credential =
      caught (call (b.client_remove_bucket_for_user name credential.user_id)) >>= λ r. elim r [
        | ok _ ↦ pure tt
        | err _ ↦ call (b.client_add_bucket_for_user name credential.user_id)
        | panicked ↦ return_of panicked
      ]

  -- `DeleteBucket`. An error of the life cycle is logged only.
  unfoldable pub delete_bucket : String → Credential → Action S (Unit {0})
  delete_bucket name credential = do
    bucket ← get_own_bucket name false credential
    objs ← call (b.client_list_one_object name)
    raise_if (not (length objs == 0)) bucket_not_empty
    call (b.client_delete_bucket bucket)
    disown_bucket name credential
    do_call (b.cache_remove user_table credential.user_id)
    do_call (b.cache_remove bucket_table name)
    if length bucket.lc == 0
        then pure tt
        else caught (call (b.client_remove_from_life_cycle bucket)) >> pure tt
