-- ===== src/Meta.antt =====
-- The methods of `meta.Meta` (meta/*.go) that the storage layer calls: each goes through the
-- metadata cache or straight to the client of the database.
use yig.Prelude.{
  ℕ, ◌+◌, String, Bool, false, List, Option, none, str_eq, if◌then◌else◌, concat, length, ltb, true,
}
use yig.Prelude.Int.{ℤ}
use yig.Types.{Object, ObjMap, Bucket}
use yig.Storage.{
  no_such_key, internal_error, too_many_buckets, Outcome, ok, err, panicked, Action, pure, raise,
  ◌>>=◌, ◌>>◌, call, raise_if, user_table, bucket_table, object_table, Value, a_bucket, an_object,
  bucket_names, Backend, do_call,
}

abbrev pub bucket_number_limit : ℕ
bucket_number_limit = 100

-- What a callback of the cache makes of an answer of the client.
abbrev pub answer : {A S : Type 0} → (A → Outcome Value) → Outcome A × S → Outcome Value × S
answer f (ok a, s) = (f a, s)
answer f (err e, s) = (err e, s)
answer f (panicked, s) = (panicked, s)

-- `object.Name != objectName` is ErrNoSuchKey.
abbrev pub named : String → Object → Outcome Value
named name o = if str_eq o.name name then ok (an_object o) else err no_such_key

-- `bucketName + ":" + objectName + ":"`
abbrev pub object_key : String → String → String
object_key bucket name = concat bucket (concat ":" (concat name ":"))

-- The casts of what the cache gives back.
abbrev pub as_bucket : {S : Type 0} → Value → Action S Bucket
as_bucket (a_bucket x) = pure x
as_bucket _ = raise internal_error

abbrev pub as_object : {S : Type 0} → Value → Action S Object
as_object (an_object x) = pure x
as_object _ = raise internal_error

abbrev pub as_names : {S : Type 0} → Value → Action S (List String)
as_names (bucket_names x) = pure x
as_names _ = raise internal_error

module _ {S : Type 0} (b : Backend S) where
  -- `Meta.GetBucket`
  unfoldable pub get_bucket : String → Bool → Action S Bucket
  get_bucket bucket will_need = do
    v ← call (
        b.cache_get bucket_table bucket
          (λ s. answer (λ x. ok (a_bucket x)) (b.client_get_bucket bucket s)) will_need)
    as_bucket v

  -- `Meta.GetObject`
  unfoldable pub get_latest_object : String → String → Bool → Action S Object
  get_latest_object bucket name will_need = do
    v ← call (
        b.cache_get object_table (object_key bucket name)
          (λ s. answer (named name) (b.client_get_object bucket name "" s)) will_need)
    as_object v

  -- `Meta.GetObjectVersion`
  unfoldable pub get_object_version : String → String → String → Bool → Action S Object
  get_object_version bucket name version will_need = do
    v ← call (
        b.cache_get object_table (concat (object_key bucket name) version)
          (λ s. answer (named name) (b.client_get_object bucket name version s)) will_need)
    as_object v

  -- `Meta.GetObjectMap` drops what the client answers: it returns a `nil` map and a `nil` error.
  unfoldable pub get_object_map : String → String → Action S (Option ObjMap)
  get_object_map bucket name w =
      let (r, s) = b.client_get_object_map bucket name w.store in
      elim r [
        | panicked ↦ (panicked, record w { store = s })
        | _ ↦ (ok none, record w { store = s })
      ]

  -- `Meta.GetUserBuckets`
  unfoldable pub get_user_buckets : String → Bool → Action S (List String)
  get_user_buckets user will_need = do
    v ← call (
        b.cache_get user_table user
          (λ s. answer (λ x. ok (bucket_names x)) (b.client_get_user_buckets user s)) will_need)
    as_names v

  -- `Meta.AddBucketForUser`
  unfoldable pub add_bucket_for_user : String → String → Action S (Unit {0})
  add_bucket_for_user bucket user = do
    buckets ← get_user_buckets user false
    raise_if (ltb bucket_number_limit (length buckets + 1)) too_many_buckets
    call (b.client_add_bucket_for_user bucket user)

  -- The methods of the administration read the database anew: the entry of the cache goes first.
  -- `Meta.GetUsage`
  unfoldable pub get_usage : String → Action S ℤ
  get_usage bucket_name = do
    do_call (b.cache_remove bucket_table bucket_name)
    bucket ← get_bucket bucket_name true
    pure bucket.usage

  -- `Meta.GetBucketInfo`
  unfoldable pub meta_get_bucket_info : String → Action S Bucket
  meta_get_bucket_info bucket_name =
      do_call (b.cache_remove bucket_table bucket_name) >> get_bucket bucket_name true

  -- `Meta.GetUserInfo`
  unfoldable pub get_user_info : String → Action S (List String)
  get_user_info uid = do_call (b.cache_remove user_table uid) >> get_user_buckets uid true
