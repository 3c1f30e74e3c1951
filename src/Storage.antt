-- ===== src/Storage.antt =====
-- What the storage layer stands on: the errors, a run of a method as state passing with errors and
-- panics, the interfaces that the package calls, and the queue of storage/recycle.go. `S` is all
-- that is behind the interfaces: the database, the caches, the Ceph clusters, the clock.
pub mod Queue
pub mod Leaves
pub mod Rows
pub mod Steps
use yig.Prelude.{ℕ, String, Bool, List, [], ◌∷◌, ◌++◌, Option, if◌then◌else◌}
use yig.Prelude.Int.{ℤ}
use yig.Types.{Bytes, Credential, Part, Object, Multipart, ObjMap, Bucket}

-- Of error/api-errors.go and meta/types/object-errors.go, the values that this layer returns or
-- compares with. Any other error is told apart by a number.
pub data Error : Type 0 where
  access_denied bad_digest bucket_already_exists bucket_already_owned_by_you : Error
  bucket_access_forbidden bucket_not_empty entity_too_large incomplete_body internal_error : Error
  invalid_part invalid_sse_header no_such_bucket_lc no_such_bucket_cors no_such_key : Error
  no_such_version not_implemented too_many_buckets unsupported_acl bad_versioning : Error
  no_such_cluster invalid_continuation_token : Error
  part_too_small : ℕ → ℕ → String → Error
  other : ℕ → Error

pub data Outcome (A : Type 0) : Type 0 where
  ok : A → Outcome A
  err : Error → Outcome A
  panicked : Outcome A

pub record ObjectToRecycle : Type 0 where
  pub location : String
  pub pool : String
  pub object_id : String
  pub tried_times : ℕ

-- `RecycleQueue` is a channel of 100 places; a send to a full channel waits, which is not modelled.
pub record World (S : Type 0) : Type 0 where
  pub store : S
  pub queue : List ObjectToRecycle

abbrev pub Action : Type 0 → Type 0 → Type 0
Action S A = World S → Outcome A × World S

module _ {S : Type 0} where
  abbrev pub pure : {A : Type 0} → A → Action S A
  pure a w = (ok a, w)

  abbrev pub raise : {A : Type 0} → Error → Action S A
  raise e w = (err e, w)

  -- a run-time panic: a `nil` pointer is followed
  abbrev pub panic : {A : Type 0} → Action S A
  panic w = (panicked, w)

  infixl 5 ◌>>=◌ ◌>>◌
  abbrev pub ◌>>=◌ : {A B : Type 0} → Action S A → (A → Action S B) → Action S B
  ◌>>=◌ m f w =
      let (r, w') = m w in
      elim r [ ok a ↦ f a w' | err e ↦ (err e, w') | panicked ↦ (panicked, w') ]

  abbrev pub ◌>>◌ : {A B : Type 0} → Action S A → Action S B → Action S B
  m >> k = m >>= λ _. k

  abbrev pub raise_if : Bool → Error → Action S (Unit {0})
  raise_if test e w = (if test then err e else ok tt, w)

  -- `RecycleQueue <- r`
  abbrev pub recycle : ObjectToRecycle → Action S (Unit {0})
  recycle r w = (ok tt, record w { queue = w.queue ++ r ∷ [] })

  -- `RecycleQueue <- r; return ..., e`
  abbrev pub recycle_and_raise : {A : Type 0} → ObjectToRecycle → Error → Action S A
  recycle_and_raise r e w = (err e, record w { queue = w.queue ++ r ∷ [] })

  -- `if err != nil { RecycleQueue <- r; return }` behind a call
  abbrev pub or_recycle : {A : Type 0} → Action S A → ObjectToRecycle → Action S A
  or_recycle m r w =
      let (x, w') = m w in
      elim x [
        | ok a ↦ (ok a, w')
        | err e ↦ (err e, record w' { queue = w'.queue ++ r ∷ [] })
        | panicked ↦ (panicked, w')
      ]

  -- a call of an interface
  abbrev pub call : {A : Type 0} → (S → Outcome A × S) → Action S A
  call f w = let (r, s) = f w.store in (r, record w { store = s })

  -- a call that returns no error
  abbrev pub do_call : (S → S) → Action S (Unit {0})
  do_call f w = (ok tt, record w { store = f w.store })

  -- an error as a value, for code that looks at it
  abbrev pub caught : {A : Type 0} → Action S A → Action S (Outcome A)
  caught m w =
      let (r, w') = m w in
      elim r [ ok a ↦ (ok (ok a), w') | err e ↦ (ok (err e), w') | panicked ↦ (panicked, w') ]

  -- its opposite: go on with an error that was looked at
  abbrev pub return_of : {A : Type 0} → Outcome A → Action S A
  return_of r w = (r, w)

-- The tables of redis/redis.go whose entries the storage layer drops.
pub data Table : Type 0 where
  user_table bucket_table object_table : Table

-- What the metadata cache holds: an `interface{}`.
pub data Value : Type 0 where
  no_value : Value
  a_bucket : Bucket → Value
  an_object : Object → Value
  bucket_names : List String → Value

-- The body of a request: what its reader gives in all, and for a `SignVerifyReader` what `Verify`
-- answers.
pub record Body : Type 0 where
  pub content : Bytes
  pub signed : Option (Outcome Credential)

pub record Backend (S : Type 0) : Type 0 where
  -- client.Client (meta/client/client.go)
  pub client_get_object : String → String → String → S → Outcome Object × S
  pub client_get_all_object : String → String → S → Outcome (List Object) × S
  pub client_put_object : Object → S → Outcome (Unit {0}) × S
  pub client_delete_object : Object → S → Outcome (Unit {0}) × S
  pub client_get_bucket : String → S → Outcome Bucket × S
  pub client_put_bucket : Bucket → S → Outcome (Unit {0}) × S
  pub client_check_and_put_bucket : Bucket → S → Outcome Bool × S
  pub client_delete_bucket : Bucket → S → Outcome (Unit {0}) × S
  -- `ListObjects(bucket, "", "", "", "", false, 1)`
  pub client_list_one_object : String → S → Outcome (List Object) × S
  pub client_update_usage : String → ℤ → S → S
  pub client_get_multipart : String → String → String → S → Outcome Multipart × S
  pub client_create_multipart : Multipart → S → Outcome (Unit {0}) × S
  pub client_put_object_part : Multipart → Part → S → Outcome (Unit {0}) × S
  pub client_delete_multipart : Multipart → S → Outcome (Unit {0}) × S
  pub client_get_object_map : String → String → S → Outcome ObjMap × S
  pub client_put_object_map : ObjMap → S → Outcome (Unit {0}) × S
  pub client_delete_object_map : ObjMap → S → Outcome (Unit {0}) × S
  pub client_put_to_garbage : Object → S → Outcome (Unit {0}) × S
  pub client_get_user_buckets : String → S → Outcome (List String) × S
  pub client_add_bucket_for_user : String → String → S → Outcome (Unit {0}) × S
  pub client_remove_bucket_for_user : String → String → S → Outcome (Unit {0}) × S
  pub client_put_to_life_cycle : String → String → S → Outcome (Unit {0}) × S
  pub client_remove_from_life_cycle : Bucket → S → Outcome (Unit {0}) × S
  -- meta.MetaCache and storage.DataCache
  pub cache_get : Table → String → (S → Outcome Value × S) → Bool → S → Outcome Value × S
  pub cache_remove : Table → String → S → S
  pub data_cache_remove : String → S → S
  -- the clusters: `yig.DataStorage`, `PickOneClusterAndPool`, `GetUniqUploadName` and `Put`
  pub has_cluster : String → Bool
  pub pick : String → String → ℤ → S → (String × String) × S
  pub upload_name : String → S → String × S
  pub ceph_put : String → String → String → Bytes → S → Outcome ℕ × S
  -- the clock, the random source, and the ciphers and digests of the standard library
  pub now : S → ℕ × S
  pub random_bytes : ℕ → S → Outcome Bytes × S
  pub encrypt : Bytes → Bytes → Bytes → Outcome Bytes
  pub md5_hex : Bytes → String
  pub decode_hex : String → Option Bytes
  -- a number as decimals, through xxtea and hex, and what reads it back
  pub seal_number : ℕ → String
  pub open_number : String → Outcome ℕ
  -- iam.GetCredentialByUserId
  pub credential_by_user_id : String → S → Outcome Credential × S
