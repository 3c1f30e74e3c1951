-- ===== src/Objects.antt =====
-- Reading and changing the ACL of an object (storage/object.go): `GetObjectInfo`, `GetObjectAcl`,
-- `SetObjectAcl`.
use yig.Prelude.{◌||◌, not, String, Bool, true, false, str_eq, if◌then◌else◌, concat}
use yig.Types.{Acl, Credential, Object, Bucket}
use yig.Storage.{
  access_denied, Outcome, ok, err, panicked, Action, pure, raise, ◌>>=◌, ◌>>◌, call, do_call,
  caught, raise_if, return_of, object_table, Backend,
}
use yig.Meta.{get_bucket, get_latest_object, object_key}
use yig.Versions.{get_obj_with_version}
use yig.Acl.{AccessControlPolicy, get_canned_acl_from_policy, create_policy_from_canned}

-- the ACL that is given, or that of the policy
unfoldable pub acl_of_request : AccessControlPolicy → Acl → Outcome Acl
acl_of_request policy acl =
    if str_eq acl.canned_acl "" then get_canned_acl_from_policy policy else ok acl

module _ {S : Type 0} (b : Backend S) where
  -- the latest object, or the version asked for
  unfoldable pub find_object : String → String → String → Bool → Action S Object
  find_object bucket_name name version will_need =
      if str_eq version ""
      then get_latest_object b bucket_name name will_need
      else get_obj_with_version b bucket_name name version

  -- the owner of the bucket, who reads it again; any error of that is ErrAccessDenied
  unfoldable pub bucket_owner_only : String → Credential → Action S (Unit {0})
  bucket_owner_only bucket_name credential = caught (get_bucket b bucket_name true) >>= λ r.
      elim r [
        | ok bucket ↦ raise_if (not (str_eq bucket.owner_id credential.user_id)) access_denied
        | err _ ↦ raise access_denied
        | panicked ↦ return_of panicked
      ]

  -- the `switch` of `GetObjectInfo` on the ACL
  unfoldable pub check_read : Object → String → Credential → Action S (Unit {0})
  check_read o bucket_name credential =
      if str_eq o.acl.canned_acl "public-read" || str_eq o.acl.canned_acl "public-read-write"
      then pure tt
      else if str_eq o.acl.canned_acl "authenticated-read"
      then raise_if (str_eq credential.user_id "") access_denied
      else if str_eq o.acl.canned_acl "bucket-owner-read"
          || str_eq o.acl.canned_acl "bucket-owner-full-control"
      then bucket_owner_only bucket_name credential
      else raise_if (not (str_eq o.owner_id credential.user_id)) access_denied

  -- `GetObjectInfo`
  unfoldable pub get_object_info : String → String → String → Credential → Action S Object
  get_object_info bucket_name name version credential = do
    bucket ← get_bucket b bucket_name true
    o ← find_object bucket_name name version true
    check_read o bucket_name credential
    pure o

  abbrev acl_reader : Bucket → Object → String
  acl_reader bucket o =
      if str_eq o.acl.canned_acl "bucket-owner-full-control" then bucket.owner_id else o.owner_id

  -- `GetObjectAcl`
  unfoldable pub get_object_acl :
      String → String → String → Credential → Action S AccessControlPolicy
  get_object_acl bucket_name name version credential = do
    bucket ← get_bucket b bucket_name true
    o ← find_object bucket_name name version true
    raise_if (not (str_eq (acl_reader bucket o) credential.user_id)) access_denied
    owner ← call (b.credential_by_user_id bucket.owner_id)
    return_of (
        create_policy_from_canned
          (record { id = credential.user_id; display_name = credential.display_name })
          (record { id = owner.user_id; display_name = owner.display_name }) o.acl)

  -- `SetObjectAcl`: both branches of its `switch` ask for the owner of the bucket
  unfoldable pub set_object_acl :
      String → String → String → AccessControlPolicy → Acl → Credential → Action S (Unit {0})
  set_object_acl bucket_name name version policy acl credential = do
    new_acl ← return_of (acl_of_request policy acl)
    bucket ← get_bucket b bucket_name true
    raise_if (not (str_eq bucket.owner_id credential.user_id)) access_denied
    o ← find_object bucket_name name version false
    call (b.client_put_object (record o { acl = new_acl }))
    do_call (b.cache_remove object_table (concat (object_key bucket_name name) version))
