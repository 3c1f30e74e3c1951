-- ===== src/Versions/Delete.antt =====
-- Deletion (storage/object.go): `removeObjectVersion`, `addDeleteMarker`, `DeleteObject`.
use yig.Prelude.{ℕ, String, Bool, true, false, ◌&&◌, not, none, some, str_eq, if◌then◌else◌, concat}
use yig.Types.{Credential, Object, ObjMap, Bucket}
use yig.Storage.{
  no_such_version, internal_error, bucket_access_forbidden, ok, err, panicked, Action, pure, raise,
  panic, ◌>>=◌, ◌>>◌, call, do_call, caught, raise_if, return_of, object_table, Backend,
}
use yig.Meta.{get_bucket, object_key}
use yig.Access.{may_delete}
use yig.Versions.{
  zero_object, get_version_id, with_version_id, clock, remove_by_object, get_obj_with_version,
  if_it_exists, remove_all_objects_entry_by_name,
}

pub record DeleteObjectResult : Type 0 where
  pub delete_marker : Bool
  pub version_id : String

module _ {S : Type 0} (b : Backend S) where
  abbrev null_map : String → String → ObjMap
  null_map bucket name = record {
    name = name;
    bucket_name = bucket;
    null_ver_num = 0;
    null_ver_id = "";
  }

  -- `removeObjectVersion`
  unfoldable pub remove_object_version : String → String → String → Action S (Unit {0})
  remove_object_version bucket name version =
      if_it_exists b (get_obj_with_version b bucket name version) >>= λ found. elim found [
        | none ↦ pure tt
        | some o ↦
            remove_by_object b o
            >> (if str_eq version "null"
                then call (b.client_delete_object_map (null_map bucket name))
                else pure tt)
      ]

  abbrev marker : Bucket → String → Bool → ℕ → Object
  marker bucket name null_version now = with_version_id b (record zero_object {
    name = name;
    bucket_name = bucket.name;
    owner_id = bucket.owner_id;
    last_modified_time = now;
    null_version = null_version;
    delete_marker = true;
  })

  -- `addDeleteMarker`. For a null version, the error of the first put gives way to the answer of
  -- the second; an error of the roll back is dropped.
  unfoldable pub add_delete_marker : Bucket → String → Bool → Action S String
  add_delete_marker bucket name null_version = clock b >>= λ now.
      let m = marker bucket name null_version now in
      caught (call (b.client_put_object m)) >>= λ put.
      if null_version
      then (caught (
            call
              (b.client_put_object_map (record (null_map bucket.name name) { null_ver_num = now })))
          >>= λ r. elim r [
            | ok _ ↦ pure (get_version_id b m)
            | err e ↦ caught (call (b.client_delete_object m)) >> raise e
            | panicked ↦ panic
          ])
      else return_of put >> pure (get_version_id b m)

  abbrev forget_version : String → Bool → Action S (Unit {0})
  forget_version key no_version =
      if no_version
      then pure tt
      else do_call (b.cache_remove object_table key) >> do_call (b.data_cache_remove key)

  -- the end of `DeleteObject`: the entries of the caches are dropped
  unfoldable pub forget_entries : String → String → String → Action S (Unit {0})
  forget_entries bucket name version = do
    do_call (b.cache_remove object_table (object_key bucket name))
    do_call (b.data_cache_remove (object_key bucket name))
    do_call (b.data_cache_remove (concat (object_key bucket name) "null"))
    forget_version (concat (object_key bucket name) version) (str_eq version "")

  abbrev with_marker : Action S String → Action S DeleteObjectResult
  with_marker m = m >>= λ id. pure (record { delete_marker = true; version_id = id })

  abbrev without_marker : Action S (Unit {0}) → String → Action S DeleteObjectResult
  without_marker m version = m >> pure (record { delete_marker = false; version_id = version })

  -- the `switch bucket.Versioning` of `DeleteObject`
  unfoldable pub delete_by_versioning :
      Bucket → String → String → String → Action S DeleteObjectResult
  delete_by_versioning bucket bucket_name name version =
      if str_eq bucket.versioning "Disabled"
      then if not (str_eq version "") && not (str_eq version "null")
        then raise no_such_version
        else without_marker (remove_all_objects_entry_by_name b bucket_name name) ""
      else if str_eq bucket.versioning "Enabled"
      then if str_eq version ""
        then with_marker (add_delete_marker bucket name false)
        else without_marker (remove_object_version bucket_name name version) version
      else if str_eq bucket.versioning "Suspended"
      then if str_eq version ""
        then with_marker
            (remove_object_version bucket_name name "null" >> add_delete_marker bucket name true)
        else without_marker (remove_object_version bucket_name name version) version
      else raise internal_error

  -- `DeleteObject`
  unfoldable pub delete_object : String → String → String → Credential → Action S DeleteObjectResult
  delete_object bucket_name name version credential = do
    bucket ← get_bucket b bucket_name true
    raise_if (not (may_delete bucket credential)) bucket_access_forbidden
    result ← delete_by_versioning bucket bucket_name name version
    forget_entries bucket_name name version
    pure result
