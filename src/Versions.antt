-- ===== src/Versions.antt =====
-- Old versions (storage/object.go): `checkOldObject` and `removeByObject`, and of
-- meta/types/object.go the version id of an object.
pub mod Delete
pub mod Queue
pub mod Rows
pub mod Anonymous
pub mod NilMap
mod Tests
use yig.Prelude.{
  ℕ, String, Bool, true, false, ◌&&◌, ◌||◌, not, List, [], ◌∷◌, Option, none, some, str_eq,
  if◌then◌else◌, concat,
}
use yig.Prelude.Int.{pos, ◌-ℤ◌}
use yig.Types.{Credential, Object, ObjMap, Bucket}
use yig.Storage.{
  Error, no_such_key, no_such_version, internal_error, bucket_access_forbidden, other, ok, err,
  panicked, Action, pure, raise, panic, ◌>>=◌, ◌>>◌, call, do_call, caught, raise_if, return_of,
  object_table, Backend,
}
use yig.Meta.{get_bucket, get_latest_object, get_object_version, get_object_map, object_key}
use yig.Access.{may_delete}

abbrev pub is_no_such_key : Error → Bool
is_no_such_key no_such_key = true
is_no_such_key _ = false

-- An object as the composite literals of Go leave it: every field zero.
abbrev pub zero_object : Object
zero_object = record {
  rowkey = [];
  name = "";
  bucket_name = "";
  location = "";
  pool = "";
  owner_id = "";
  size = 0;
  object_id = "";
  last_modified_time = 0;
  etag = "";
  content_type = "";
  custom_attributes = [];
  parts = [];
  parts_index = record { index = [] };
  acl = record { canned_acl = "" };
  null_version = false;
  delete_marker = false;
  version_id = "";
  sse_type = "";
  encryption_key = [];
  initialization_vector = [];
}

module _ {S : Type 0} (b : Backend S) where
  -- `time.Now()`
  unfoldable pub clock : Action S ℕ
  clock w = let (t, s) = b.now w.store in (ok t, record w { store = s })

  -- `GetVersionId`
  unfoldable pub get_version_id : Object → String
  get_version_id o =
      if o.null_version
      then "null"
      else if str_eq o.version_id ""
      then b.seal_number o.last_modified_time
      else o.version_id

  -- the object behind a call of `GetVersionId`, which keeps the id in it
  unfoldable pub with_version_id : Object → Object
  with_version_id o = if o.null_version then o else record o { version_id = get_version_id o }

  -- `GetVersionNumber`
  unfoldable pub get_version_number : Object → Action S ℕ
  get_version_number o w = (b.open_number o.version_id, w)

  -- `removeByObject` behind the deletion of the entry
  unfoldable pub collect : Object → Action S (Unit {0})
  collect o =
      if o.delete_marker
      then pure tt
      else caught (call (b.client_put_to_garbage o)) >>= λ garbage. elim garbage [
        | ok _ ↦ do_call (b.client_update_usage o.bucket_name (pos 0 -ℤ pos o.size))
        | err _ ↦ call (b.client_put_object o) >> raise internal_error
        | panicked ↦ panic
      ]

  -- `removeByObject`
  unfoldable pub remove_by_object : Object → Action S (Unit {0})
  remove_by_object o = do call (b.client_delete_object o); collect o

  -- `getObjWithVersion`
  unfoldable pub get_obj_with_version : String → String → String → Action S Object
  get_obj_with_version bucket name version =
      if str_eq version "null"
      then (get_object_map b bucket name >>= λ found. elim found [
        | none ↦ panic
        | some obj_map ↦ get_object_version b bucket name obj_map.null_ver_id true
      ])
      else get_object_version b bucket name version true

  -- the loop of `removeAllObjectsEntryByName`
  unfoldable pub remove_each : List Object → Action S (Unit {0})
  remove_each [] = pure tt
  remove_each (o ∷ os) = remove_by_object o >> remove_each os

  unfoldable pub remove_all_objects_entry_by_name : String → String → Action S (Unit {0})
  remove_all_objects_entry_by_name bucket name =
      caught (call (b.client_get_all_object bucket name)) >>= λ objs. elim objs [
        | ok os ↦ remove_each os
        | err e ↦ if is_no_such_key e then pure tt else raise e
        | panicked ↦ panic
      ]

  -- An answer of ErrNoSuchKey is no object.
  unfoldable pub if_it_exists : {A : Type 0} → Action S A → Action S (Option A)
  if_it_exists m = caught m >>= λ r. elim r [
    | ok x ↦ pure (some x)
    | err e ↦ if is_no_such_key e then pure none else raise e
    | panicked ↦ panic
  ]

  -- the end of `checkOldObject`, on what was found
  unfoldable pub settle_old : String → Bool → Option Object → Action S ℕ
  settle_old versioning map_exists none = pure 0
  settle_old versioning map_exists (some o) =
      if str_eq versioning "Enabled"
      then if not map_exists && o.null_version then get_version_number o else pure 0
      else if o.null_version
      then remove_by_object o >> pure 0
      else pure 0

  -- `checkOldObject` of a versioned bucket, on the map that was found; a `nil` map is followed
  unfoldable pub settle_map : String → String → String → Option (Option ObjMap) → Action S ℕ
  settle_map bucket name versioning none =
      if_it_exists (get_latest_object b bucket name false) >>= settle_old versioning false
  settle_map bucket name versioning (some none) = panic
  settle_map bucket name versioning (some (some m)) =
      if_it_exists (get_object_version b bucket name m.null_ver_id false)
      >>= settle_old versioning true

  unfoldable pub check_versioned : String → String → String → Action S ℕ
  check_versioned bucket name versioning =
      if_it_exists (get_object_map b bucket name) >>= settle_map bucket name versioning

  unfoldable pub drop_objects : String → String → Action S ℕ
  drop_objects bucket name = remove_all_objects_entry_by_name bucket name >> pure 0

  -- `checkOldObject`
  unfoldable pub check_old_object : String → String → String → Action S ℕ
  check_old_object bucket name versioning =
      if str_eq versioning "Disabled"
      then drop_objects bucket name
      else if str_eq versioning "Enabled" || str_eq versioning "Suspended"
      then check_versioned bucket name versioning
      else raise (other 0)
