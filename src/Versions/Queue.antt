-- ===== src/Versions/Queue.antt =====
-- `checkOldObject` and what it calls, and the queue of objects to remove.
use yig.Prelude.{refl, arith, String, Bool, List, [], ◌∷◌, Option, none, some, true, false}
use yig.Types.{Object, ObjMap}
use yig.Storage.{Action, Backend, call}
use yig.Storage.Queue.{IsQuiet, >>=-IsQuiet}
use yig.Meta.{get_bucket, get_latest_object, get_object_version, get_object_map}
use yig.Versions.{
  remove_by_object, collect, remove_each, remove_all_objects_entry_by_name, if_it_exists,
  settle_old, check_old_object, get_version_number, settle_map, check_versioned, drop_objects,
}

module _ {S : Type 0} (b : Backend S) where
  pub get_bucket-IsQuiet : (bucket : String) (need : Bool) → IsQuiet (get_bucket b bucket need)
  unfolding get_bucket
  get_bucket-IsQuiet bucket need w = ground arith

  get_latest_object-IsQuiet :
      (bucket name : String) (need : Bool) → IsQuiet (get_latest_object b bucket name need)
  unfolding get_latest_object
  get_latest_object-IsQuiet bucket name need w = ground arith

  get_object_version-IsQuiet :
      (bucket name version : String) (need : Bool)
      → IsQuiet (get_object_version b bucket name version need)
  unfolding get_object_version
  get_object_version-IsQuiet bucket name version need w = ground arith

  get_object_map-IsQuiet : (bucket name : String) → IsQuiet (get_object_map b bucket name)
  unfolding get_object_map
  get_object_map-IsQuiet bucket name w = ground arith

  collect-IsQuiet : (o : Object) → IsQuiet (collect b o)
  unfolding collect
  collect-IsQuiet o w = ground arith

  remove_by_object-IsQuiet : (o : Object) → IsQuiet (remove_by_object b o)
  unfolding remove_by_object
  remove_by_object-IsQuiet o =
      >>=-IsQuiet (call (b.client_delete_object o)) (λ _. collect b o) (λ w. refl)
        (λ _. collect-IsQuiet o)

  remove_each-IsQuiet : (os : List Object) → IsQuiet (remove_each b os)
  unfolding remove_each
  remove_each-IsQuiet [] = λ w. refl
  remove_each-IsQuiet (o ∷ os) =
      >>=-IsQuiet (remove_by_object b o) (λ _. remove_each b os) (remove_by_object-IsQuiet o)
        (λ _. remove_each-IsQuiet os)

  remove_all_objects_entry_by_name-IsQuiet :
      (bucket name : String) → IsQuiet (remove_all_objects_entry_by_name b bucket name)
  unfolding remove_all_objects_entry_by_name
  remove_all_objects_entry_by_name-IsQuiet bucket name w = grind (arith, remove_each-IsQuiet)

  if_it_exists-IsQuiet : {A : Type 0} (m : Action S A) → IsQuiet m → IsQuiet (if_it_exists b m)
  unfolding if_it_exists
  if_it_exists-IsQuiet m h w = ground (arith, h w)

  settle_old-IsQuiet :
      (versioning : String) (exists : Bool) (o : Option Object)
      → IsQuiet (settle_old b versioning exists o)
  unfolding settle_old get_version_number
  settle_old-IsQuiet versioning exists none w = refl
  settle_old-IsQuiet versioning exists (some o) w = ground (arith, remove_by_object-IsQuiet o w)

  settle_map-IsQuiet :
      (bucket name versioning : String) (m : Option (Option ObjMap))
      → IsQuiet (settle_map b bucket name versioning m)
  unfolding settle_map
  settle_map-IsQuiet bucket name versioning none =
      >>=-IsQuiet (if_it_exists b (get_latest_object b bucket name false))
        (settle_old b versioning false)
        (if_it_exists-IsQuiet (get_latest_object b bucket name false)
          (get_latest_object-IsQuiet bucket name false))
        (settle_old-IsQuiet versioning false)
  settle_map-IsQuiet bucket name versioning (some none) = λ w. refl
  settle_map-IsQuiet bucket name versioning (some (some m)) =
      >>=-IsQuiet (if_it_exists b (get_object_version b bucket name m.null_ver_id false))
        (settle_old b versioning true)
        (if_it_exists-IsQuiet (get_object_version b bucket name m.null_ver_id false)
          (get_object_version-IsQuiet bucket name m.null_ver_id false))
        (settle_old-IsQuiet versioning true)

  check_versioned-IsQuiet :
      (bucket name versioning : String) → IsQuiet (check_versioned b bucket name versioning)
  unfolding check_versioned
  check_versioned-IsQuiet bucket name versioning =
      >>=-IsQuiet (if_it_exists b (get_object_map b bucket name))
        (settle_map b bucket name versioning)
        (if_it_exists-IsQuiet (get_object_map b bucket name) (get_object_map-IsQuiet bucket name))
        (settle_map-IsQuiet bucket name versioning)

  drop_objects-IsQuiet : (bucket name : String) → IsQuiet (drop_objects b bucket name)
  unfolding drop_objects
  drop_objects-IsQuiet bucket name w =
      ground (arith, remove_all_objects_entry_by_name-IsQuiet bucket name w)

  pub check_old_object-IsQuiet :
      (bucket name versioning : String) → IsQuiet (check_old_object b bucket name versioning)
  unfolding check_old_object
  check_old_object-IsQuiet bucket name versioning w =
      ground (
        arith,
        drop_objects-IsQuiet bucket name w,
        check_versioned-IsQuiet bucket name versioning w,
      )
