-- ===== src/Versions/NilMap.antt =====
-- `checkOldObject` behind `GetObjectMap`.
use yig.Prelude.{◌≡◌, ◌⊎◌, arith, String, true, false, str_eq, none, ◌||◌}
use yig.Storage.{ok, panicked, World, Backend}
use yig.Meta.{get_object_map}
use yig.Versions.{check_old_object, check_versioned, settle_map, if_it_exists}

module _ {S : Type 0} (b : Backend S) where
  nil_map :
      (bucket name : String) (w : World S)
      → ((get_object_map b bucket name w).0 ≡ ok none)
        ⊎ ((get_object_map b bucket name w).0 ≡ panicked)
  unfolding get_object_map
  nil_map bucket name w = ground arith

  check_versioned_panics :
      (bucket name versioning : String) (w : World S)
      → (check_versioned b bucket name versioning w).0 ≡ panicked
  unfolding check_versioned if_it_exists settle_map
  check_versioned_panics bucket name versioning w = ground (arith, nil_map bucket name w)

  -- On a bucket whose versioning is enabled or suspended, `checkOldObject` follows a `nil` pointer,
  -- whatever the database holds.
  pub check_old_object_panics :
      (bucket name versioning : String) (w : World S)
      → str_eq versioning "Disabled" ≡ false
      → (str_eq versioning "Enabled" || str_eq versioning "Suspended") ≡ true
      → (check_old_object b bucket name versioning w).0 ≡ panicked
  unfolding check_old_object
  check_old_object_panics bucket name versioning w d v =
      ground (arith, check_versioned_panics bucket name versioning w)
