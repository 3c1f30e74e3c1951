-- ===== src/Versions/Tests.antt =====
-- The theorems on versions and deletion at a concrete back end.
use yig.Prelude.{ℕ, ◌≡◌, refl, [], ◌∷◌, List, false}
use yig.Storage.{ok, World}
use yig.Sample.{row_sample, row_sample-Rows, sample, ann, nobody, bucket_of}
use yig.Types.{Object}
use yig.Versions.Rows.{delete_object-rows}
use yig.Versions.{
  zero_object, remove_all_objects_entry_by_name, remove_each, remove_by_object, collect,
}
use yig.Versions.Delete.{delete_by_versioning, forget_entries, delete_object}
use yig.Versions.Anonymous.{delete_object_anonymous}

abbrev start : World ℕ
start = record { store = 5; queue = [] }

delete_object_anonymous_example :
    delete_object (sample "Disabled" (ok tt)) "b" "o" "" nobody start
    ≡ delete_object (sample "Disabled" (ok tt)) "b" "o" "" ann start
unfolding yig.Meta.get_bucket
delete_object_anonymous_example =
    delete_object_anonymous (sample "Disabled" (ok tt)) "b" "o" "" nobody ann (bucket_of "Disabled")
      start start refl refl refl

abbrev old_rows : World (List Object)
old_rows = record { store = zero_object ∷ zero_object ∷ []; queue = [] }

abbrev no_rows : World (List Object)
no_rows = record { store = []; queue = [] }

delete_object-rows_example : row_sample-Rows.rows no_rows.store "b" "o" ≡ []
unfolding yig.Meta.get_bucket delete_object yig.Access.may_delete delete_by_versioning
    remove_all_objects_entry_by_name remove_each remove_by_object collect forget_entries
delete_object-rows_example =
    delete_object-rows row_sample row_sample-Rows "b" "o" "" ann (bucket_of "Disabled") old_rows
      old_rows no_rows (record { delete_marker = false; version_id = "" }) refl refl refl
