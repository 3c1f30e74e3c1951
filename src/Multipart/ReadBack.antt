-- ===== src/Multipart/ReadBack.antt =====
-- An upload of one part that is completed and read back.
use yig.Prelude.{ℕ, ◌≡◌, refl, arith, String, true, List, [], ◌∷◌, none, some, take, drop}
use yig.Types.{Bytes, Part, Object, CompletePart}
use yig.Storage.{ok}
use yig.Sample.{part_of, no_sse}
use yig.Ceph.Copy.{Serves}
use yig.Get.{Outside, get_object, sent}
use yig.Versions.{zero_object}
use yig.Multipart.{complete_parts}
use yig.Multipart.RoundTrip.{Stored, complete_parts-get_object}

abbrev kept : String → Bytes
kept oid = 4 ∷ 5 ∷ 6 ∷ []

abbrev served : Outside
served = record {
  rados_read = λ oid offset room. (take room (drop offset (kept oid)), none);
  opens = λ _. true;
  has_cluster = λ _. true;
  takes_key = λ _. true;
  mask = λ _ _ _ x. x;
  stale = λ _. [];
}

served-Serves : Serves served.rados_read kept
served-Serves = record {
  chunk = λ oid offset room. room;
  returns = λ oid offset room. refl;
  fits = λ oid offset room. omega arith;
  proceeds = λ oid offset room h. h;
}

abbrev only : CompletePart
only = record { part_number = 1; etag = "y" }

abbrev parts : List (ℕ × Part)
parts = (1, part_of 1 "y" 3) ∷ []

abbrev done : Object
done = record zero_object { parts = parts; size = 3; parts_index = record { index = 0 ∷ [] } }

parts-Stored : Stored kept parts
parts-Stored k p h = ground arith

completes : complete_parts (λ _. some []) 1 (only ∷ []) 1 parts 0 [] ≡ ok (parts, 3, [])
unfolding complete_parts
completes = refl

complete_parts-get_object_example : get_object served done 1 2 no_sse ≡ sent (5 ∷ 6 ∷ []) none
complete_parts-get_object_example =
    complete_parts-get_object served kept (λ _. some []) (only ∷ []) parts done 1 2 no_sse
      served-Serves refl refl refl completes (omega arith) parts-Stored refl refl refl refl
      (omega arith)
