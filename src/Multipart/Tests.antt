-- ===== src/Multipart/Tests.antt =====
-- Runs of the methods on uploads, and the theorems at a concrete back end.
use yig.Prelude.{
  ℕ, ◌≡◌, ◌≤◌, refl, String, List, [], ◌∷◌, some, length, lookup, All, get_elem?, Option,
}
use yig.Types.{Bytes, Part, CompletePart}
use yig.Storage.{ok, World}
use yig.Sample.{sample, upload, part_of, body, ann, no_sse}
use yig.Multipart.{place_of, complete_parts, listed_parts, list_parts, ObjectToRecycle}
use yig.Multipart.Offsets.{Completed, complete_parts-Completed}
use yig.Multipart.Listing.{listed_parts-IsListed, IsListed}
use yig.Multipart.Handlers.{put_object_part, upload_part, copy_object_part}
use yig.Multipart.Queue.{replaced, put_object_part-Ends, copy_object_part-Ends}
use yig.Storage.Queue.{Ends}
use yig.Put.{Upload}

abbrev asked : List CompletePart
asked = record { part_number = 1; etag = "x" } ∷ record { part_number = 2; etag = "y" } ∷ []

abbrev laid_out : List (ℕ × Part)
laid_out = (1, part_of 1 "x" 131072) ∷ (2, record (part_of 2 "y" 3) { offset = 131072 }) ∷ []

abbrev digits : String → Option Bytes
digits etag = some (7 ∷ [])

completes : complete_parts digits 2 asked 1 upload.parts 0 [] ≡ ok (laid_out, 131075, 7 ∷ 7 ∷ [])
unfolding complete_parts
completes = refl

complete_parts-Completed_example :
    (ps : List Part) × (length ps ≡ 2)
    × Completed upload.parts laid_out 2 1 0 asked ps
    × (131075 ≡ yig.Get.Range.total ps)
complete_parts-Completed_example = complete_parts-Completed digits asked upload.parts completes

abbrev three : List (ℕ × Part)
three = (1, part_of 1 "x" 5) ∷ (2, part_of 2 "y" 5) ∷ (3, part_of 3 "z" 5) ∷ []

page : (get_elem? (list_parts 10000 1 three 1) 1) ≡ some (2, part_of 2 "y" 5)
unfolding list_parts
page = refl

listed_parts-IsListed_example :
    (length (listed_parts three 0 1).parts ≤ 1)
    × All (IsListed three 0) (listed_parts three 0 1).parts
listed_parts-IsListed_example = listed_parts-IsListed three 0 1

abbrev start : World ℕ
start = record { store = 5; queue = [] }

abbrev sent : Upload
sent = record {
  place = record { location = "c1"; pool = "rabbit"; object_id = "new"; tried_times = 0 };
  written = 3;
  content = 1 ∷ 2 ∷ 3 ∷ [];
  encryption_key = [];
  initialization_vector = [];
}

put_object_part-Ends_example :
    Ends sent.place
      (replaced upload (lookup 2 upload.parts))
      start
      (put_object_part (sample "Disabled" (ok tt)) "b" "o" ann "u" 2 3 body "" no_sse start)
unfolding upload_part yig.Multipart.part_encryption_key yig.Access.initialization_vector_for
    yig.Access.wrap_encryption
put_object_part-Ends_example =
    put_object_part-Ends (sample "Disabled" (ok tt)) "b" "o" ann "u" 2 3 body "" no_sse upload sent
      start start start refl refl

copy_object_part-Ends_example :
    Ends sent.place
      (replaced upload (lookup 2 upload.parts))
      start
      (copy_object_part (sample "Disabled" (ok tt)) "b" "o" "u" 2 3 body ann no_sse start)
unfolding upload_part yig.Multipart.part_encryption_key yig.Access.initialization_vector_for
    yig.Access.wrap_encryption
copy_object_part-Ends_example =
    copy_object_part-Ends (sample "Disabled" (ok tt)) "b" "o" "u" 2 3 body ann no_sse upload sent
      start start start refl refl

abbrev both : List ObjectToRecycle
both = place_of upload (part_of 1 "x" 131072) ∷ place_of upload (part_of 2 "y" 3) ∷ []
