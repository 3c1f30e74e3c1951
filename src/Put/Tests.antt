-- ===== src/Put/Tests.antt =====
-- Runs of `PutObject`, and the theorems at a concrete back end.
use yig.Prelude.{ℕ, ◌≡◌, ◌≢◌, refl, String, [], ◌∷◌, List}
use yig.Prelude.Int.{pos}
use yig.Storage.{ok, World}
use yig.Storage.Queue.{Handed}
use yig.Sample.{row_sample, sample, body, ann, no_sse, private, bucket_of}
use yig.Types.{Object}
use yig.Versions.{zero_object}
use yig.Put.{new_object, Upload, PutObjectResult, put_object, begin_put, upload_object, limited}
use yig.Put.Queue.{put_object-Handed}
use yig.Put.NilMap.{put_object_fails}

abbrev start : World ℕ
start = record { store = 5; queue = [] }

abbrev sent : Upload
sent = record {
  place = record { location = "c1"; pool = "rabbit"; object_id = "new"; tried_times = 0 };
  written = 3;
  content = 1 ∷ 2 ∷ 3 ∷ [];
  encryption_key = [];
  initialization_vector = [];
}

begins :
    (versioning : String)
    → begin_put (sample versioning (ok tt)) "b" "o" ann (pos 3) body no_sse start
      ≡ (ok (bucket_of versioning, sent), start)
unfolding begin_put upload_object limited yig.Meta.get_bucket yig.Access.may_write
    yig.Access.encryption_key_from_sse_request yig.Access.initialization_vector_for
    yig.Access.wrap_encryption
begins versioning = refl

put_object-Handed_example :
    Handed sent.place start
      (put_object (sample "Disabled" (ok tt)) "b" "o" ann (pos 3) body [] private no_sse start)
put_object-Handed_example =
    put_object-Handed (sample "Disabled" (ok tt)) "b" "o" ann (pos 3) body [] private no_sse
      (bucket_of "Disabled") sent start start (begins "Disabled")

abbrev answer : PutObjectResult
answer = record { md5 = "digest"; last_modified = 5; version_id = "id" }

put_object_fails_example :
    (put_object (sample "Enabled" (ok tt)) "b" "o" ann (pos 3) body [] private no_sse start).0
    ≢ ok answer
put_object_fails_example =
    put_object_fails (sample "Enabled" (ok tt)) "b" "o" ann (pos 3) body [] private no_sse
      (bucket_of "Enabled") sent start start answer (begins "Enabled") refl refl

abbrev old_rows : World (List Object)
old_rows = record { store = zero_object ∷ []; queue = [] }

abbrev new_row : Object
new_row = new_object row_sample (bucket_of "Disabled") "b" "o" sent [] ann private no_sse 5

abbrev new_rows : World (List Object)
new_rows = record { store = new_row ∷ []; queue = [] }
