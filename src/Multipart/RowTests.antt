-- ===== src/Multipart/RowTests.antt =====
-- A completed upload over a table of rows.
use yig.Prelude.{ℕ, String, List, [], ◌∷◌, Map}
use yig.Types.{Object, Part, CompletePart}
use yig.Storage.{World}
use yig.Sample.{bucket_of, upload}
use yig.Versions.{zero_object}
use yig.Multipart.Handlers.{CompleteResult}
use yig.Multipart.Complete.{completed_object}

abbrev asked : List CompletePart
asked = record { part_number = 1; etag = "x" } ∷ record { part_number = 2; etag = "y" } ∷ []

abbrev two : ℕ → String
two n = "2"

abbrev old_rows : World (List Object)
old_rows = record { store = zero_object ∷ []; queue = [] }

abbrev parts : Map Part
parts =
    (
      1,
      record {
        part_number = 1;
        size = 131072;
        object_id = "x";
        offset = 0;
        etag = "x";
        last_modified = 1;
        initialization_vector = [];
      },
    )
    ∷ (
      2,
      record {
        part_number = 2;
        size = 3;
        object_id = "y";
        offset = 131072;
        etag = "y";
        last_modified = 1;
        initialization_vector = [];
      },
    )
    ∷ []

abbrev new_rows : World (List Object)
new_rows = record {
  store = completed_object (bucket_of "Disabled") upload "b" "o" parts 131075 "digest-2" 5 ∷ [];
  queue = [];
}

abbrev answer : CompleteResult
answer = record {
  etag = "digest-2";
  version_id = "";
  sse_type = "";
  sse_aws_kms_key_id = "";
  sse_customer_algorithm = "";
  sse_customer_key = [];
}
