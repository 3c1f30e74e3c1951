-- ===== src/Preconditions/Tests.antt =====
-- The conditions of a concrete request.
use yig.Prelude.{ℕ, String, [], Option, some, codes}
use yig.Preconditions.{Conditions}

abbrev always_ten : String → Option ℕ
always_ten text = some 10

abbrev asked : Conditions
asked = record {
  modified_since = "Thu";
  unmodified_since = "";
  etag_match = [];
  etag_none_match = codes "abc";
}
