-- ===== src/Copy/Tests.antt =====
-- Copies of an object with two parts.
use yig.Prelude.{ℕ, String, ◌≡◌, refl, [], ◌∷◌, none, some, ◌==◌, if◌then◌else◌}
use yig.Types.{Bytes, Object, Part}
use yig.Storage.{Backend, World, ok, err, internal_error, ObjectToRecycle}
use yig.Storage.Leaves.{LeavesOne}
use yig.Sample.{sample, ann, no_sse}
use yig.Versions.{zero_object}
use yig.Put.{PutObjectResult}
use yig.Copy.{copy_object}
use yig.Copy.Cut.{IsCut, copy_object-IsCut}
use yig.Copy.Leaves.{copy_object-LeavesOne}

abbrev first_byte_digest : Bytes → String
first_byte_digest [] = "none"
first_byte_digest (c ∷ bytes) = if c == 1 then "one" else "more"

-- A digest that tells pieces apart by their first byte.
abbrev by_first : Backend ℕ
by_first = record (sample "Disabled" (ok tt)) { md5_hex = first_byte_digest }

abbrev piece : ℕ → ℕ → String → Part
piece number size etag = record {
  part_number = number;
  size = size;
  object_id = "old";
  offset = 0;
  etag = etag;
  last_modified = 0;
  initialization_vector = [];
}

abbrev in_order : Object
in_order = record zero_object {
  name = "o";
  bucket_name = "b";
  size = 3;
  parts = (1, piece 1 1 "one") ∷ (2, piece 2 2 "more") ∷ [];
}

abbrev out_of_order : Object
out_of_order = record in_order { parts = (2, piece 2 2 "more") ∷ (1, piece 1 1 "one") ∷ [] }

abbrev second_is_bad : Object
second_is_bad = record in_order { parts = (1, piece 1 1 "one") ∷ (2, piece 2 2 "one") ∷ [] }

abbrev start : World ℕ
start = record { store = 0; queue = [] }

abbrev new_place : ObjectToRecycle
new_place = record { location = "c1"; pool = "rabbit"; object_id = "new"; tried_times = 0 }

in_order_succeeds : copy_object by_first in_order (1 ∷ 2 ∷ 3 ∷ []) ann no_sse start ≡ (
  ok (some (record { md5 = ""; last_modified = 2; version_id = "" })),
  record { store = 3; queue = [] },
)
unfolding copy_object yig.Meta.get_bucket yig.Access.may_write
    yig.Access.encryption_key_from_sse_request yig.Copy.copy_content yig.Copy.copy_parts
    yig.Copy.copy_part yig.Access.initialization_vector_for yig.Access.wrap_encryption
    yig.Copy.put_part yig.Copy.check_put_part yig.Copy.check_part yig.Versions.clock
    yig.Copy.finish_copy yig.Put.enter_object yig.Versions.check_old_object
    yig.Versions.drop_objects yig.Put.announce yig.Put.enter_entry yig.Put.point_to_null
    yig.Versions.remove_all_objects_entry_by_name yig.Versions.with_version_id
    yig.Versions.remove_each yig.Versions.get_version_id yig.Versions.if_it_exists
in_order_succeeds = refl

-- The same parts in the other order.
out_of_order_fails :
    copy_object by_first out_of_order (1 ∷ 2 ∷ 3 ∷ []) ann no_sse start
    ≡ (err internal_error, record { store = 0; queue = new_place ∷ [] })
unfolding copy_object yig.Meta.get_bucket yig.Access.may_write
    yig.Access.encryption_key_from_sse_request yig.Copy.copy_content yig.Copy.copy_parts
    yig.Copy.copy_part yig.Access.initialization_vector_for yig.Access.wrap_encryption
    yig.Copy.put_part yig.Copy.check_put_part yig.Copy.check_part yig.Versions.clock
    yig.Copy.finish_copy yig.Put.enter_object yig.Versions.check_old_object
    yig.Versions.drop_objects yig.Put.announce yig.Put.enter_entry yig.Put.point_to_null
    yig.Versions.remove_all_objects_entry_by_name yig.Versions.with_version_id
    yig.Versions.remove_each yig.Versions.get_version_id yig.Versions.if_it_exists
out_of_order_fails = refl

-- A source that ends before the second part does.
short_waits :
    copy_object by_first in_order (1 ∷ 2 ∷ []) ann no_sse start
    ≡ (ok none, record { store = 1; queue = [] })
unfolding copy_object yig.Meta.get_bucket yig.Access.may_write
    yig.Access.encryption_key_from_sse_request yig.Copy.copy_content yig.Copy.copy_parts
    yig.Copy.copy_part yig.Access.initialization_vector_for yig.Access.wrap_encryption
    yig.Copy.put_part yig.Copy.check_put_part yig.Copy.check_part yig.Versions.clock
    yig.Copy.finish_copy yig.Put.enter_object yig.Versions.check_old_object
    yig.Versions.drop_objects yig.Put.announce yig.Put.enter_entry yig.Put.point_to_null
    yig.Versions.remove_all_objects_entry_by_name yig.Versions.with_version_id
    yig.Versions.remove_each yig.Versions.get_version_id yig.Versions.if_it_exists
short_waits = refl

copy_object-IsCut_example : IsCut first_byte_digest in_order.parts (1 ∷ 2 ∷ 3 ∷ [])
copy_object-IsCut_example =
    copy_object-IsCut by_first in_order (1 ∷ 2 ∷ 3 ∷ []) ann no_sse
      (record { md5 = ""; last_modified = 2; version_id = "" }) start
      (record { store = 3; queue = [] }) refl in_order_succeeds

copy_object-LeavesOne_example :
    LeavesOne start (copy_object by_first second_is_bad (1 ∷ 2 ∷ 3 ∷ []) ann no_sse start)
copy_object-LeavesOne_example =
    copy_object-LeavesOne by_first second_is_bad (1 ∷ 2 ∷ 3 ∷ []) ann no_sse start
