-- ===== src/Get/Tests.antt =====
-- Runs of `GetObject`, and the theorems at a small object.
use Prim.Native.Nat.{ℕ, zero, suc}
use yig.Prelude.{
  ◌==◌, ◌++◌, ◌≡◌, refl, String, Bool, true, false, [], ◌∷◌, none, arith, take, drop, str_eq,
  if◌then◌else◌,
}
use yig.Types.{Bytes, Part, Object, SseRequest}
use yig.Ceph.{RadosRead}
use yig.Ceph.Copy.{Serves}
use yig.Index.Lower.{Ascending}
use yig.Get.{xor_stream, Outside, sent, get_object, get_single}
use yig.Get.Range.{get_object-slice}
use yig.Get.Cipher.{IsInvolutive, get_single_decrypts}

abbrev pub content : String → Bytes
content oid = if str_eq oid "a" then 1 ∷ 2 ∷ 3 ∷ [] else 4 ∷ 5 ∷ []

abbrev pub reads : RadosRead
reads oid offset room = (take room (drop offset (content oid)), none)

pub reads-Serves : Serves reads content
reads-Serves = record {
  chunk = λ oid offset room. room;
  returns = λ oid offset room. refl;
  fits = λ oid offset room. omega arith;
  proceeds = λ oid offset room h. h;
}

abbrev pub out : Bool → Outside
out opens = record {
  rados_read = reads;
  opens = λ pool. opens;
  has_cluster = λ name. true;
  takes_key = λ key. true;
  mask = λ key iv pos b. b;
  stale = λ n. [];
}

abbrev pub part_a : Part
part_a = record {
  part_number = 1;
  size = 3;
  object_id = "a";
  offset = 0;
  etag = "";
  last_modified = 0;
  initialization_vector = [];
}

abbrev pub part_b : Part
part_b = record part_a { part_number = 2; size = 2; object_id = "b"; offset = 3 }

abbrev pub object : Object
object = record {
  rowkey = [];
  name = "o";
  bucket_name = "b";
  location = "ceph";
  pool = "tiger";
  owner_id = "u";
  size = 5;
  object_id = "";
  last_modified_time = 0;
  etag = "";
  content_type = "";
  custom_attributes = [];
  parts = (1, part_a) ∷ (2, part_b) ∷ [];
  parts_index = record { index = 0 ∷ 3 ∷ [] };
  acl = record { canned_acl = "private" };
  null_version = true;
  delete_marker = false;
  version_id = "";
  sse_type = "";
  encryption_key = [];
  initialization_vector = [];
}

abbrev no_sse : SseRequest
no_sse = record {
  type = "";
  sse_aws_kms_key_id = "";
  sse_context = "";
  sse_customer_algorithm = "";
  sse_customer_key = [];
  copy_source_sse_customer_algorithm = "";
  copy_source_sse_customer_key = [];
}

pub index-Ascending : Ascending (0 ∷ 3 ∷ [])
index-Ascending zero zero h k = absurd (omega arith)
index-Ascending zero (suc zero) h k = omega arith
index-Ascending zero (suc (suc j)) h k = absurd (omega arith)
index-Ascending (suc i) zero h k = absurd (omega arith)
index-Ascending (suc i) (suc zero) h k = absurd (omega arith)
index-Ascending (suc i) (suc (suc j)) h k = absurd (omega arith)

get_object-slice_example : get_object (out true) object 2 2 no_sse ≡ sent (3 ∷ 4 ∷ []) none
get_object-slice_example =
    get_object-slice (out true) content reads-Serves object refl refl refl (part_a ∷ part_b ∷ []) 2
      2 no_sse (omega arith) refl (refl, (refl, tt)) (refl, refl, (refl, refl, tt)) refl
      index-Ascending (omega arith)

-- A stream that changes the byte at position 16 only.
abbrev turn : ℕ → ℕ → ℕ
turn pos b = if pos == 16 then (if b == 0 then 1 else if b == 1 then 0 else b) else b

turn-IsInvolutive : IsInvolutive turn
turn-IsInvolutive pos b = ground arith

abbrev sixteen : Bytes
sixteen = 7 ∷ 7 ∷ 7 ∷ 7 ∷ 7 ∷ 7 ∷ 7 ∷ 7 ∷ 7 ∷ 7 ∷ 7 ∷ 7 ∷ 7 ∷ 7 ∷ 7 ∷ 7 ∷ []

abbrev stored : String → Bytes
stored oid = sixteen ++ 1 ∷ []

abbrev sealed : Outside
sealed = record (out true) {
  rados_read = λ oid offset room. (take room (drop offset (stored oid)), none);
  mask = λ key iv. turn;
}

sealed-Serves : Serves sealed.rados_read stored
sealed-Serves = record {
  chunk = λ oid offset room. room;
  returns = λ oid offset room. refl;
  fits = λ oid offset room. omega arith;
  proceeds = λ oid offset room h. h;
}

abbrev secret : Object
secret = record object { sse_type = "S3"; object_id = "a"; parts = [] }

get_single_decrypts_example :
    get_single sealed secret 0 17 (9 ∷ []) ≡ sent (take 17 (sixteen ++ 0 ∷ [])) none
unfolding xor_stream
get_single_decrypts_example =
    get_single_decrypts sealed stored sealed-Serves secret refl refl refl (9 ∷ []) (omega arith)
      refl 17 (sixteen ++ 0 ∷ []) turn-IsInvolutive refl
