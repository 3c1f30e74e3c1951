-- ===== src/Sample.antt =====
-- A small back end with one bucket and one upload, for the runs at concrete inputs. Its state is
-- the number that the clock shows next.
use yig.Prelude.{◌≡◌, refl, arith, All, ℕ, ◌+◌, String, true, [], ◌∷◌, none, some, length, List}
use yig.Prelude.Int.{pos}
use yig.Types.{Credential, Acl, SseRequest, Part, Multipart, Bucket, Object}
use yig.Storage.{Outcome, ok, err, no_such_key, Backend, Body}
use yig.Storage.Rows.{Rows}
use yig.Versions.{zero_object}

abbrev pub ann : Credential
ann = record { user_id = "ann"; display_name = "Ann"; access_key_id = "a"; secret_access_key = "s" }

abbrev pub nobody : Credential
nobody = record { user_id = ""; display_name = ""; access_key_id = ""; secret_access_key = "" }

abbrev pub private : Acl
private = record { canned_acl = "private" }

abbrev pub no_sse : SseRequest
no_sse = record {
  type = "";
  sse_aws_kms_key_id = "";
  sse_context = "";
  sse_customer_algorithm = "";
  sse_customer_key = [];
  copy_source_sse_customer_algorithm = "";
  copy_source_sse_customer_key = [];
}

abbrev pub bucket_of : String → Bucket
bucket_of versioning = record {
  name = "b";
  create_time = 1;
  owner_id = "ann";
  cors = [];
  acl = private;
  lc = [];
  versioning = versioning;
  usage = pos 0;
}

abbrev pub part_of : ℕ → String → ℕ → Part
part_of n oid size = record {
  part_number = n;
  size = size;
  object_id = oid;
  offset = 0;
  etag = oid;
  last_modified = 1;
  initialization_vector = [];
}

abbrev pub upload : Multipart
upload = record {
  bucket_name = "b";
  object_name = "o";
  initial_time = 1;
  upload_id = "u";
  metadata = record {
    initiator_id = "ann";
    owner_id = "ann";
    content_type = "";
    location = "c1";
    pool = "rabbit";
    acl = private;
    sse_request = no_sse;
    encryption_key = [];
    attrs = [];
  };
  parts = (1, part_of 1 "x" 131072) ∷ (2, part_of 2 "y" 3) ∷ [];
}

abbrev pub body : Body
body = record { content = 1 ∷ 2 ∷ 3 ∷ []; signed = none }

abbrev pub constant : {S A : Type 0} → A → S → Outcome A × S
constant a s = (ok a, s)

-- The bucket has the versioning given, and `added` is what adding a bucket to a user answers.
abbrev sample_over :
    {S : Type 0}
    → (S → ℕ × S)
    → (Object → S → Outcome (Unit {0}) × S)
    → (Object → S → Outcome (Unit {0}) × S)
    → (String → String → S → Outcome (List Object) × S)
    → String
    → Outcome (Unit {0})
    → Backend S
sample_over now put delete all versioning added = record {
  client_get_object = λ _ name _ s. (ok (record zero_object { name = name }), s);
  client_get_all_object = all;
  client_put_object = put;
  client_delete_object = delete;
  client_get_bucket = λ _. constant (bucket_of versioning);
  client_put_bucket = λ _. constant tt;
  client_check_and_put_bucket = λ _. constant true;
  client_delete_bucket = λ _. constant tt;
  client_list_one_object = λ _. constant [];
  client_update_usage = λ _ _ s. s;
  client_get_multipart = λ _ _ _. constant upload;
  client_create_multipart = λ _. constant tt;
  client_put_object_part = λ _ _. constant tt;
  client_delete_multipart = λ _. constant tt;
  client_get_object_map = λ _ _ s. (err no_such_key, s);
  client_put_object_map = λ _. constant tt;
  client_delete_object_map = λ _. constant tt;
  client_put_to_garbage = λ _. constant tt;
  client_get_user_buckets = λ _. constant [];
  client_add_bucket_for_user = λ _ _ s. (added, s);
  client_remove_bucket_for_user = λ _ _. constant tt;
  client_put_to_life_cycle = λ _ _. constant tt;
  client_remove_from_life_cycle = λ _. constant tt;
  cache_get = λ _ _ fill _ s. fill s;
  cache_remove = λ _ _ s. s;
  data_cache_remove = λ _ s. s;
  has_cluster = λ _. true;
  pick = λ _ _ _ s. (("c1", "rabbit"), s);
  upload_name = λ _ s. ("new", s);
  ceph_put = λ _ _ _ bytes s. (ok (length bytes), s);
  now = now;
  random_bytes = λ _. constant [];
  encrypt = λ _ _ bytes. ok bytes;
  md5_hex = λ _. "digest";
  decode_hex = λ _. some (7 ∷ []);
  seal_number = λ _. "id";
  open_number = λ _. ok 1;
  credential_by_user_id = λ _. constant ann;
}

abbrev pub sample : String → Outcome (Unit {0}) → Backend ℕ
sample =
    sample_over (λ s. (s, s + 1)) (λ _. constant tt) (λ _. constant tt)
      (λ _ _ s. (err no_such_key, s))

-- The rows of one object: what is under its name is kept without the name.
abbrev pub renamed : String → String → List Object → List Object
renamed bucket name [] = []
renamed bucket name (o ∷ os) =
    record o { bucket_name = bucket; name = name } ∷ renamed bucket name os

abbrev tail : List Object → List Object
tail [] = []
tail (o ∷ os) = os

abbrev pub row_sample : Backend (List Object)
row_sample =
    sample_over (λ s. (5, s)) (λ o s. (ok tt, o ∷ s)) (λ _ s. (ok tt, tail s))
      (λ bucket name s. (ok (renamed bucket name s), s)) "Disabled" (ok tt)

renamed-named :
    (s : List Object) (bucket name : String)
    → All (λ o. (o.bucket_name ≡ bucket) × (o.name ≡ name)) (renamed bucket name s)
renamed-named [] bucket name = tt
renamed-named (o ∷ s) bucket name = ((refl, refl), renamed-named s bucket name)

renamed-tail :
    (o : Object) (others s : List Object)
    → renamed o.bucket_name o.name s ≡ o ∷ others
    → renamed o.bucket_name o.name (tail s) ≡ others
renamed-tail o others [] h = absurd (ground arith)
renamed-tail o others (x ∷ s) h = ground (arith, h)

pub row_sample-Rows : Rows row_sample
row_sample-Rows = record {
  rows = λ s bucket name. renamed bucket name s;
  named = renamed-named;
  put_adds = λ o s h. refl;
  delete_removes = λ o others s h e. renamed-tail o others s e;
  lists = λ bucket name s os h. ground (arith, h);
  lists_none = λ bucket name s h. absurd (ground (arith, h));
  garbage_apart = λ o s bucket name. refl;
  uploads_apart = λ m s bucket name. refl;
  usage_apart = λ of n s bucket name. refl;
  cache_apart = λ t key s bucket name. refl;
  data_cache_apart = λ key s bucket name. refl;
  clock_apart = λ s bucket name. refl;
}
