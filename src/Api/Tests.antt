-- ===== src/Api/Tests.antt =====
-- Requests for one small object.
use yig.Prelude.{ℕ, ◌≡◌, refl, true, false, [], ◌∷◌, Option, none, some, take, drop, has_prefix}
use yig.Prelude.Int.{pos}
use yig.Types.{Object}
use yig.Storage.{World, Backend, ok}
use yig.Sample.{sample, no_sse}
use yig.Versions.{zero_object}
use yig.Meta.{get_bucket, get_latest_object}
use yig.Objects.{get_object_info, find_object, check_read}
use yig.Errors.{ApiErrorCode}
use yig.HttpRange.{HttpRange}
use yig.Get.{Outside, sent, get_object, get_single, trans_part}
use yig.Ceph.{read, account, get_reader, copy_buffer}
use yig.Preconditions.{
  check_preconditions, check_time, is_etag_equal, canonicalize_etag, trim_prefix, trim_suffix,
  bytes_eq,
}
use yig.Api.{Values, Request, Response, raw, plain, write_error_response}
use yig.Api.Auth.{
  Verifier, refused, credential_of, get_request_auth_type, is_request_signature,
  is_request_presigned, is_request_post_policy_signature, is_req_authenticated,
}
use yig.Api.Sse.{parse_sse_header, sse_type, customer_type, sse_fields, copy_source_fields}
use yig.Api.Handler.{answered, authenticate}
use yig.Api.ObjectHeaders.{Formats}
use yig.Api.ObjectHeaders.Moment.{IsSent}
use yig.Api.Write.{Codecs}
use yig.Api.BucketHandlers.{BucketCodecs}
use yig.Api.Read.{open_object, range_of, get_object_handler, head_object_handler}
use yig.Api.Parts.{PartCodecs}
use yig.Api.Refused.{refused-Refuses}
use yig.Api.Read.Answers.{Opens, get_object_handler-not_modified, get_object_handler-sends}
use yig.Api.Documents.{Document}

abbrev pub photo : Object
photo = record zero_object {
  name = "o";
  bucket_name = "b";
  location = "c1";
  pool = "rabbit";
  size = 3;
  object_id = "x";
  last_modified_time = 7;
  etag = "e";
  acl = record { canned_acl = "public-read" };
}

abbrev pub with_photo : Backend ℕ
with_photo = record (sample "Disabled" (ok tt)) { client_get_object = λ _ _ _ s. (ok photo, s) }

abbrev pub refuses_all : Verifier
refuses_all = record {
  does_presigned_signature_match_v4 = λ _. refused plain;
  does_signature_match_v4 = λ _ _. refused plain;
  does_presigned_signature_match_v2 = λ _. refused plain;
  does_signature_match_v2 = λ _. refused plain;
  get_credential_unverified = λ _. refused plain;
  md5_base64 = λ _. "";
  sha256_hex = λ _. "";
}

abbrev pub plain_formats : Formats
plain_formats = record {
  format_time = λ _. "now";
  format_int = λ _. "3";
  format_range = λ _. "range";
  parse_time = λ _. none;
  decode_base64 = λ _. none;
  md5_base64 = λ _. "";
}

abbrev pub request_with : Values → Request
request_with header = record {
  method = "GET";
  host = "s3.test";
  path = "/b/o";
  bucket = "b";
  object = "o";
  header = header;
  query = [];
  content_length = pos 0;
  transfer_encoding = [];
  body = [];
  body_fine = true;
}

abbrev pub fresh : Response Document
fresh = record { header = []; sent = none; written = [] }

abbrev pub world : World ℕ
world = record { store = 0; queue = [] }

abbrev pub no_codes : ℕ → Option ApiErrorCode
no_codes _ = none

abbrev asks_again : Request
asks_again = request_with (("If-None-Match", "e" ∷ []) ∷ [])

abbrev pub asks : Request
asks = request_with []

abbrev pub three_bytes : Outside
three_bytes = record {
  rados_read = λ oid offset room. (take room (drop offset (1 ∷ 2 ∷ 3 ∷ [])), none);
  opens = λ _. true;
  has_cluster = λ _. true;
  takes_key = λ _. true;
  mask = λ _ _ _ b. b;
  stale = λ _. [];
}

again-Opens :
    Opens with_photo no_codes refuses_all plain_formats three_bytes asks_again photo
      (world, fresh)
      (world, fresh)
unfolding open_object authenticate credential_of get_request_auth_type is_request_signature
    is_request_presigned is_request_post_policy_signature get_object_info find_object get_bucket
    get_latest_object check_read
again-Opens = (refl, refl)

get_object_handler-not_modified_example :
    (w : Response Document) × (get_object_handler with_photo no_codes refuses_all plain_formats
        three_bytes asks_again
        (world, fresh)
      ≡ (answered, (world, w)))
    × (w.sent ≡ some (500, w.header))
    × (w.written ≡ [])
unfolding range_of check_preconditions check_time is_etag_equal canonicalize_etag trim_prefix
    trim_suffix bytes_eq
get_object_handler-not_modified_example =
    get_object_handler-not_modified with_photo no_codes refuses_all plain_formats three_bytes
      asks_again photo none (world, fresh) (world, fresh) again-Opens refl refl

photo-Opens :
    Opens with_photo no_codes refuses_all plain_formats three_bytes asks photo
      (world, fresh)
      (world, fresh)
unfolding open_object authenticate credential_of get_request_auth_type is_request_signature
    is_request_presigned is_request_post_policy_signature get_object_info find_object get_bucket
    get_latest_object check_read
photo-Opens = (refl, refl)

three_bytes_sent : get_object three_bytes photo 0 3 no_sse ≡ sent (1 ∷ 2 ∷ 3 ∷ []) none
unfolding get_object get_single trans_part copy_buffer read account get_reader
three_bytes_sent = refl

get_object_handler-sends_example :
    (w : Response Document) × (get_object_handler with_photo no_codes refuses_all plain_formats
        three_bytes asks
        (world, fresh)
      ≡ (answered, (world, w)))
    × (w.written ≡ raw (1 ∷ 2 ∷ 3 ∷ []) ∷ [])
    × IsSent plain_formats none w
unfolding range_of check_preconditions check_time parse_sse_header sse_type customer_type sse_fields
    copy_source_fields
get_object_handler-sends_example =
    get_object_handler-sends with_photo no_codes refuses_all plain_formats three_bytes asks photo
      none no_sse 1 (2 ∷ 3 ∷ []) none (world, fresh) (world, fresh) photo-Opens refl refl refl refl
      refl three_bytes_sent

abbrev second_byte : HttpRange
second_byte = record { offset_begin = pos 1; offset_end = pos 1; resource_size = pos 3 }

abbrev pub no_codecs : Codecs
no_codecs = record {
  decode_utf8 = λ _. none;
  check_valid_md5 = λ _. none;
  encode_hex = λ _. "";
  parse_policy = λ _. none;
  error_number = λ _. 0;
}

abbrev no_bucket_codecs : BucketCodecs
no_bucket_codecs = record {
  region = "";
  clean_path = λ p. p;
  to_lower = λ s. s;
  gives_eof = λ _. false;
  parse_location = λ _. none;
  parse_policy = λ _. none;
  parse_lc = λ _. none;
  parse_cors = λ _. none;
  parse_versioning = λ _. none;
}

abbrev signed_asks : Request
signed_asks = request_with (("Authorization", "AWS k:s" ∷ []) ∷ [])

refused_asks : credential_of refuses_all signed_asks ≡ refused plain
unfolding credential_of get_request_auth_type is_request_signature is_req_authenticated has_prefix
refused_asks = refl

abbrev no_part_codecs : PartCodecs
no_part_codecs = record {
  encode_base64 = λ _. "";
  text_base64 = λ _. "";
  clean_path = λ p. p;
  decimal = λ _. "2";
  parse_complete = λ _. none;
}

refused-Refuses_example :
    head_object_handler with_photo no_codes refuses_all plain_formats signed_asks (world, fresh)
    ≡ (answered, (world, write_error_response signed_asks plain fresh))
refused-Refuses_example =
    (refused-Refuses with_photo no_codes refuses_all plain_formats no_codecs no_bucket_codecs
        three_bytes signed_asks plain (λ _. none) (λ _. true) (λ _. none) (λ _. none) no_part_codecs
        refused_asks).1
      (world, fresh)
