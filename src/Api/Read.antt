-- ===== src/Api/Read.antt =====
-- `GetObjectHandler` and `HeadObjectHandler` (api/object-handlers.go).
pub mod Answers
use yig.Prelude.{
  ℕ, String, Bool, true, false, [], ◌∷◌, Option, none, some, str_eq, if◌then◌else◌, not, length,
  ◌==◌, codes, ◌||◌,
}
use yig.Prelude.Int.{pos_part}
use yig.Types.{Credential, Object}
use yig.Storage.{Error, Backend, ok, err, panicked}
use yig.Storage
use yig.Errors
use yig.Errors.{ApiErrorCode}
use yig.HttpRange
use yig.HttpRange.{HttpRange, Parsed, get_length, parse_request_range}
use yig.Get.{Outside, Sent, sent, panicked as torn, get_object}
use yig.Preconditions.{Conditions, check_preconditions}
use yig.Meta.{get_bucket}
use yig.Objects.{get_object_info}
use yig.Api.{
  Values, get, Request, raw, Fault, code, plain, set_header, write_header, write,
  write_error_response, status_ok,
}
use yig.Api.Auth.{Verifier}
use yig.Api.Sse.{parse_sse_header}
use yig.Api.Handler.{
  Handler, pure, ◌>>=◌, ◌>>◌, respond, answer, crash, fail, fail_if, call_or, checked, authenticate,
  fault_of, crashed,
}
use yig.Api.ObjectHeaders.{
  Formats, set_sse_headers, set_object_headers, begin_body, refuse_conditions,
}

abbrev is_no_such_key : Fault → Bool
is_no_such_key (code Errors.no_such_key) = true
is_no_such_key _ = false

abbrev is_no_such_bucket : Fault → Bool
is_no_such_bucket (code Errors.no_such_bucket) = true
is_no_such_bucket _ = false

abbrev pub conditions_of : Values → Conditions
conditions_of header = record {
  modified_since = get header "If-Modified-Since";
  unmodified_since = get header "If-Unmodified-Since";
  etag_match = codes (get header "If-Match");
  etag_none_match = codes (get header "If-None-Match");
}

-- the `switch` of `errAllowableObjectNotFound` on the ACL of the bucket
unfoldable pub hidden_or_missing : String → Bool → Bool → ApiErrorCode
hidden_or_missing acl has_key is_owner =
    if str_eq acl "public-read" || str_eq acl "public-read-write"
    then Errors.no_such_key
    else if str_eq acl "authenticated-read"
    then if has_key then Errors.no_such_key else Errors.access_denied
    else if is_owner
    then Errors.no_such_key
    else Errors.access_denied

-- the part of the object that the range asks for, or all of it
abbrev pub first_byte : Option HttpRange → ℕ
first_byte none = 0
first_byte (some range) = pos_part range.offset_begin

abbrev pub byte_count : Object → Option HttpRange → ℕ
byte_count o none = o.size
byte_count o (some range) = pos_part (get_length range)

module _ {S D : Type 0} (b : Backend S) (other_code : ℕ → Option ApiErrorCode) (v : Verifier)
    (f : Formats) where
  -- `errAllowableObjectNotFound`, whose error is answered
  unfoldable pub err_allowable_object_not_found :
      {A : Type 0} → Request → Credential → Handler S D A
  err_allowable_object_not_found r credential (world, w) =
      let (found, world') = get_bucket b r.bucket true world in
      elim found [
        | ok bucket ↦
            fail r
              (code (
                hidden_or_missing bucket.acl.canned_acl (not (str_eq credential.access_key_id ""))
                  (str_eq bucket.owner_id credential.user_id)))
              (world', w)
        | err e ↦
            fail r
              (code (
                if is_no_such_bucket (fault_of other_code e)
                then Errors.no_such_key
                else Errors.access_denied))
              (world', w)
        | panicked ↦ (crashed, (world', w))
      ]

  -- what is made of an error of `GetObjectInfo`
  unfoldable pub object_not_found : {A : Type 0} → Request → Credential → Error → Handler S D A
  object_not_found r credential e =
      if is_no_such_key (fault_of other_code e)
      then err_allowable_object_not_found r credential
      else fail r (fault_of other_code e)

  -- from the signature to the object, which is no delete marker
  unfoldable pub open_object : Request → Handler S D Object
  open_object r = do
    credential ← authenticate v r
    o ←
        call_or (get_object_info b r.bucket r.object (get r.query "versionId") credential)
          (object_not_found r credential)
    if o.delete_marker
        then answer (λ w.
          write_error_response r (code Errors.no_such_key)
            (set_header "x-amz-delete-marker" "true" w))
        else pure o

  -- The range of the request. One that is malformed is ignored.
  unfoldable pub range_of : Request → Object → Handler S D (Option HttpRange)
  range_of r o =
      if str_eq (get r.header "Range") ""
      then pure none
      else (elim (parse_request_range (codes (get r.header "Range")) o.size) [
        | HttpRange.ok range ↦ pure (some range)
        | HttpRange.err HttpRange.invalid ↦ fail r (code Errors.invalid_range)
        | HttpRange.err HttpRange.malformed ↦ pure none
      ])

  -- the conditions of the request
  unfoldable pub validate_conditions : Request → Object → Handler S D (Unit {0})
  validate_conditions r o =
      elim (check_preconditions f.parse_time (conditions_of r.header) o.last_modified_time
        (codes o.etag)) [ none ↦ pure tt | some refusal ↦ answer (refuse_conditions f r o refusal) ]

  -- What has come of `GetObject`: the headers are set with the first write.
  unfoldable pub send_body : Request → Object → Option HttpRange → Sent → Handler S D (Unit {0})
  send_body r o hrange (sent [] none) = answer (λ w. write (raw []) (begin_body f r o hrange w))
  send_body r o hrange (sent [] (some e)) = fail r plain
  send_body r o hrange (sent (c ∷ bs) e) =
      answer (λ w. write (raw (c ∷ bs)) (begin_body f r o hrange w))
  send_body r o hrange (torn []) = crash
  send_body r o hrange (torn (c ∷ bs)) =
      respond (λ w. write (raw (c ∷ bs)) (begin_body f r o hrange w)) >> crash

  -- `GetObjectHandler`
  unfoldable pub get_object_handler : Outside → Request → Handler S D (Unit {0})
  get_object_handler out r = do
    o ← open_object r
    hrange ← range_of r o
    validate_conditions r o
    sse ← checked r (parse_sse_header f.decode_base64 f.md5_base64 r.header)
    fail_if (not (length sse.copy_source_sse_customer_key == 0)) r (code Errors.invalid_sse_header)
    respond (set_sse_headers r o)
    send_body r o hrange (get_object out o (first_byte hrange) (byte_count o hrange) sse)

  -- `HeadObjectHandler`
  unfoldable pub head_object_handler : Request → Handler S D (Unit {0})
  head_object_handler r = do
    o ← open_object r
    hrange ← range_of r o
    validate_conditions r o
    sse ← checked r (parse_sse_header f.decode_base64 f.md5_base64 r.header)
    answer (λ w. write_header status_ok (set_sse_headers r o (set_object_headers f o none w)))
