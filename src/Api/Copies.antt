-- ===== src/Api/Copies.antt =====
-- `CopyObjectHandler` and `CopyObjectPartHandler` (api/object-handlers.go). `GetObject`, which runs
-- beside them and writes into a pipe, is taken to run to its end first. If it fails, the source ends
-- where its bytes do: a pipe gives its error without bytes, at which `Put` ends as at the end of a
-- body. The decoding of a query text and of a number are parameters.
pub mod Window
use yig.Prelude.{
  ℕ, String, Bool, true, false, Option, none, some, str_eq, if◌then◌else◌, not, ◌==◌, ◌&&◌, codes,
}
use yig.Prelude.Int.{ℤ, pos, pos_part, ◌+ℤ◌, ◌-ℤ◌}
use yig.Types.{Bytes, Credential, Object, SseRequest, Acl}
use yig.Storage.{Backend}
use yig.Errors
use yig.Errors.{ApiErrorCode}
use yig.Names.{is_valid_object_name}
use yig.HttpRange
use yig.HttpRange.{parse_request_range, get_length, HttpRange, Parsed}
use yig.Preconditions.{Conditions, check_object_preconditions}
use yig.Get.{Outside, Sent, sent, panicked as torn, get_object}
use yig.Versions.{zero_object}
use yig.Put.{PutObjectResult}
use yig.Objects.{get_object_info}
use yig.Copy.{copy_object}
use yig.Multipart.Handlers.{PutPartResult, copy_object_part}
use yig.Api.{
  Values, get, Request, Response, document, Fault, code, set_header, write_success_response,
  write_error_response_with_resource, copy_headers, sse_header_names,
}
use yig.Api.Auth.{Verifier}
use yig.Api.Sse.{
  Checked, fine, wrong, parse_sse_header, get_acl_from_header, is_max_object_size, is_max_part_id,
}
use yig.Api.CopySource.{CopySource, copy_source_text, parse_copy_source}
use yig.Api.Handler.{
  Handler, pure, ◌>>=◌, ◌>>◌, answer, crash, fail, fail_if, call_or, call_storage, checked,
  authenticate, fault_of,
}
use yig.Api.ObjectHeaders.{Formats, quoted, code_of, set_etag}
use yig.Api.Write.{Codecs, set_unless_empty}
use yig.Api.Documents.{Document, object_copied, part_copied, CopyObjectResponse}

-- `GenerateCopyObjectResponse`, `GenerateCopyObjectPartResponse`
unfoldable pub generate_copy_object_response : PutObjectResult → CopyObjectResponse
generate_copy_object_response result = record {
  etag = quoted result.md5;
  last_modified = result.last_modified;
}

unfoldable pub generate_copy_object_part_response : PutPartResult → CopyObjectResponse
generate_copy_object_part_response result = record {
  etag = quoted result.etag;
  last_modified = result.last_modified;
}

-- The end of a copy that never returns: `CopyObject` waits for a pipe that nobody closes.
pub data Stuck : Type 0 where
  stuck : Stuck

-- the object that the handler fills in
abbrev pub target_object : Request → Acl → Object → Object
target_object r acl source = record zero_object {
  acl = acl;
  bucket_name = r.bucket;
  name = r.object;
  size = source.size;
  etag = source.etag;
  content_type = source.content_type;
  custom_attributes = source.custom_attributes;
  parts = source.parts;
}

abbrev copy_conditions_of : Values → Conditions
copy_conditions_of header = record {
  modified_since = get header "X-Amz-Copy-Source-If-Modified-Since";
  unmodified_since = get header "X-Amz-Copy-Source-If-Unmodified-Since";
  etag_match = codes (get header "X-Amz-Copy-Source-If-Match");
  etag_none_match = codes (get header "X-Amz-Copy-Source-If-None-Match");
}

module _ {D : Type 0} where
  -- the headers of the answer to a copy
  unfoldable pub copied_headers : Request → String → String → String → Response D → Response D
  copied_headers r md5 source_version version w = copy_headers sse_header_names r (
      set_unless_empty version "x-amz-version-id" version (
        set_unless_empty source_version "x-amz-copy-source-version-id" source_version
          (set_etag md5 w)))

module _ {S D : Type 0} where
  -- `WriteErrorResponseWithResource(w, r, e, copySource); return`
  abbrev pub fail_with : {A : Type 0} → Request → Fault → Handler S D A
  fail_with r e = answer (write_error_response_with_resource r e (copy_source_text r))

  abbrev pub checked_with : {A : Type 0} → Request → Checked A → Handler S D A
  checked_with r (fine a) = pure a
  checked_with r (wrong e) = fail_with r e

  -- what comes through the pipe; a panic of `GetObject` ends the program
  abbrev pub piped : Sent → Handler S D Bytes
  piped (sent bytes e) = pure bytes
  piped (torn bytes) = crash

  -- the conditions on the source
  unfoldable pub check_source : Formats → Request → Object → Handler S D (Unit {0})
  check_source f r o =
      elim (check_object_preconditions f.parse_time (copy_conditions_of r.header)
        o.last_modified_time (codes o.etag)) [
          | none ↦ pure tt
          | some refusal ↦ fail r (code (code_of refusal))
        ]

  abbrev pub fail_if_with : Bool → Request → Fault → Handler S D (Unit {0})
  fail_if_with test r e = if test then fail_with r e else pure tt

  -- a range of the source, which must not be too long
  unfoldable pub limited_range : Request → HttpRange → Handler S D (ℕ × ℕ)
  limited_range r range = do
    fail_if_with (is_max_object_size (range.offset_end -ℤ range.offset_begin +ℤ pos 1)) r
        (code Errors.entity_too_large)
    pure (pos_part range.offset_begin, pos_part (get_length range))

  abbrev pub ranged : Request → Parsed HttpRange → Handler S D (ℕ × ℕ)
  ranged r (HttpRange.err e) = fail r (code Errors.invalid_range)
  ranged r (HttpRange.ok range) = limited_range r range

  -- the part of the source that `CopyObjectPart` is to read: where it begins, and its length
  unfoldable pub window_of : Request → Object → Handler S D (ℕ × ℕ)
  window_of r o =
      if str_eq (get r.header "X-Amz-Copy-Source-Range") ""
      then pure (0, o.size)
      else ranged r (parse_request_range (codes (get r.header "X-Amz-Copy-Source-Range")) o.size)

  -- with the test on its length
  unfoldable pub bounded_window : Request → Object → Handler S D (ℕ × ℕ)
  bounded_window r o = do
    window ← window_of r o
    fail_if_with (is_max_object_size (pos window.1)) r (code Errors.entity_too_large)
    pure window

  -- the number of the part; the router lets through digits only
  unfoldable pub part_number_of : (String → Option ℕ) → Request → Handler S D ℕ
  part_number_of atoi r = elim (atoi (get r.query "partNumber")) [
    | none ↦ fail r (code Errors.invalid_part)
    | some n ↦ fail_if (is_max_part_id (pos n)) r (code Errors.invalid_max_parts) >> pure n
  ]

module _ {S : Type 0} (b : Backend S) (other_code : ℕ → Option ApiErrorCode) (v : Verifier)
    (f : Formats) (c : Codecs) (out : Outside) (unescape : String → Option String) where
  -- the object that is copied
  unfoldable pub open_source : {D : Type 0} → Request → Credential → CopySource → Handler S D Object
  open_source r credential source =
      call_or (get_object_info b source.bucket source.object source.version credential)
        (λ e. fail_with r (fault_of other_code e))

  unfoldable pub answer_copied :
      Request → CopySource → Option PutObjectResult → Handler S Document Stuck
  answer_copied r source none = pure stuck
  answer_copied r source (some result) = answer (λ w.
      write_success_response
        (some (document (object_copied (generate_copy_object_response result))))
        (copied_headers r result.md5 source.version result.version_id w))

  -- `CopyObjectHandler`
  unfoldable pub copy_object_handler : Request → Handler S Document Stuck
  copy_object_handler r = do
    credential ← authenticate v r
    source ← checked r (parse_copy_source unescape (copy_source_text r))
    fail_if (str_eq source.bucket r.bucket && str_eq source.object r.object) r
        (code Errors.invalid_copy_dest)
    o ← open_source r credential source
    sse ← checked r (parse_sse_header f.decode_base64 f.md5_base64 r.header)
    check_source f r o
    fail_if_with (is_max_object_size (pos o.size)) r (code Errors.entity_too_large)
    content ← piped (get_object out o 0 o.size sse)
    acl ← checked r (get_acl_from_header r.header)
    copied ←
        call_storage other_code r (copy_object b (target_object r acl o) content credential sse)
    answer_copied r source copied

  -- from the source to the upload of the part
  unfoldable pub copy_window :
      Request → Credential → ℕ → CopySource → Handler S Document PutPartResult
  copy_window r credential part_id source = do
    o ← open_source r credential source
    sse ← checked_with r (parse_sse_header f.decode_base64 f.md5_base64 r.header)
    check_source f r o
    window ← bounded_window r o
    content ← piped (get_object out o window.0 window.1 sse)
    call_storage other_code r (
        copy_object_part b r.bucket r.object (get r.query "uploadId") part_id window.1
          (record { content = content; signed = none }) credential sse)

  -- `CopyObjectPartHandler`
  unfoldable pub copy_object_part_handler :
      (String → Option ℕ) → Request → Handler S Document (Unit {0})
  copy_object_part_handler atoi r = do
    fail_if (not (is_valid_object_name c.decode_utf8 (codes r.object))) r
        (code Errors.invalid_object_name)
    credential ← authenticate v r
    part_id ← part_number_of atoi r
    source ← checked r (parse_copy_source unescape (copy_source_text r))
    result ← copy_window r credential part_id source
    answer (λ w.
        write_success_response
          (some (document (part_copied (generate_copy_object_part_response result))))
          (copied_headers r result.etag source.version "" w))
