-- ===== src/Api/Uploads.antt =====
-- `NewMultipartUploadHandler`, `AbortMultipartUploadHandler` and `ListObjectPartsHandler`
-- (api/object-handlers.go), and `DeleteMultipleObjectsHandler` (api/bucket-handlers.go).
pub mod Deleted
use yig.Prelude.{
  ℕ, String, Bool, false, List, [], ◌∷◌, ◌++◌, Option, none, some, str_eq, if◌then◌else◌, not,
  codes, take, length, ltb,
}
use yig.Prelude.Int.{ℤ, pos, negsuc, pos_part}
use yig.Types.{Bytes, Credential}
use yig.Storage.{Backend, World, ok, err, panicked}
use yig.Errors
use yig.Errors.{ApiErrorCode, ApiErrorStruct, error_code_response}
use yig.Names.{is_valid_object_name}
use yig.Multipart.Handlers.{new_multipart_upload, abort_multipart_upload, list_object_parts}
use yig.Versions.Delete.{delete_object, DeleteObjectResult}
use yig.Api.{
  get, Request, Response, document, Fault, code, too_small, plain, write_success_response,
  write_success_no_content, copy_headers, sse_header_names,
}
use yig.Api.Auth.{Verifier}
use yig.Api.Sse.{parse_sse_header, get_acl_from_header, extract_metadata_from_header}
use yig.Api.Queries.{parse_list_object_parts_query}
use yig.Api.Handler.{
  Handler, Reply, crashed, pure, ◌>>=◌, ◌>>◌, answer, fail, fail_if, call_storage, checked,
  authenticate, fault_of,
}
use yig.Api.ObjectHeaders.{Formats}
use yig.Api.Write.{Codecs}
use yig.Api.Documents.{Document, initiated, parts_listed, deleted, ObjectIdentifier, DeleteError}

-- `DeleteObjectsRequest`: the names and versions to delete.
pub record DeleteObjectsRequest : Type 0 where
  pub quiet : Bool
  pub objects : List (String × String)

-- What an error of `DeleteObject` is in the answer. An error without an entry in the table has
-- empty texts.
abbrev pub texts_of : Option ApiErrorStruct → String × String
texts_of none = ("", "")
texts_of (some e) = (e.aws_error_code, e.description)

abbrev unknown_texts : String × String
unknown_texts = ("InternalError", "We encountered an internal error, please try again.")

unfoldable pub delete_error : Fault → String × String → DeleteError
delete_error (code e) key = record {
  code = (texts_of (error_code_response e)).0;
  message = (texts_of (error_code_response e)).1;
  key = key.0;
  version_id = key.1;
}
delete_error (too_small size number etag) key = record {
  code = unknown_texts.0;
  message = unknown_texts.1;
  key = key.0;
  version_id = key.1;
}
delete_error plain key = record {
  code = unknown_texts.0;
  message = unknown_texts.1;
  key = key.0;
  version_id = key.1;
}

abbrev pub identifier : String × String → DeleteObjectResult → ObjectIdentifier
identifier key result = record {
  object_name = key.0;
  version_id = key.1;
  delete_marker = result.delete_marker;
  delete_marker_version_id = if result.delete_marker then result.version_id else "";
}

abbrev pub Deleted : Type 0
Deleted = List ObjectIdentifier × List DeleteError

module _ {S : Type 0} (b : Backend S) (other_code : ℕ → Option ApiErrorCode) where
  -- the loop of `DeleteMultipleObjectsHandler`, with the two lists so far; `none` is a panic
  unfoldable pub delete_each :
      String → Credential → List (String × String) → Deleted → World S → Option Deleted × World S
  delete_each bucket credential [] so_far world = (some so_far, world)
  delete_each bucket credential (key ∷ keys) so_far world =
      let (r, world') = delete_object b bucket key.0 key.1 credential world in
      elim r [
        | ok result ↦
            delete_each bucket credential keys (so_far.0 ++ identifier key result ∷ [], so_far.1)
              world'
        | err e ↦
            delete_each bucket credential keys
              (so_far.0, so_far.1 ++ delete_error (fault_of other_code e) key ∷ []) world'
        | panicked ↦ (none, world')
      ]

module _ {S : Type 0} (b : Backend S) (other_code : ℕ → Option ApiErrorCode) (v : Verifier)
    (f : Formats) (c : Codecs) where
  -- `NewMultipartUploadHandler`
  unfoldable pub new_multipart_upload_handler : Request → Handler S Document (Unit {0})
  new_multipart_upload_handler r = do
    fail_if (not (is_valid_object_name c.decode_utf8 (codes r.object))) r
        (code Errors.invalid_object_name)
    credential ← authenticate v r
    acl ← checked r (get_acl_from_header r.header)
    sse ← checked r (parse_sse_header f.decode_base64 f.md5_base64 r.header)
    id ← call_storage other_code r (
        new_multipart_upload b credential r.bucket r.object (extract_metadata_from_header r.header)
          acl sse)
    answer (λ w.
        write_success_response
          (some
            (document (initiated (record { bucket = r.bucket; key = r.object; upload_id = id }))))
          (copy_headers sse_header_names r w))

  -- `AbortMultipartUploadHandler`
  unfoldable pub abort_multipart_upload_handler : Request → Handler S Document (Unit {0})
  abort_multipart_upload_handler r = do
    credential ← authenticate v r
    call_storage other_code r
        (abort_multipart_upload b credential r.bucket r.object (get r.query "uploadId"))
    answer write_success_no_content

  -- `ListObjectPartsHandler`. The two numbers of the query have been found to be 0 or more.
  unfoldable pub list_object_parts_handler :
      (String → Option ℤ) → (String → Bool) → Request → Handler S Document (Unit {0})
  list_object_parts_handler atoi valid_utf8 r = do
    credential ← authenticate v r
    request ← checked r (parse_list_object_parts_query atoi valid_utf8 r.query)
    found ← call_storage other_code r (
        list_object_parts b credential r.bucket r.object request.upload_id
          (pos_part request.part_number_marker) (pos_part request.max_parts))
    answer (write_success_response (some (document (parts_listed found))))

  abbrev has_length : ℤ → Bool
  has_length (pos n) = ltb 0 n
  has_length (negsuc n) = false

  -- the tests with which `DeleteMultipleObjectsHandler` begins
  unfoldable pub check_delete : Request → Handler S Document (Unit {0})
  check_delete r = do
    fail_if (not (has_length r.content_length)) r (code Errors.missing_content_length)
    fail_if (str_eq (get r.header "Content-Md5") "") r (code Errors.missing_content_md5)
    fail_if (not r.body_fine) r (code Errors.incomplete_body)
    fail_if (ltb (length r.body) (pos_part r.content_length)) r (code Errors.incomplete_body)

  -- the answer, with `GenerateMultiDeleteResponse`
  unfoldable pub answer_deleted :
      Bool
      → Option Deleted × World S
      → Response Document
      → Reply (Unit {0}) × (World S × Response Document)
  answer_deleted quiet (none, world) w = (crashed, (world, w))
  answer_deleted quiet (some (done, errors), world) w =
      answer
        (write_success_response (some (document (deleted (if quiet then [] else done) errors))))
        (world, w)

  abbrev decoded : Request → Option DeleteObjectsRequest → Handler S Document DeleteObjectsRequest
  decoded r none = fail r (code Errors.malformed_xml)
  decoded r (some request) = pure request

  -- `DeleteMultipleObjectsHandler`; `parse_delete` decodes the XML of the body
  unfoldable pub delete_multiple_objects_handler :
      (Bytes → Option DeleteObjectsRequest) → Request → Handler S Document (Unit {0})
  delete_multiple_objects_handler parse_delete r = do
    credential ← authenticate v r
    check_delete r
    request ← decoded r (parse_delete (take (pos_part r.content_length) r.body))
    λ st.
        answer_deleted request.quiet
          (delete_each b other_code r.bucket credential request.objects ([], []) st.0) st.1
