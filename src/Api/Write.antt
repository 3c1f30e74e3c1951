-- ===== src/Api/Write.antt =====
-- `PutObjectHandler`, `PutObjectAclHandler`, `GetObjectAclHandler` and `DeleteObjectHandler`
-- (api/object-handlers.go). The decoding of base64, hex and XML are parameters.
use yig.Prelude.{
  ℕ, zero, suc, String, Bool, true, false, List, [], Option, none, some, str_eq, if◌then◌else◌, not,
  codes, ◌&&◌, take,
}
use yig.Prelude.Int.{ℤ, pos, negsuc}
use yig.Types.{Bytes, Texts, Credential, Acl}
use yig.Storage.{other, Backend, Outcome, ok, err}
use yig.Errors
use yig.Errors.{ApiErrorCode}
use yig.Names.{is_valid_object_name}
use yig.Acl.{AccessControlPolicy}
use yig.Objects.{get_object_acl, set_object_acl}
use yig.Put.{put_object, PutObjectResult}
use yig.Versions.Delete.{delete_object, DeleteObjectResult}
use yig.Api.{
  get, has, Request, Response, document, Fault, code, set_header, write_success_response,
  write_success_no_content, copy_headers, sse_header_names,
}
use yig.Api.Auth.{Verifier, Verdict, granted, refused, verify_upload}
use yig.Api.Sse.{
  parse_sse_header, get_acl_from_header, acl_or_private, extract_metadata_from_header, put_text,
  string_in_slice, is_max_object_size,
}
use yig.Api.Handler.{
  Handler, pure, ◌>>=◌, ◌>>◌, answer, fail, fail_if, call_storage, checked, authenticate,
}
use yig.Api.ObjectHeaders.{Formats, quoted}
use yig.Api.Documents.{Document, policy}

-- The codecs that a handler of a write uses.
pub record Codecs : Type 0 where
  -- the runes of a text that is UTF-8
  pub decode_utf8 : Bytes → Option (List ℕ)
  -- `checkValidMD5`, and `hex.EncodeToString`
  pub check_valid_md5 : String → Option Bytes
  pub encode_hex : Bytes → String
  -- `xml.Unmarshal` of a policy
  pub parse_policy : Bytes → Option AccessControlPolicy
  -- the number under which the storage layer passes on an error that is not its own
  pub error_number : Fault → ℕ

abbrev pub no_acl : Acl
no_acl = record { canned_acl = "" }

abbrev pub no_policy : AccessControlPolicy
no_policy = record { id = ""; display_name = ""; access_control_list = [] }

abbrev pub minus_one : ℤ
minus_one = negsuc 0

abbrev pub is_minus_one : ℤ → Bool
is_minus_one (pos n) = false
is_minus_one (negsuc zero) = true
is_minus_one (negsuc (suc n)) = false

-- the size of the body, or -1
unfoldable pub upload_size : Request → ℤ
upload_size r = if has r.header "Content-Length" then r.content_length else minus_one

module _ {D : Type 0} where
  abbrev pub set_unless_empty : String → String → String → Response D → Response D
  set_unless_empty test key value w = if str_eq test "" then w else set_header key value w

  -- the headers of the answer to a `PutObject`
  unfoldable pub put_headers : Request → PutObjectResult → Response D → Response D
  put_headers r result w = copy_headers sse_header_names r (
      set_unless_empty result.version_id "x-amz-version-id" result.version_id
        (set_unless_empty result.md5 "ETag" (quoted result.md5) w))

module _ {S : Type 0} (b : Backend S) (other_code : ℕ → Option ApiErrorCode) (v : Verifier)
    (f : Formats) (c : Codecs) where
  abbrev pub outcome_of : Verdict → Outcome Credential
  outcome_of (granted credential) = ok credential
  outcome_of (refused e) = err (other (c.error_number e))

  abbrev pub signed_of : Option Verdict → Option (Outcome Credential)
  signed_of none = none
  signed_of (some verdict) = some (outcome_of verdict)

  -- the metadata with the digest that the client has sent
  unfoldable pub metadata_of : Request → Handler S Document Texts
  metadata_of r =
      let metadata = extract_metadata_from_header r.header in
      if not (has r.header "Content-Md5")
      then pure (put_text "md5Sum" "" metadata)
      else if str_eq (get r.header "Content-Md5") ""
      then fail r (code Errors.invalid_digest)
      else (elim (c.check_valid_md5 (get r.header "Content-Md5")) [
        | none ↦ fail r (code Errors.invalid_digest)
        | some bytes ↦ pure (put_text "md5Sum" (c.encode_hex bytes) metadata)
      ])

  -- the tests with which `PutObjectHandler` begins
  unfoldable pub check_put : Request → Handler S Document (Unit {0})
  check_put r = do
    fail_if (has r.header "X-Amz-Copy-Source") r (code Errors.invalid_copy_source)
    fail_if (not (is_valid_object_name c.decode_utf8 (codes r.object))) r
        (code Errors.invalid_object_name)
    fail_if (is_minus_one (upload_size r) && not (string_in_slice "chunked" r.transfer_encoding)) r
        (code Errors.missing_content_length)
    fail_if (is_max_object_size (upload_size r)) r (code Errors.entity_too_large)

  abbrev pub the_verdict : Request → Verdict → Handler S Document Credential
  the_verdict r (granted credential) = pure credential
  the_verdict r (refused e) = fail r e

  -- `PutObjectHandler`
  unfoldable pub put_object_handler : Request → Handler S Document (Unit {0})
  put_object_handler r = do
    check_put r
    metadata ← metadata_of r
    sse ← checked r (parse_sse_header f.decode_base64 f.md5_base64 r.header)
    acl ← checked r (get_acl_from_header r.header)
    credential ← the_verdict r (verify_upload v r).0
    result ← call_storage other_code r (
        put_object b r.bucket r.object credential (upload_size r)
          (record { content = r.body; signed = signed_of (verify_upload v r).1 }) metadata acl sse)
    answer (λ w. write_success_response none (put_headers r result w))

  -- The ACL and the policy of the request. The error of `getAclFromHeader` is not looked at.
  unfoldable pub acl_and_policy : Request → Handler S Document (Acl × AccessControlPolicy)
  acl_and_policy r =
      if has r.header "X-Amz-Acl"
      then pure (acl_or_private (get r.header "X-Amz-Acl"), no_policy)
      else if not r.body_fine
      then fail r (code Errors.invalid_acl)
      else (elim (c.parse_policy (take 1024 r.body)) [
        | none ↦ fail r (code Errors.internal_error)
        | some given ↦ pure (no_acl, given)
      ])

  abbrev set_version : Request → Response Document → Response Document
  set_version r w =
      set_unless_empty (get r.query "versionId") "x-amz-version-id" (get r.query "versionId") w

  -- `PutObjectAclHandler`
  unfoldable pub put_object_acl_handler : Request → Handler S Document (Unit {0})
  put_object_acl_handler r = do
    credential ← authenticate v r
    asked ← acl_and_policy r
    call_storage other_code r
        (set_object_acl b r.bucket r.object (get r.query "versionId") asked.1 asked.0 credential)
    answer (λ w. write_success_response none (set_version r w))

  -- `GetObjectAclHandler`
  unfoldable pub get_object_acl_handler : Request → Handler S Document (Unit {0})
  get_object_acl_handler r = do
    credential ← authenticate v r
    found ←
        call_storage other_code r
          (get_object_acl b r.bucket r.object (get r.query "versionId") credential)
    answer (λ w. write_success_response (some (document (policy found))) (set_version r w))

  -- the answer to a deletion
  unfoldable pub answer_delete : DeleteObjectResult → Response Document → Response Document
  answer_delete result w = write_success_no_content (
      set_unless_empty result.version_id "x-amz-version-id" result.version_id
        (set_header "x-amz-delete-marker" (if result.delete_marker then "true" else "false") w))

  -- `DeleteObjectHandler`
  unfoldable pub delete_object_handler : Request → Handler S Document (Unit {0})
  delete_object_handler r = do
    credential ← authenticate v r
    result ←
        call_storage other_code r
          (delete_object b r.bucket r.object (get r.query "versionId") credential)
    answer (answer_delete result)
