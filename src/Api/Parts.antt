-- ===== src/Api/Parts.antt =====
-- `PutObjectPartHandler` and `CompleteMultipartUploadHandler` (api/object-handlers.go). The XML
-- decoder, base64 and the cleaning of a path are parameters.
use Prim.Native.Char.{code as rune}
use yig.Prelude.{
  ℕ, String, Bool, true, List, [], ◌∷◌, map, Option, none, some, str_eq, if◌then◌else◌, not, ◌==◌,
  ◌&&◌,
}
use yig.Prelude.Int.{ℤ, pos_part, ltb_ℤ}
use yig.Types.{Bytes, CompletePart}
use yig.Storage.{Backend, Error, part_too_small}
use yig.Errors
use yig.Errors.{ApiErrorCode}
use yig.Preconditions.{quote_sign}
use yig.Multipart.Handlers.{CompleteResult, put_object_part}
use yig.Multipart.Complete.{complete_multipart_upload}
use yig.Api.{
  get, Request, Response, document, code, set_header, write_success_response,
  write_part_small_error_response,
}
use yig.Api.Auth.{Verifier, verify_upload}
use yig.Api.Sse.{Checked, fine, wrong, parse_sse_header, is_max_object_size}
use yig.Api.Handler.{
  Handler, pure, ◌>>=◌, ◌>>◌, answer, fail, fail_if, call_or, call_storage, authenticate, fault_of,
}
use yig.Api.ObjectHeaders.{Formats, set_etag}
use yig.Api.Write.{Codecs, is_minus_one, set_unless_empty, signed_of, the_verdict}
use yig.Api.Copies.{part_number_of}
use yig.Api.Documents.{Document, CompleteMultipartUploadResponse, completed}

-- What these two take besides: base64, the cleaned path, `strconv.Itoa`, and the parts that the
-- decoder finds in a body, each a number and its digest.
pub record PartCodecs : Type 0 where
  pub encode_base64 : Bytes → String
  pub text_base64 : String → String
  pub clean_path : String → String
  pub decimal : ℕ → String
  pub parse_complete : Bytes → Option (List (ℤ × String))

module _ {D : Type 0} (k : PartCodecs) where
  -- the headers on the encryption of what was uploaded
  unfoldable pub set_sse_result : String → String → Bytes → Response D → Response D
  set_sse_result type key_id customer_key w =
      if str_eq type "KMS"
      then set_header "X-Amz-Server-Side-Encryption-Aws-Kms-Key-Id" (k.text_base64 key_id)
          (set_header "X-Amz-Server-Side-Encryption" "aws:kms" w)
      else if str_eq type "S3"
      then set_header "X-Amz-Server-Side-Encryption" "AES256" w
      else if str_eq type "C"
      then set_header "X-Amz-Server-Side-Encryption-Customer-Key-Md5" (k.encode_base64 customer_key)
          (set_header "X-Amz-Server-Side-Encryption-Customer-Algorithm" "AES256" w)
      else w

-- `strings.TrimPrefix(etag, "\"")` and `strings.TrimSuffix(etag, "\"")`
unfoldable pub trim_quote : String → String
trim_quote String.[] = ""
trim_quote (String.◌∷◌ c s) = if rune c == quote_sign then s else String.◌∷◌ c s

unfoldable pub trim_last_quote : String → String
trim_last_quote String.[] = ""
trim_last_quote (String.◌∷◌ c String.[]) = if rune c == quote_sign then "" else String.◌∷◌ c ""
trim_last_quote (String.◌∷◌ c (String.◌∷◌ d s)) = String.◌∷◌ c (trim_last_quote (String.◌∷◌ d s))

-- A part of the request. `CompleteMultipartUpload` refuses the number 0 at the place where it would
-- refuse a negative one.
unfoldable pub complete_part : ℤ × String → CompletePart
complete_part p = record { part_number = pos_part p.0; etag = trim_last_quote (trim_quote p.1) }

-- `sort.IsSorted` by `CompletedParts.Less`
unfoldable pub is_sorted : List (ℤ × String) → Bool
is_sorted [] = true
is_sorted (p ∷ []) = true
is_sorted (p ∷ q ∷ ps) = not (ltb_ℤ q.0 p.0) && is_sorted (q ∷ ps)

module _ {S : Type 0} (b : Backend S) (other_code : ℕ → Option ApiErrorCode) (v : Verifier)
    (f : Formats) (c : Codecs) (k : PartCodecs) where
  -- The digest that the client has sent. One that is not valid counts as none.
  abbrev incoming_md5 : Request → String
  incoming_md5 r = elim (c.check_valid_md5 (get r.header "Content-Md5")) [
    | none ↦ ""
    | some bytes ↦ c.encode_hex bytes
  ]

  -- whatever is wrong with the headers is answered as the same error
  abbrev sse_or_invalid : {A : Type 0} → Request → Checked A → Handler S Document A
  sse_or_invalid r (fine sse) = pure sse
  sse_or_invalid r (wrong e) = fail r (code Errors.invalid_sse_header)

  -- `PutObjectPartHandler`; a length that is not -1 is none or more
  unfoldable pub put_object_part_handler :
      (String → Option ℕ) → Request → Handler S Document (Unit {0})
  put_object_part_handler atoi r = do
    fail_if (is_minus_one r.content_length) r (code Errors.missing_content_length)
    fail_if (is_max_object_size r.content_length) r (code Errors.entity_too_large)
    part_id ← part_number_of atoi r
    sse ← sse_or_invalid r (parse_sse_header f.decode_base64 f.md5_base64 r.header)
    credential ← the_verdict b other_code v f c r (verify_upload v r).0
    result ← call_storage other_code r (
        put_object_part b r.bucket r.object credential (get r.query "uploadId") part_id
          (pos_part r.content_length)
          (record { content = r.body; signed = signed_of b other_code v f c (verify_upload v r).1 })
          (incoming_md5 r) sse)
    answer (λ w. write_success_response none (
        set_sse_result k result.sse_type result.sse_aws_kms_key_id result.sse_customer_key
          (set_etag result.etag w)))

  -- the parts of the request
  unfoldable pub read_parts : Request → Handler S Document (List (ℤ × String))
  read_parts r = do
    fail_if (not r.body_fine) r (code Errors.internal_error)
    elim (k.parse_complete r.body) [
      | none ↦ fail r (code Errors.malformed_xml)
      | some [] ↦ fail r (code Errors.malformed_xml)
      | some (p ∷ ps) ↦
          fail_if (not (is_sorted (p ∷ ps))) r (code Errors.invalid_part_order) >> pure (p ∷ ps)
    ]

  -- A part that is too small has an answer of its own.
  unfoldable pub refuse_completion : {A : Type 0} → Request → Error → Handler S Document A
  refuse_completion r (part_too_small size number etag) =
      answer (write_part_small_error_response size number etag)
  refuse_completion r e = fail r (fault_of other_code e)

  -- `GenerateCompleteMultpartUploadResponse`
  unfoldable pub generate_complete_response :
      Request → CompleteResult → CompleteMultipartUploadResponse
  generate_complete_response r result = record {
    location = k.clean_path r.path;
    bucket = r.bucket;
    key = r.object;
    etag = result.etag;
  }

  -- `CompleteMultipartUploadHandler`
  unfoldable pub complete_multipart_upload_handler : Request → Handler S Document (Unit {0})
  complete_multipart_upload_handler r = do
    credential ← authenticate v r
    parts ← read_parts r
    result ←
        call_or
          (complete_multipart_upload b k.decimal credential r.bucket r.object
            (get r.query "uploadId") (map complete_part parts))
          (refuse_completion r)
    answer (λ w.
        write_success_response (some (document (completed (generate_complete_response r result)))) (
          set_sse_result k result.sse_type result.sse_aws_kms_key_id result.sse_customer_key
            (set_unless_empty result.version_id "x-amz-version-id" result.version_id w)))
