-- ===== src/Api/BucketSettings.antt =====
-- The handlers of the CORS rules and of the versioning of a bucket (api/bucket-handlers.go), with
-- `CorsFromXml` (api/datatype/cors.go) and `VersioningFromXml` (api/datatype/versioning.go).
use yig.Prelude.{
  ℕ, String, Bool, false, List, [], ◌∷◌, Option, none, some, str_eq, if◌then◌else◌, not, ◌||◌, take,
  length, ◌==◌, ◌*◌,
}
use yig.Prelude.Int.{ℤ, pos, negsuc, ltb_ℤ}
use yig.Types.{CorsRule}
use yig.Storage.{Backend}
use yig.Errors
use yig.Errors.{ApiErrorCode}
use yig.Buckets.{
  set_bucket_cors, delete_bucket_cors, get_bucket_cors, set_bucket_versioning,
  get_bucket_versioning,
}
use yig.Api.{Request, document, code, write_success_response, write_success_no_content}
use yig.Api.Auth.{Verifier}
use yig.Api.Sse.{Checked, fine, wrong, string_in_slice}
use yig.Api.Handler.{Handler, pure, ◌>>=◌, ◌>>◌, answer, fail_if, call_storage, checked}
use yig.Api.Documents.{Document, versioning, cors}
use yig.Api.BucketHandlers.{BucketCodecs, signed_by}

-- `CorsFromXml`, on what has been decoded
unfoldable pub has_empty_rule : List CorsRule → Bool
has_empty_rule [] = false
has_empty_rule (rule ∷ rules) =
    length rule.allowed_methods == 0 || length rule.allowed_origins == 0 || has_empty_rule rules

unfoldable pub cors_from_xml : Option (List CorsRule) → Checked (List CorsRule)
cors_from_xml none = wrong (code Errors.invalid_cors_document)
cors_from_xml (some rules) =
    if length rules == 0
    then wrong (code Errors.invalid_cors_document)
    else if has_empty_rule rules
    then wrong (code Errors.invalid_cors_document)
    else fine rules

-- `VersioningFromXml`, on what has been decoded
unfoldable pub versioning_from_xml : Option String → Checked String
versioning_from_xml none = wrong (code Errors.invalid_versioning)
versioning_from_xml (some status) =
    if str_eq status "Enabled" || str_eq status "Suspended"
    then fine status
    else wrong (code Errors.invalid_versioning)

abbrev max_cors_size : ℕ
max_cors_size = 64 * 1024

abbrev has_no_length : ℤ → Bool
has_no_length (pos n) = n == 0
has_no_length (negsuc n) = n == 0

module _ {S : Type 0} (b : Backend S) (other_code : ℕ → Option ApiErrorCode) (v : Verifier)
    (c : BucketCodecs) where
  -- the test on the length of a body that has a greatest size
  unfoldable pub check_length : Request → ℕ → Handler S Document (Unit {0})
  check_length r limit =
      if string_in_slice "chunked" r.transfer_encoding
      then pure tt
      else fail_if (has_no_length r.content_length) r (code Errors.missing_content_length)
        >> fail_if (ltb_ℤ (pos limit) r.content_length) r (code Errors.entity_too_large)

  -- `PutBucketCorsHandler`
  unfoldable pub put_bucket_cors_handler : Request → Handler S Document (Unit {0})
  put_bucket_cors_handler r = do
    credential ← signed_by b other_code v c r
    check_length r max_cors_size
    fail_if (not r.body_fine) r (code Errors.internal_error)
    rules ← checked r (cors_from_xml (c.parse_cors (take max_cors_size r.body)))
    call_storage other_code r (set_bucket_cors b r.bucket rules credential)
    answer (write_success_response none)

  -- `DeleteBucketCorsHandler`
  unfoldable pub delete_bucket_cors_handler : Request → Handler S Document (Unit {0})
  delete_bucket_cors_handler r = do
    credential ← signed_by b other_code v c r
    call_storage other_code r (delete_bucket_cors b r.bucket credential)
    answer write_success_no_content

  -- `GetBucketCorsHandler`
  unfoldable pub get_bucket_cors_handler : Request → Handler S Document (Unit {0})
  get_bucket_cors_handler r = do
    credential ← signed_by b other_code v c r
    rules ← call_storage other_code r (get_bucket_cors b r.bucket credential)
    answer (write_success_response (some (document (cors rules))))

  -- `GetBucketVersioningHandler`
  unfoldable pub get_bucket_versioning_handler : Request → Handler S Document (Unit {0})
  get_bucket_versioning_handler r = do
    credential ← signed_by b other_code v c r
    status ← call_storage other_code r (get_bucket_versioning b r.bucket)
    answer (write_success_response (some (document (versioning status))))

  -- `PutBucketVersioningHandler`
  unfoldable pub put_bucket_versioning_handler : Request → Handler S Document (Unit {0})
  put_bucket_versioning_handler r = do
    credential ← signed_by b other_code v c r
    check_length r 1024
    fail_if (not r.body_fine) r (code Errors.internal_error)
    status ← checked r (versioning_from_xml (c.parse_versioning (take 1024 r.body)))
    call_storage other_code r (set_bucket_versioning b r.bucket status credential)
    answer (write_success_response none)
