-- ===== src/Api/BucketHandlers.antt =====
-- The handlers of buckets (api/bucket-handlers.go), and `isValidLocationConstraint`
-- (api/handler-utils.go), `CorsFromXml` (api/datatype/cors.go), `VersioningFromXml`
-- (api/datatype/versioning.go). The decoding of XML is a parameter.
use yig.Prelude.{
  ℕ, String, Bool, List, Option, none, some, str_eq, if◌then◌else◌, not, codes, ◌&&◌, take, map,
}
use yig.Types.{Bytes, Credential, Acl, Bucket, CorsRule, LcRule}
use yig.Storage.{Backend}
use yig.Errors
use yig.Errors.{ApiErrorCode}
use yig.Names.{is_valid_bucket_name}
use yig.Acl.{AccessControlPolicy}
use yig.Buckets.{
  make_bucket, set_bucket_acl, set_bucket_lc, get_bucket_lc, del_bucket_lc, get_bucket_acl,
  get_bucket_info, list_buckets, delete_bucket,
}
use yig.Api.{
  get, has, Request, document, code, set_header, write_success_response, write_success_no_content,
}
use yig.Api.Auth.{Verifier, granted, refused, is_req_authenticated}
use yig.Api.Sse.{Checked, fine, wrong, get_acl_from_header}
use yig.Api.Handler.{
  Handler, pure, ◌>>=◌, ◌>>◌, answer, fail, fail_if, call_storage, checked, authenticate,
}
use yig.Api.Write.{no_acl, no_policy}
use yig.Api.Documents.{Document, policy, buckets_listed, location, lifecycle}

-- What the handlers of buckets are given: the region of the configuration, the cleaned path,
-- `strings.ToLower`, and what the decoder makes of a body.
pub record BucketCodecs : Type 0 where
  pub region : String
  pub clean_path : String → String
  pub to_lower : String → String
  -- the decoder ends with `io.EOF`; and the location, `none` where it ends with another error
  pub gives_eof : Bytes → Bool
  pub parse_location : Bytes → Option String
  pub parse_policy : Bytes → Option AccessControlPolicy
  pub parse_lc : Bytes → Option (List LcRule)
  pub parse_cors : Bytes → Option (List CorsRule)
  pub parse_versioning : Bytes → Option String

-- `isValidLocationConstraint`
unfoldable pub is_valid_location_constraint : BucketCodecs → Request → Checked (Unit {0})
is_valid_location_constraint c r =
    if c.gives_eof r.body then fine tt else (elim (c.parse_location r.body) [
      | none ↦ wrong (code Errors.malformed_xml)
      | some given ↦
          if not (str_eq given "") && not (str_eq c.region given)
          then wrong (code Errors.invalid_region)
          else fine tt
    ])

module _ {S : Type 0} (b : Backend S) (other_code : ℕ → Option ApiErrorCode) (v : Verifier)
    (c : BucketCodecs) where
  -- the handlers that take no anonymous request
  unfoldable pub signed_by : Request → Handler S Document Credential
  signed_by r = elim (is_req_authenticated v r) [
    | granted credential ↦ pure credential
    | refused e ↦ fail r e
  ]

  -- `io.LimitReader` and `ioutil.ReadAll`, then the decoder; `unread` and `undecoded` are the errors
  unfoldable pub body_of :
      {A : Type 0}
      → Request
      → ℕ
      → (Bytes → Option A)
      → ApiErrorCode
      → ApiErrorCode
      → Handler S Document A
  body_of r limit parse unread undecoded =
      if not r.body_fine
      then fail r (code unread)
      else (elim (parse (take limit r.body)) [ none ↦ fail r (code undecoded) | some a ↦ pure a ])

  -- `GetBucketLocationHandler`
  unfoldable pub get_bucket_location_handler : Request → Handler S Document (Unit {0})
  get_bucket_location_handler r = do
    credential ← authenticate v r
    call_storage other_code r (get_bucket_info b r.bucket credential)
    answer (write_success_response (some (document (location c.region))))

  -- `ListBucketsHandler`, with `GenerateListBucketsResponse`
  unfoldable pub list_buckets_handler : Request → Handler S Document (Unit {0})
  list_buckets_handler r = do
    credential ← signed_by r
    found ← call_storage other_code r (list_buckets b credential)
    answer (
        write_success_response (
          some (
            document
              (buckets_listed credential (map (λ (x : Bucket). (x.name, x.create_time)) found)))))

  -- `PutBucketHandler`
  unfoldable pub put_bucket_handler : Request → Handler S Document (Unit {0})
  put_bucket_handler r = do
    fail_if (not (is_valid_bucket_name (codes (c.to_lower r.bucket)))) r
        (code Errors.invalid_bucket_name)
    credential ← signed_by r
    fail_if (str_eq (get r.header "Content-Length") "") r (code Errors.invalid_header)
    acl ← checked r (get_acl_from_header r.header)
    checked r (is_valid_location_constraint c r)
    call_storage other_code r (make_bucket b (c.to_lower r.bucket) acl credential)
    answer (λ w. write_success_response none (set_header "Location" (c.clean_path r.path) w))

  -- `PutBucketLifeCycleHandler`
  unfoldable pub put_bucket_life_cycle_handler : Request → Handler S Document (Unit {0})
  put_bucket_life_cycle_handler r = do
    credential ← signed_by r
    lc ← body_of r 4096 c.parse_lc Errors.invalid_lc Errors.internal_error
    call_storage other_code r (set_bucket_lc b r.bucket lc credential)
    answer (write_success_response none)

  -- `GetBucketLifeCycleHandler`
  unfoldable pub get_bucket_life_cycle_handler : Request → Handler S Document (Unit {0})
  get_bucket_life_cycle_handler r = do
    credential ← authenticate v r
    lc ← call_storage other_code r (get_bucket_lc b r.bucket credential)
    answer (write_success_response (some (document (lifecycle lc))))

  -- `DelBucketLifeCycleHandler`
  unfoldable pub del_bucket_life_cycle_handler : Request → Handler S Document (Unit {0})
  del_bucket_life_cycle_handler r = do
    credential ← signed_by r
    call_storage other_code r (del_bucket_lc b r.bucket credential)
    answer write_success_no_content

  -- The ACL and the policy of `PutBucketAclHandler`: a bad canned ACL is ErrInvalidAcl here.
  unfoldable pub bucket_acl_and_policy : Request → Handler S Document (Acl × AccessControlPolicy)
  bucket_acl_and_policy r =
      if has r.header "X-Amz-Acl"
      then (elim (get_acl_from_header r.header) [
        | fine acl ↦ pure (acl, no_policy)
        | wrong _ ↦ fail r (code Errors.invalid_acl)
      ])
      else (body_of r 1024 c.parse_policy Errors.invalid_acl Errors.internal_error >>= λ given.
          pure (no_acl, given))

  -- `PutBucketAclHandler`
  unfoldable pub put_bucket_acl_handler : Request → Handler S Document (Unit {0})
  put_bucket_acl_handler r = do
    credential ← signed_by r
    asked ← bucket_acl_and_policy r
    call_storage other_code r (set_bucket_acl b r.bucket asked.1 asked.0 credential)
    answer (write_success_response none)

  -- `GetBucketAclHandler`
  unfoldable pub get_bucket_acl_handler : Request → Handler S Document (Unit {0})
  get_bucket_acl_handler r = do
    credential ← authenticate v r
    found ← call_storage other_code r (get_bucket_acl b r.bucket credential)
    answer (write_success_response (some (document (policy found))))

  -- `GetBucketPolicyHandler`
  unfoldable pub get_bucket_policy_handler : Request → Handler S Document (Unit {0})
  get_bucket_policy_handler r = signed_by r >> fail r (code Errors.no_such_bucket_policy)

  -- `HeadBucketHandler`
  unfoldable pub head_bucket_handler : Request → Handler S Document (Unit {0})
  head_bucket_handler r = do
    credential ← authenticate v r
    call_storage other_code r (get_bucket_info b r.bucket credential)
    answer (write_success_response none)

  -- `DeleteBucketHandler`
  unfoldable pub delete_bucket_handler : Request → Handler S Document (Unit {0})
  delete_bucket_handler r = do
    credential ← signed_by r
    call_storage other_code r (delete_bucket b r.bucket credential)
    answer write_success_no_content
