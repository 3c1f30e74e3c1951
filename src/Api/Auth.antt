-- ===== src/Api/Auth.antt =====
-- How a request is signed, and the check of its signature (signature/auth-handler.go,
-- signature/verify-reader.go). The four checks of a signature, and the digests, are fields of
-- `Verifier`.
use yig.Prelude.{
  String, Bool, false, Option, none, some, str_eq, if◌then◌else◌, not, has_prefix, contains, ◌&&◌,
}
use yig.Types.{Bytes, Credential}
use yig.Errors.{access_denied, bad_digest, internal_error}
use yig.Api.{Request, Fault, code, get, has}

pub data AuthType : Type 0 where
  unknown anonymous presigned_v4 presigned_v2 post_policy signed_v4 signed_v2 : AuthType

-- `isRequestSignature`; `none` is its answer `false`
unfoldable pub is_request_signature : Request → Option AuthType
is_request_signature r =
    if not (has r.header "Authorization")
    then none
    else if str_eq (get r.header "Authorization") ""
    then none
    else if has_prefix (get r.header "Authorization") "AWS4-HMAC-SHA256 "
    then some signed_v4
    else if has_prefix (get r.header "Authorization") "AWS "
    then some signed_v2
    else none

-- `isRequestPresigned`
unfoldable pub is_request_presigned : Request → Option AuthType
is_request_presigned r =
    if has r.query "X-Amz-Credential"
    then some presigned_v4
    else if has r.query "AWSAccessKeyId"
    then some presigned_v2
    else none

-- `isRequestPostPolicySignature`
unfoldable pub is_request_post_policy_signature : Request → Bool
is_request_post_policy_signature r =
    if not (str_eq r.method "POST")
    then false
    else if has r.header "Content-Type"
    then contains (get r.header "Content-Type") "multipart/form-data"
    else false

-- `GetRequestAuthType`
unfoldable pub get_request_auth_type : Request → AuthType
get_request_auth_type r = elim (is_request_signature r) [
  | some version ↦ version
  | none ↦ elim (is_request_presigned r) [
    | some version ↦ version
    | none ↦
        if is_request_post_policy_signature r
        then post_policy
        else if not (has r.header "Authorization")
        then anonymous
        else unknown
  ]
]

pub data Verdict : Type 0 where
  granted : Credential → Verdict
  refused : Fault → Verdict

pub record Verifier : Type 0 where
  pub does_presigned_signature_match_v4 : Request → Verdict
  -- with the digest of the payload
  pub does_signature_match_v4 : String → Request → Verdict
  pub does_presigned_signature_match_v2 : Request → Verdict
  pub does_signature_match_v2 : Request → Verdict
  pub get_credential_unverified : Request → Verdict
  -- `base64(md5(payload))` and `hex(sha256(payload))`
  pub md5_base64 : Bytes → String
  pub sha256_hex : Bytes → String

abbrev pub unsigned_payload : String
unsigned_payload = "UNSIGNED-PAYLOAD"

-- The credential of a request without a signature has empty fields.
abbrev pub nobody : Credential
nobody = record { user_id = ""; display_name = ""; access_key_id = ""; secret_access_key = "" }

module _ (v : Verifier) where
  -- `IsReqAuthenticated`
  unfoldable pub is_req_authenticated : Request → Verdict
  is_req_authenticated r =
      if not r.body_fine
      then refused (code internal_error)
      else if not (str_eq (get r.header "Content-Md5") "")
          && not (str_eq (get r.header "Content-Md5") (v.md5_base64 r.body))
      then refused (code bad_digest)
      else (elim (get_request_auth_type r) [
        | presigned_v4 ↦ v.does_presigned_signature_match_v4 r
        | signed_v4 ↦ v.does_signature_match_v4 (v.sha256_hex r.body) r
        | presigned_v2 ↦ v.does_presigned_signature_match_v2 r
        | signed_v2 ↦ v.does_signature_match_v2 r
        | _ ↦ refused (code access_denied)
      ])

  -- The `switch` with which the handlers begin.
  unfoldable pub credential_of : Request → Verdict
  credential_of r = elim (get_request_auth_type r) [
    | unknown ↦ refused (code access_denied)
    | post_policy ↦ refused (code access_denied)
    | anonymous ↦ granted nobody
    | _ ↦ is_req_authenticated r
  ]

  -- `SignVerifyReader.Verify`, when the body has been read
  unfoldable pub verify_reader : Request → Verdict
  verify_reader r =
      if str_eq (get r.header "X-Amz-Content-Sha256") unsigned_payload
      then v.does_signature_match_v4 unsigned_payload r
      else v.does_signature_match_v4 (v.sha256_hex r.body) r

  -- `VerifyUpload`, and what `Verify` will say, where the reader is a `SignVerifyReader`
  unfoldable pub verify_upload : Request → Verdict × Option Verdict
  verify_upload r = elim (get_request_auth_type r) [
    | unknown ↦ (refused (code access_denied), none)
    | post_policy ↦ (refused (code access_denied), none)
    | anonymous ↦ (granted nobody, none)
    | signed_v2 ↦ (v.does_signature_match_v2 r, none)
    | signed_v4 ↦ (v.get_credential_unverified r, some (verify_reader r))
    | presigned_v2 ↦ (v.does_presigned_signature_match_v2 r, none)
    | presigned_v4 ↦ (v.does_presigned_signature_match_v4 r, none)
  ]
