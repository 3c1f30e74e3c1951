-- ===== src/Errors/Codes.antt =====
-- The codes of the errors that a request can end with (error/api-errors.go).

pub data ApiErrorCode : Type 0 where
  access_denied bad_digest bucket_already_exists empty_entity : ApiErrorCode
  entity_too_large incomplete_body internal_error invalid_access_key_id : ApiErrorCode
  invalid_bucket_name invalid_object_name invalid_digest invalid_range : ApiErrorCode
  invalid_encoding_type invalid_continuation_token invalid_max_keys : ApiErrorCode
  invalid_max_uploads invalid_max_parts invalid_part_number_marker : ApiErrorCode
  invalid_request_body invalid_copy_source invalid_copy_dest : ApiErrorCode
  invalid_precondition invalid_policy_document invalid_cors_document : ApiErrorCode
  invalid_versioning malformed_xml missing_content_length : ApiErrorCode
  missing_content_md5 missing_request_body_error no_such_bucket : ApiErrorCode
  no_such_bucket_policy no_such_key no_such_upload no_such_version : ApiErrorCode
  not_implemented precondition_failed request_time_too_skewed : ApiErrorCode
  signature_does_not_match method_not_allowed invalid_part : ApiErrorCode
  invalid_part_order authorization_header_malformed : ApiErrorCode
  malformed_post_request signature_version_not_supported : ApiErrorCode
  bucket_not_empty bucket_access_forbidden malformed_policy : ApiErrorCode
  missing_fields missing_cred_tag cred_malformed invalid_region : ApiErrorCode
  invalid_service invalid_request_version missing_sign_tag : ApiErrorCode
  missing_sign_headers_tag missing_required_signed_header : ApiErrorCode
  signed_headers_not_sorted policy_already_expired policy_violation : ApiErrorCode
  malformed_date malformed_expires auth_header_empty : ApiErrorCode
  expired_presign_request missing_date_header : ApiErrorCode
  invalid_query_signature_algo invalid_query_params : ApiErrorCode
  bucket_already_owned_by_you invalid_canned_acl invalid_sse_header : ApiErrorCode
  too_many_buckets content_sha256_mismatch content_not_modified : ApiErrorCode
  invalid_header no_such_bucket_cors policy_missing_fields invalid_acl : ApiErrorCode
  unsupported_acl non_utf8_encode invalid_lc no_such_bucket_lc : ApiErrorCode
