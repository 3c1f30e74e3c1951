-- ===== src/Errors/Table.antt =====
-- The table of the errors (error/api-errors.go): the code and the text of the answer, and its status.
use yig.Prelude.{ℕ, String, Option, none, some}
use yig.Errors.Codes.{
  ApiErrorCode, access_denied, bad_digest, bucket_already_exists, empty_entity, entity_too_large,
  incomplete_body, internal_error, invalid_access_key_id, invalid_bucket_name, invalid_object_name,
  invalid_digest, invalid_range, invalid_encoding_type, invalid_continuation_token,
  invalid_max_keys, invalid_max_uploads, invalid_max_parts, invalid_part_number_marker,
  invalid_request_body, invalid_copy_source, invalid_copy_dest, invalid_precondition,
  invalid_policy_document, invalid_cors_document, invalid_versioning, malformed_xml,
  missing_content_length, missing_content_md5, missing_request_body_error, no_such_bucket,
  no_such_bucket_policy, no_such_key, no_such_upload, no_such_version, not_implemented,
  precondition_failed, request_time_too_skewed, signature_does_not_match, method_not_allowed,
  invalid_part, invalid_part_order, authorization_header_malformed, malformed_post_request,
  signature_version_not_supported, bucket_not_empty, bucket_access_forbidden, malformed_policy,
  missing_fields, missing_cred_tag, cred_malformed, invalid_region, invalid_service,
  invalid_request_version, missing_sign_tag, missing_sign_headers_tag,
  missing_required_signed_header, signed_headers_not_sorted, policy_already_expired,
  policy_violation, malformed_date, malformed_expires, auth_header_empty, expired_presign_request,
  missing_date_header, invalid_query_signature_algo, invalid_query_params,
  bucket_already_owned_by_you, invalid_canned_acl, invalid_sse_header, too_many_buckets,
  content_sha256_mismatch, content_not_modified, invalid_header, no_such_bucket_cors,
  policy_missing_fields, invalid_acl, unsupported_acl, non_utf8_encode, invalid_lc,
  no_such_bucket_lc,
}

pub record ApiErrorStruct : Type 0 where
  pub aws_error_code : String
  pub description : String
  pub http_status_code : ℕ

abbrev bad_request_status : ℕ
bad_request_status = 400

abbrev forbidden_status : ℕ
forbidden_status = 403

abbrev not_found_status : ℕ
not_found_status = 404

abbrev conflict_status : ℕ
conflict_status = 409

abbrev length_required_status : ℕ
length_required_status = 411

abbrev internal_server_error_status : ℕ
internal_server_error_status = 500

abbrev requested_range_not_satisfiable_status : ℕ
requested_range_not_satisfiable_status = 416

abbrev not_implemented_status : ℕ
not_implemented_status = 501

abbrev precondition_failed_status : ℕ
precondition_failed_status = 412

abbrev method_not_allowed_status : ℕ
method_not_allowed_status = 405

abbrev entry : String → String → ℕ → Option ApiErrorStruct
entry code text status =
    some (record { aws_error_code = code; description = text; http_status_code = status })

-- `ErrorCodeResponse`, the map; a code that is not in it gives `none`.
unfoldable pub error_code_response : ApiErrorCode → Option ApiErrorStruct
error_code_response invalid_copy_dest =
    entry "InvalidRequest"
      "This copy request is illegal because it is trying to copy an object to itself."
      bad_request_status
error_code_response invalid_copy_source =
    entry "InvalidArgument"
      "Copy Source must mention the source bucket and key: sourcebucket/sourcekey."
      bad_request_status
error_code_response invalid_precondition =
    entry "InvalidArgument"
      "The provided preconditions are not valid(bad time format, rule combination, etc)"
      bad_request_status
error_code_response invalid_request_body =
    entry "InvalidArgument" "Body shouldn't be set for this request." bad_request_status
error_code_response invalid_encoding_type =
    entry "InvalidEncodingType" "The encoding type you provided is not allowed." bad_request_status
error_code_response invalid_continuation_token =
    entry "ErrInvalidContinuationToken" "The continuation token you provided is invalid."
      bad_request_status
error_code_response invalid_max_uploads =
    entry "InvalidArgument" "Argument max-uploads must be an integer between 1 and 1000"
      bad_request_status
error_code_response invalid_max_keys =
    entry "InvalidArgument" "Argument maxKeys must be an integer between 1 and 1000"
      bad_request_status
error_code_response invalid_max_parts =
    entry "InvalidArgument" "Argument max-parts must be an integer between 1 and 1000"
      bad_request_status
error_code_response invalid_part_number_marker =
    entry "InvalidArgument" "Argument partNumberMarker must be an integer." bad_request_status
error_code_response invalid_policy_document =
    entry "InvalidPolicyDocument"
      "The content of the form does not meet the conditions specified in the policy document."
      bad_request_status
error_code_response invalid_cors_document =
    entry "InvalidCorsDocument" "The CORS XML you provided is invalid" bad_request_status
error_code_response invalid_versioning =
    entry "IllegalVersioningConfigurationException"
      "The versioning configuration specified in the request is invalid." bad_request_status
error_code_response access_denied = entry "AccessDenied" "Access Denied." forbidden_status
error_code_response bad_digest =
    entry "BadDigest" "The Content-Md5 you specified did not match what we received."
      bad_request_status
error_code_response bucket_already_exists =
    entry "BucketAlreadyExists" "The requested bucket name is not available." conflict_status
error_code_response empty_entity =
    entry "EmptyEntity" "Your upload does not include a valid object" bad_request_status
error_code_response entity_too_large =
    entry "EntityTooLarge" "Your proposed upload exceeds the maximum allowed object size."
      bad_request_status
error_code_response incomplete_body =
    entry "IncompleteBody"
      "You did not provide the number of bytes specified by the Content-Length HTTP header."
      bad_request_status
error_code_response internal_error =
    entry "InternalError" "We encountered an internal error, please try again."
      internal_server_error_status
error_code_response invalid_access_key_id =
    entry "InvalidAccessKeyId" "The access key ID you provided does not exist in our records."
      forbidden_status
error_code_response invalid_bucket_name =
    entry "InvalidBucketName" "The specified bucket name is not valid." bad_request_status
error_code_response invalid_object_name =
    entry "InvalidObjectName" "The specified object name is not valid" bad_request_status
error_code_response invalid_digest =
    entry "InvalidDigest" "The Content-Md5 you specified is not valid." bad_request_status
error_code_response invalid_range =
    entry "InvalidRange" "The requested range is not satisfiable"
      requested_range_not_satisfiable_status
error_code_response malformed_xml =
    entry "MalformedXML"
      "The XML you provided was not well-formed or did not validate against our published schema."
      bad_request_status
error_code_response missing_content_length =
    entry "MissingContentLength" "You must provide the Content-Length HTTP header."
      length_required_status
error_code_response missing_content_md5 =
    entry "MissingContentMD5" "Missing required header for this request: Content-Md5."
      bad_request_status
error_code_response missing_request_body_error =
    entry "MissingRequestBodyError" "Request body is empty." length_required_status
error_code_response no_such_bucket =
    entry "NoSuchBucket" "The specified bucket does not exist" not_found_status
error_code_response no_such_bucket_policy =
    entry "NoSuchBucketPolicy" "The specified bucket does not have a bucket policy."
      not_found_status
error_code_response no_such_key =
    entry "NoSuchKey" "The specified key does not exist." not_found_status
error_code_response no_such_upload =
    entry "NoSuchUpload" "The specified multipart upload does not exist." not_found_status
error_code_response no_such_version =
    entry "NoSuchVersion"
      "The version ID specified in the request does not match an existing version." not_found_status
error_code_response not_implemented =
    entry "NotImplemented" "A header you provided implies functionality that is not implemented"
      not_implemented_status
error_code_response precondition_failed =
    entry "PreconditionFailed" "At least one of the pre-conditions you specified did not hold"
      precondition_failed_status
error_code_response request_time_too_skewed =
    entry "RequestTimeTooSkewed"
      "The difference between the request time and the server's time is too large." forbidden_status
error_code_response signature_does_not_match =
    entry "SignatureDoesNotMatch"
      "The request signature we calculated does not match the signature you provided. Check your key and signing method."
      forbidden_status
error_code_response method_not_allowed =
    entry "MethodNotAllowed" "The specified method is not allowed against this resource."
      method_not_allowed_status
error_code_response invalid_part =
    entry "InvalidPart"
      "One or more of the specified parts could not be found. The part might not have been uploaded, or the specified entity tag might not have matched the part's entity tag."
      bad_request_status
error_code_response invalid_part_order =
    entry "InvalidPartOrder"
      "The list of parts was not in ascending order. The parts list must be specified in order by part number."
      bad_request_status
error_code_response authorization_header_malformed =
    entry "AuthorizationHeaderMalformed" "The authorization header is malformed." bad_request_status
error_code_response malformed_post_request =
    entry "MalformedPOSTRequest"
      "The body of your POST request is not well-formed multipart/form-data." bad_request_status
error_code_response signature_version_not_supported =
    entry "AccessDenied"
      "The authorization mechanism you have provided is not supported. Please use AWS4-HMAC-SHA256."
      forbidden_status
error_code_response bucket_not_empty =
    entry "BucketNotEmpty" "The bucket you tried to delete is not empty." conflict_status
error_code_response bucket_access_forbidden =
    entry "AccessDenied" "You have no access to this bucket." forbidden_status
error_code_response malformed_policy =
    entry "MalformedPolicy" "Policy has invalid resource." bad_request_status
error_code_response missing_fields =
    entry "MissingFields" "Missing fields in request." bad_request_status
error_code_response missing_cred_tag =
    entry "InvalidRequest" "Missing Credential field for this request." bad_request_status
error_code_response cred_malformed =
    entry "CredentialMalformed" "Credential field does not follow accessKeyID/credentialScope."
      bad_request_status
error_code_response malformed_date =
    entry "MalformedDate"
      "Invalid date format header, expected to be in ISO8601, RFC1123 or RFC1123Z time format."
      bad_request_status
error_code_response invalid_region =
    entry "InvalidRegion" "Region does not match." bad_request_status
error_code_response invalid_service =
    entry "AccessDenied" "Service scope should be of value 's3'." bad_request_status
error_code_response invalid_request_version =
    entry "AccessDenied" "Request scope should be of value 'aws4_request'." bad_request_status
error_code_response missing_sign_tag =
    entry "AccessDenied" "Signature header missing Signature field." bad_request_status
error_code_response missing_sign_headers_tag =
    entry "InvalidArgument" "Signature header missing SignedHeaders field." bad_request_status
error_code_response missing_required_signed_header =
    entry "InvalidArgument" "Missing one or more required signed header" bad_request_status
error_code_response signed_headers_not_sorted =
    entry "InvalidArgument" "Signed headers are not ordered" bad_request_status
error_code_response policy_already_expired =
    entry "AccessDenied" "Invalid according to Policy: Policy expired." forbidden_status
error_code_response policy_violation =
    entry "AccessDenied" "File uploading policy violated." forbidden_status
error_code_response malformed_expires =
    entry "MalformedExpires" "Malformed expires value, should be between 1 and 604800(seven days)"
      bad_request_status
error_code_response auth_header_empty =
    entry "InvalidArgument"
      "Authorization header is invalid -- one and only one ' ' (space) required." bad_request_status
error_code_response missing_date_header =
    entry "AccessDenied" "AWS authentication requires a valid Date or x-amz-date header"
      bad_request_status
error_code_response invalid_query_signature_algo =
    entry "AuthorizationQueryParametersError" "X-Amz-Algorithm only supports \"AWS4-HMAC-SHA256\"."
      bad_request_status
error_code_response expired_presign_request =
    entry "ExpiredToken" "Request has expired." forbidden_status
error_code_response invalid_query_params =
    entry "AuthorizationQueryParametersError"
      "Query-string authentication version 4 requires the X-Amz-Algorithm, X-Amz-Credential, X-Amz-Signature, X-Amz-Date, X-Amz-SignedHeaders, and X-Amz-Expires parameters."
      bad_request_status
error_code_response bucket_already_owned_by_you =
    entry "BucketAlreadyOwnedByYou"
      "Your previous request to create the named bucket succeeded and you already own it."
      conflict_status
error_code_response too_many_buckets =
    entry "TooManyBuckets" "You have attempted to create more buckets than allowed."
      bad_request_status
error_code_response content_sha256_mismatch =
    entry "XAmzContentSHA256Mismatch"
      "The provided 'x-amz-content-sha256' header does not match what was computed."
      bad_request_status
error_code_response invalid_canned_acl =
    entry "InvalidAcl" "The canned ACL you provided is not valid" bad_request_status
error_code_response invalid_sse_header =
    entry "InvalidSseHeader" "The Server-side Encryption configuration is corrupted or invalid"
      bad_request_status
error_code_response invalid_header =
    entry "InvalidRequest" "This request is illegal because some header is malformed."
      bad_request_status
error_code_response no_such_bucket_cors =
    entry "NoSuchBucketCors" "The specified bucket does not have CORS configured." not_found_status
error_code_response policy_missing_fields =
    entry "AccessDenied" "Missing policy condition" forbidden_status
error_code_response invalid_acl =
    entry "IllegalAclConfigurationException"
      "The ACL configuration specified in the request is invalid." bad_request_status
error_code_response unsupported_acl =
    entry "UnsupportedAclConfigurationException"
      "The ACL configuration specified in the request is unsupported." bad_request_status
error_code_response non_utf8_encode =
    entry "InvalidArgument" "URL Argument must be UTF8 encoded." bad_request_status
error_code_response no_such_bucket_lc =
    entry "NoSuchBucketLc" "The specified bucket does not have LifeCycle configured."
      not_found_status
error_code_response invalid_lc =
    entry "IllegalLcConfigurationException"
      "The LC configuration specified in the request is invalid." bad_request_status
error_code_response content_not_modified = none
