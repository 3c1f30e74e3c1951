-- ===== src/Api/Listings.antt =====
-- `ListObjectsHandler` and `ListVersionedObjectsHandler` (api/bucket-handlers.go), with the answers
-- that are made for them (api/api-response.go).
use yig.Multipart.Uploads.{FoundUploads, list_multipart_uploads}
use yig.Types.{ListUploadsRequest}
use yig.Prelude.{ℕ, String, Bool, true, Option, str_eq, if◌then◌else◌, length, ◌==◌, some}
use yig.Prelude.Int.{ℤ}
use yig.Types.{ListObjectsRequest, ListUploadsRequest}
use yig.Storage.{Backend, Outcome}
use yig.Errors.{ApiErrorCode}
use yig.Listing.{
  Lister, ListObjectsInfo, VersionedListObjectsInfo, list_objects, list_versioned_objects,
}
use yig.Api.{Request, document, write_success_response}
use yig.Api.Auth.{Verifier}
use yig.Api.Queries.{parse_list_objects_query, parse_list_uploads_query}
use yig.Api.Handler.{Handler, ◌>>=◌, answer, call_storage, checked, authenticate}
use yig.Api.Documents.{
  Document, ListObjectsResponse, VersionedListObjectsResponse, objects_listed, versions_listed,
  uploads_listed,
}

-- a text of an answer, as the encoding that was asked for wants it
abbrev pub escaped : (String → String) → ListObjectsRequest → String → String
escaped escape request s = if str_eq request.encoding_type "" then s else escape s

-- `GenerateListObjectsResponse`
unfoldable pub generate_list_objects_response :
    (String → String) → String → ListObjectsRequest → ListObjectsInfo → ListObjectsResponse
generate_list_objects_response escape bucket_name request info = record {
  contents = info.objects;
  common_prefixes = info.prefixes;
  delimiter = escaped escape request request.delimiter;
  encoding_type = request.encoding_type;
  is_truncated = info.is_truncated;
  max_keys = request.max_keys;
  prefix = escaped escape request request.prefix;
  bucket_name = bucket_name;
  key_count = if request.version == 2 then length info.objects else 0;
  continuation_token = if request.version == 2 then request.continuation_token else "";
  next_continuation_token = if request.version == 2 then info.next_marker else "";
  start_after = escaped escape request (if request.version == 2 then request.start_after else "");
  marker = escaped escape request (if request.version == 2 then "" else request.marker);
  next_marker = if request.version == 2 then "" else info.next_marker;
}

-- `GenerateVersionedListObjectResponse`: the prefix is left as it is
unfoldable pub generate_versioned_list_object_response :
    (String → String)
    → String
    → ListObjectsRequest
    → VersionedListObjectsInfo
    → VersionedListObjectsResponse
generate_versioned_list_object_response escape bucket_name request info = record {
  contents = info.versions;
  common_prefixes = info.prefixes;
  delimiter = escaped escape request request.delimiter;
  encoding_type = request.encoding_type;
  is_truncated = info.is_truncated;
  max_keys = request.max_keys;
  key_count = length info.versions;
  prefix = request.prefix;
  bucket_name = bucket_name;
  key_marker = escaped escape request request.key_marker;
  next_key_marker = info.next_key_marker;
  version_id_marker = request.version_id_marker;
  next_version_id_marker = info.next_version_id_marker;
}

module _ {S : Type 0} (b : Backend S) (l : Lister S) (other_code : ℕ → Option ApiErrorCode)
    (v : Verifier) (atoi : String → Option ℤ) (valid_utf8 : String → Bool) where
  -- `ListObjectsHandler`
  unfoldable pub list_objects_handler : Request → Handler S Document (Unit {0})
  list_objects_handler r = do
    credential ← authenticate v r
    request ← checked r (parse_list_objects_query atoi valid_utf8 r.query)
    info ← call_storage other_code r (list_objects b l credential r.bucket request)
    answer (
        write_success_response (
          some (
            document (
              objects_listed
                (generate_list_objects_response l.query_escape r.bucket request info)))))

  -- `ListVersionedObjectsHandler`
  unfoldable pub list_versioned_objects_handler : Request → Handler S Document (Unit {0})
  list_versioned_objects_handler r = do
    credential ← authenticate v r
    request ← checked r (parse_list_objects_query atoi valid_utf8 r.query)
    info ←
        call_storage other_code r
          (list_versioned_objects b l credential r.bucket (record request { versioned = true }))
    answer (
        write_success_response (
          some (
            document (
              versions_listed (
                generate_versioned_list_object_response l.query_escape r.bucket
                  (record request { versioned = true }) info)))))

  -- `ListMultipartUploadsHandler`
  unfoldable pub list_multipart_uploads_handler :
      (String → ListUploadsRequest → S → Outcome FoundUploads × S)
      → Request
      → Handler S Document (Unit {0})
  list_multipart_uploads_handler client_list_multipart_uploads r = do
    credential ← authenticate v r
    request ← checked r (parse_list_uploads_query atoi valid_utf8 r.query)
    response ← call_storage other_code r (
        list_multipart_uploads b client_list_multipart_uploads l.query_escape credential r.bucket
          request)
    answer (write_success_response (some (document (uploads_listed response))))
