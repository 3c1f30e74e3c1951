-- ===== src/Api/Documents.antt =====
-- The documents that the handlers write (api/datatype/api-datatypes.go, api/api-response.go). That
-- `xml.Marshal` writes each of them without an error is taken for granted.
use yig.Prelude.{ℕ, String, List, Bool}
use yig.Types.{Credential, CorsRule, LcRule}
use yig.Prelude.Int.{ℤ}
use yig.Listing.{ListedObject, ListedVersion}
use yig.Acl.{AccessControlPolicy}
use yig.Multipart.Uploads.{ListMultipartUploadsResponse}
use yig.Multipart.Handlers.{ListPartsResponse}

-- `InitiateMultipartUploadResponse`
pub record InitiateMultipartUploadResponse : Type 0 where
  pub bucket : String
  pub key : String
  pub upload_id : String

-- `CopyObjectResponse`, `CopyObjectPartResponse`
pub record CopyObjectResponse : Type 0 where
  pub etag : String
  pub last_modified : ℕ

-- `CompleteMultipartUploadResponse`, `PostResponse`
pub record CompleteMultipartUploadResponse : Type 0 where
  pub location : String
  pub bucket : String
  pub key : String
  pub etag : String

-- `ObjectIdentifier`
pub record ObjectIdentifier : Type 0 where
  pub object_name : String
  pub version_id : String
  pub delete_marker : Bool
  pub delete_marker_version_id : String

-- `DeleteError`
pub record DeleteError : Type 0 where
  pub code : String
  pub message : String
  pub key : String
  pub version_id : String

-- `ListObjectsResponse`
pub record ListObjectsResponse : Type 0 where
  pub contents : List ListedObject
  pub common_prefixes : List String
  pub delimiter : String
  pub encoding_type : String
  pub is_truncated : Bool
  pub max_keys : ℤ
  pub prefix : String
  pub bucket_name : String
  pub key_count : ℕ
  pub continuation_token : String
  pub next_continuation_token : String
  pub start_after : String
  pub marker : String
  pub next_marker : String

-- `VersionedListObjectsResponse`
pub record VersionedListObjectsResponse : Type 0 where
  pub contents : List ListedVersion
  pub common_prefixes : List String
  pub delimiter : String
  pub encoding_type : String
  pub is_truncated : Bool
  pub max_keys : ℤ
  pub key_count : ℕ
  pub prefix : String
  pub bucket_name : String
  pub key_marker : String
  pub next_key_marker : String
  pub version_id_marker : String
  pub next_version_id_marker : String

pub data Document : Type 0 where
  policy : AccessControlPolicy → Document
  initiated : InitiateMultipartUploadResponse → Document
  parts_listed : ListPartsResponse → Document
  -- the owner, and the buckets with their times
  buckets_listed : Credential → List (String × ℕ) → Document
  -- the region
  location : String → Document
  versioning : String → Document
  cors : List CorsRule → Document
  lifecycle : List LcRule → Document
  -- `DeleteObjectsResponse`
  deleted : List ObjectIdentifier → List DeleteError → Document
  objects_listed : ListObjectsResponse → Document
  versions_listed : VersionedListObjectsResponse → Document
  object_copied : CopyObjectResponse → Document
  part_copied : CopyObjectResponse → Document
  completed : CompleteMultipartUploadResponse → Document
  posted : CompleteMultipartUploadResponse → Document
  uploads_listed : ListMultipartUploadsResponse → Document
