-- ===== src/Types.antt =====
-- The records that the storage layer passes round: meta/types, api/datatype and iam. Times are
-- `UnixNano` numbers, byte slices are lists of numbers, and maps of texts are association lists.
-- The XML and JSON names of the fields are left out.
use yig.Prelude.{ℕ, String, Bool, List, Map}
use yig.Prelude.Int.{ℤ}
use yig.Index.{SimpleIndex}

abbrev pub Bytes : Type 0
Bytes = List ℕ

abbrev pub Texts : Type 0
Texts = List (String × String)

pub record Credential : Type 0 where
  pub user_id : String
  pub display_name : String
  pub access_key_id : String
  pub secret_access_key : String

pub record Acl : Type 0 where
  pub canned_acl : String

pub record SseRequest : Type 0 where
  pub type : String
  pub sse_aws_kms_key_id : String
  pub sse_context : String
  pub sse_customer_algorithm : String
  pub sse_customer_key : Bytes
  pub copy_source_sse_customer_algorithm : String
  pub copy_source_sse_customer_key : Bytes

pub record Part : Type 0 where
  pub part_number : ℕ
  pub size : ℕ
  pub object_id : String
  pub offset : ℕ
  pub etag : String
  pub last_modified : ℕ
  pub initialization_vector : Bytes

-- The caches of the row key and the version id are in the fields `rowkey` and `version_id`.
pub record Object : Type 0 where
  pub rowkey : Bytes
  pub name : String
  pub bucket_name : String
  pub location : String
  pub pool : String
  pub owner_id : String
  pub size : ℕ
  pub object_id : String
  pub last_modified_time : ℕ
  pub etag : String
  pub content_type : String
  pub custom_attributes : Texts
  pub parts : Map Part
  pub parts_index : SimpleIndex
  pub acl : Acl
  pub null_version : Bool
  pub delete_marker : Bool
  pub version_id : String
  pub sse_type : String
  pub encryption_key : Bytes
  pub initialization_vector : Bytes

pub record MultipartMetadata : Type 0 where
  pub initiator_id : String
  pub owner_id : String
  pub content_type : String
  pub location : String
  pub pool : String
  pub acl : Acl
  pub sse_request : SseRequest
  pub encryption_key : Bytes
  pub attrs : Texts

pub record Multipart : Type 0 where
  pub bucket_name : String
  pub object_name : String
  pub initial_time : ℕ
  pub upload_id : String
  pub metadata : MultipartMetadata
  pub parts : Map Part

pub record CompletePart : Type 0 where
  pub part_number : ℕ
  pub etag : String

pub record ObjMap : Type 0 where
  pub name : String
  pub bucket_name : String
  pub null_ver_num : ℕ
  pub null_ver_id : String

pub record CorsRule : Type 0 where
  pub id : String
  pub allowed_methods : List String
  pub allowed_origins : List String
  pub allowed_headers : List String
  pub max_age_seconds : ℤ
  pub exposed_headers : List String

pub record LcRule : Type 0 where
  pub id : String
  pub prefix : String
  pub status : String
  pub expiration : String

pub record Bucket : Type 0 where
  pub name : String
  pub create_time : ℕ
  pub owner_id : String
  pub cors : List CorsRule
  pub acl : Acl
  pub lc : List LcRule
  pub versioning : String
  pub usage : ℤ

-- `ListObjectsRequest`
pub record ListObjectsRequest : Type 0 where
  pub versioned : Bool
  pub version : ℕ
  pub continuation_token : String
  pub start_after : String
  pub fetch_owner : Bool
  pub marker : String
  pub delimiter : String
  pub encoding_type : String
  pub max_keys : ℤ
  pub prefix : String
  pub key_marker : String
  pub version_id_marker : String

-- `ListUploadsRequest`
pub record ListUploadsRequest : Type 0 where
  pub delimiter : String
  pub encoding_type : String
  pub max_uploads : ℤ
  pub key_marker : String
  pub prefix : String
  pub upload_id_marker : String
