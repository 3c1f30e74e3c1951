-- ===== src/Multipart/Uploads.antt =====
-- `ListMultipartUploads` (storage/multipart.go). What the database finds, and `url.QueryEscape`, are
-- parameters.
use Prim.Native.String.{compare}
use text.Mathlib.Text.{is_le}
use yig.Prelude.{String, Bool, true, not, List, [], ◌∷◌, str_eq, if◌then◌else◌}
use yig.Prelude.Int.{ℤ}
use yig.Types.{Credential, ListUploadsRequest}
use yig.Storage.{
  bucket_access_forbidden, Outcome, Action, pure, ◌>>=◌, ◌>>◌, call, raise_if, Backend,
}
use yig.Meta.{get_bucket}
use yig.Listing.{may_list}

-- `datatype.Upload`
pub record ListedUpload : Type 0 where
  pub key : String
  pub upload_id : String
  pub initiator : Credential
  pub owner : Credential
  pub storage_class : String
  pub initiated : String

-- What the query returns.
pub record FoundUploads : Type 0 where
  pub uploads : List ListedUpload
  pub prefixes : List String
  pub is_truncated : Bool
  pub next_key_marker : String
  pub next_upload_id_marker : String

pub record ListMultipartUploadsResponse : Type 0 where
  pub bucket : String
  pub key_marker : String
  pub upload_id_marker : String
  pub next_key_marker : String
  pub next_upload_id_marker : String
  pub encoding_type : String
  pub max_uploads : ℤ
  pub is_truncated : Bool
  pub uploads : List ListedUpload
  pub prefix : String
  pub delimiter : String
  pub common_prefixes : List String

-- `sort.Strings`
abbrev insert_text : String → List String → List String
insert_text s [] = s ∷ []
insert_text s (t ∷ ts) = if is_le (compare s t) then s ∷ t ∷ ts else t ∷ insert_text s ts

unfoldable pub sort_strings : List String → List String
sort_strings [] = []
sort_strings (s ∷ ss) = insert_text s (sort_strings ss)

module _ {S : Type 0} (b : Backend S)
    (client_list_multipart_uploads : String → ListUploadsRequest → S → Outcome FoundUploads × S)
    (query_escape : String → String) where
  abbrev coded : ListUploadsRequest → String → String
  coded request s = if str_eq request.encoding_type "" then s else query_escape s

  -- the answer that is made of what was found
  unfoldable pub uploads_response :
      String → ListUploadsRequest → FoundUploads → ListMultipartUploadsResponse
  uploads_response bucket_name request found = record {
    bucket = bucket_name;
    key_marker = coded request request.key_marker;
    upload_id_marker = request.upload_id_marker;
    next_key_marker = coded request found.next_key_marker;
    next_upload_id_marker = found.next_upload_id_marker;
    encoding_type = request.encoding_type;
    max_uploads = request.max_uploads;
    is_truncated = found.is_truncated;
    uploads = found.uploads;
    prefix = coded request request.prefix;
    delimiter = coded request request.delimiter;
    common_prefixes = sort_strings found.prefixes;
  }

  -- `ListMultipartUploads`
  unfoldable pub list_multipart_uploads :
      Credential → String → ListUploadsRequest → Action S ListMultipartUploadsResponse
  list_multipart_uploads credential bucket_name request = do
    bucket ← get_bucket b bucket_name true
    raise_if (not (may_list bucket credential)) bucket_access_forbidden
    found ← call (client_list_multipart_uploads bucket_name request)
    pure (uploads_response bucket_name request found)
