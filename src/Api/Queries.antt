-- ===== src/Api/Queries.antt =====
-- The queries of the listings (api/api-resources.go). `strconv.Atoi` and `utf8.ValidString` are
-- parameters.
use yig.Prelude.{String, Bool, Option, none, some, str_eq, if◌then◌else◌, not, ◌||◌, ◌&&◌, false}
use yig.Prelude.Int.{ℤ, pos, ltb_ℤ}
use yig.Errors.{
  non_utf8_encode, invalid_encoding_type, invalid_max_keys, invalid_max_uploads, invalid_max_parts,
  invalid_part_number_marker, no_such_upload,
}
use yig.Types.{ListObjectsRequest, ListUploadsRequest}
use yig.Api.{Values, Fault, code, plain, get}
use yig.Api.Sse.{Checked, fine, wrong, wrong_if, ◌>>=◌, ◌>>◌, pure}

-- `ListPartsRequest`
pub record ListPartsRequest : Type 0 where
  pub encoding_type : String
  pub upload_id : String
  pub max_parts : ℤ
  pub part_number_marker : ℤ

-- `MaxObjectList`, `MaxUploadsList` and `MaxPartsList`
abbrev pub max_list : ℤ
max_list = pos 1000

module _ (atoi : String → Option ℤ) (valid_utf8 : String → Bool) where
  -- A count of a listing: the greatest where none is given. `bad` is the error for a text that is
  -- no number, `out` that for a number out of range.
  unfoldable pub list_limit : String → Fault → Fault → Checked ℤ
  list_limit given bad out = if str_eq given "" then fine max_list else (elim (atoi given) [
    | none ↦ wrong bad
    | some n ↦ wrong_if (ltb_ℤ max_list n || ltb_ℤ n (pos 1)) out >> pure n
  ])

  -- a text of the query that must be UTF-8
  unfoldable pub utf8_of : Values → String → Checked String
  utf8_of query key =
      wrong_if (not (valid_utf8 (get query key))) (code non_utf8_encode) >> pure (get query key)

  -- the three fields that version 2 of a listing has instead of `marker`
  unfoldable pub start_of : Values → Checked (String × String)
  start_of query =
      if str_eq (get query "list-type") "2"
      then utf8_of query "start-after" >>= (λ after. pure (after, ""))
      else utf8_of query "marker" >>= λ marker. pure ("", marker)

  -- `parseListObjectsQuery`
  unfoldable pub parse_list_objects_query : Values → Checked ListObjectsRequest
  parse_list_objects_query query = do
    start ← start_of query
    delimiter ← utf8_of query "delimiter"
    wrong_if
        (not (str_eq (get query "encoding-type") "")
          && not (str_eq (get query "encoding-type") "url"))
        (code invalid_encoding_type)
    max_keys ← list_limit (get query "max-keys") (code invalid_max_keys) (code invalid_max_keys)
    prefix ← utf8_of query "prefix"
    key_marker ← utf8_of query "key-marker"
    version_id_marker ← utf8_of query "version-id-marker"
    pure (record {
      versioned = false;
      version = if str_eq (get query "list-type") "2" then 2 else 1;
      continuation_token =
          if str_eq (get query "list-type") "2" then get query "continuation-token" else "";
      start_after = start.0;
      fetch_owner = str_eq (get query "list-type") "2" && str_eq (get query "fetch-owner") "true";
      marker = start.1;
      delimiter = delimiter;
      encoding_type = get query "encoding-type";
      max_keys = max_keys;
      prefix = prefix;
      key_marker = key_marker;
      version_id_marker = version_id_marker;
    })

  -- `parseListUploadsQuery`
  unfoldable pub parse_list_uploads_query : Values → Checked ListUploadsRequest
  parse_list_uploads_query query = do
    max_uploads ← list_limit (get query "max-uploads") plain (code invalid_max_uploads)
    pure (record {
      delimiter = get query "delimiter";
      encoding_type = get query "encoding-type";
      max_uploads = max_uploads;
      key_marker = get query "key-marker";
      prefix = get query "prefix";
      upload_id_marker = get query "upload-id-marker";
    })

  -- the part number behind which a listing of parts begins
  unfoldable pub part_number_marker : String → Checked ℤ
  part_number_marker given = if str_eq given "" then fine (pos 0) else (elim (atoi given) [
    | none ↦ wrong (code invalid_part_number_marker)
    | some n ↦ wrong_if (ltb_ℤ n (pos 0)) (code invalid_part_number_marker) >> pure n
  ])

  -- `parseListObjectPartsQuery`
  unfoldable pub parse_list_object_parts_query : Values → Checked ListPartsRequest
  parse_list_object_parts_query query = do
    wrong_if (str_eq (get query "uploadId") "") (code no_such_upload)
    max_parts ← list_limit (get query "max-parts") plain (code invalid_max_parts)
    marker ← part_number_marker (get query "part-number-marker")
    pure (record {
      encoding_type = get query "encoding-type";
      upload_id = get query "uploadId";
      max_parts = max_parts;
      part_number_marker = marker;
    })
