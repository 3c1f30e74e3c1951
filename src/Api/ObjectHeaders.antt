-- ===== src/Api/ObjectHeaders.antt =====
-- The headers of an object (api/api-headers.go, api/object-handlers.go): `SetObjectHeaders`,
-- `setGetRespHeaders`, and those of an answer whose conditions are not met. The formats of a time,
-- a number and a range in a header are parameters, and so are the parsing of a time, base64 and MD5.
pub mod Moment
use yig.Prelude.{
  ℕ, String, Bool, false, [], ◌∷◌, Option, none, some, str_eq, if◌then◌else◌, concat, ◌||◌, List,
}
use yig.Prelude.Int.{ℤ, pos, negsuc, ltb_ℤ}
use yig.Types.{Bytes, Texts, Object}
use yig.Storage
use yig.Errors
use yig.Errors.{ApiErrorCode}
use yig.HttpRange
use yig.HttpRange.{HttpRange, get_length}
use yig.Preconditions.{Refusal, invalid_precondition, precondition_failed, content_not_modified}
use yig.Api.{
  Values, values_at, get, put_values, Request, Response, code, set_header, write_header,
  write_error_response, write_error_response_headers, first_value,
}

-- What the handlers take from the standard library, by their own names for it.
pub record Formats : Type 0 where
  -- `Format(http.TimeFormat)`, `strconv.FormatInt`, `HttpRange.String`
  pub format_time : ℕ → String
  pub format_int : ℤ → String
  pub format_range : HttpRange → String
  -- `time.Parse(http.TimeFormat, ...)`
  pub parse_time : String → Option ℕ
  pub decode_base64 : String → Option Bytes
  pub md5_base64 : Bytes → String

abbrev pub quoted : String → String
quoted etag = concat "\"" (concat etag "\"")

abbrev pub supported_get_req_params : Values
supported_get_req_params =
    ("response-expires", "Expires" ∷ [])
    ∷ ("response-content-type", "Content-Type" ∷ [])
    ∷ ("response-cache-control", "Cache-Control" ∷ [])
    ∷ ("response-content-disposition", "Content-Disposition" ∷ [])
    ∷ ("response-content-language", "Content-Language" ∷ [])
    ∷ ("response-content-encoding", "Content-Encoding" ∷ [])
    ∷ []

abbrev pub code_of : Refusal → ApiErrorCode
code_of invalid_precondition = Errors.invalid_precondition
code_of precondition_failed = Errors.precondition_failed
code_of content_not_modified = Errors.content_not_modified

unfoldable pub has_cache_control : Texts → Bool
has_cache_control [] = false
has_cache_control ((key, val) ∷ rest) = str_eq key "Cache-Control" || has_cache_control rest

module _ {D : Type 0} where
  -- a parameter of the query that stands for the header of a name
  unfoldable pub set_param : Option (List String) → List String → Response D → Response D
  set_param none v w = w
  set_param (some names) v w = record w {
    header = put_values (first_value (some names)) v w.header;
  }

  -- `setGetRespHeaders`
  unfoldable pub set_get_resp_headers : Values → Response D → Response D
  set_get_resp_headers [] w = w
  set_get_resp_headers ((k, v) ∷ rest) w =
      set_get_resp_headers rest (set_param (values_at supported_get_req_params k) v w)

  unfoldable pub set_etag : String → Response D → Response D
  set_etag etag w = if str_eq etag "" then w else set_header "ETag" (quoted etag) w

  -- the loop over `CustomAttributes`
  unfoldable pub set_attributes : Texts → Response D → Response D
  set_attributes [] w = w
  set_attributes ((key, val) ∷ rest) w = set_attributes rest (set_header key val w)

  -- the answer to the encryption of the object
  unfoldable pub set_sse_headers : Request → Object → Response D → Response D
  set_sse_headers r o w =
      if str_eq o.sse_type "KMS"
      then set_header "X-Amz-Server-Side-Encryption" "aws:kms" w
      else if str_eq o.sse_type "S3"
      then set_header "X-Amz-Server-Side-Encryption" "AES256" w
      else if str_eq o.sse_type "C"
      then set_header "X-Amz-Server-Side-Encryption-Customer-Key-Md5"
          (get r.header "X-Amz-Server-Side-Encryption-Customer-Key-Md5")
          (set_header "X-Amz-Server-Side-Encryption-Customer-Algorithm" "AES256" w)
      else w

module _ {D : Type 0} (f : Formats) where
  -- the end of `SetObjectHeaders`: with a range the status is sent at once
  unfoldable pub set_range : Option HttpRange → Response D → Response D
  set_range none w = w
  set_range (some r) w =
      if ltb_ℤ (negsuc 0) r.offset_begin
      then write_header 206 (
          set_header "Content-Range" (f.format_range r)
            (set_header "Content-Length" (f.format_int (get_length r)) w))
      else w

  -- `SetObjectHeaders` up to the range
  unfoldable pub set_standard_headers : Object → Response D → Response D
  set_standard_headers o w =
      let w1 = set_header "Last-Modified" (f.format_time o.last_modified_time) w in
      let w2 = set_etag o.etag (set_header "Content-Type" o.content_type w1) in
      let w3 = set_attributes o.custom_attributes w2 in
      let w4 =
        if has_cache_control o.custom_attributes
        then w3
        else set_header "Cache-Control" "public, max-age=30672000" w3 in
      set_header "Content-Length" (f.format_int (pos o.size)) w4

  -- `SetObjectHeaders`
  unfoldable pub set_object_headers : Object → Option HttpRange → Response D → Response D
  set_object_headers o hrange w = set_range hrange (set_standard_headers o w)

  -- the first write of `writer`, which sets the headers
  unfoldable pub begin_body : Request → Object → Option HttpRange → Response D → Response D
  begin_body r o hrange w =
      let w' = set_get_resp_headers r.query (set_object_headers o hrange w) in
      if str_eq (get r.query "versionId") ""
      then w'
      else set_header "x-amz-version-id" (get r.query "versionId") w'

  -- the answer where a condition is not met
  unfoldable pub refuse_conditions : Request → Object → Refusal → Response D → Response D
  refuse_conditions r o refusal w =
      let w' =
        set_etag o.etag (set_header "Last-Modified" (f.format_time o.last_modified_time) w) in
      elim refusal [
        | content_not_modified ↦ write_error_response_headers (code Errors.content_not_modified) w'
        | other ↦ write_error_response r (code (code_of other)) w'
      ]
