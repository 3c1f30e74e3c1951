-- ===== src/Api.antt =====
-- Requests, responses, and how an error is answered (api/api-response.go, api/api-response-multipart.go).
-- Of net/http the model has what the handlers rely on: the headers of a request and of a response
-- under their canonical names, and that the headers of a response are those of the moment at which
-- its status is sent, which a write does with status 200 if nothing has done it before. The XML of
-- a body is kept as the data that it is made of; the request id and the host id are left out.
pub mod Auth
pub mod Sse
pub mod Queries
pub mod Handler
pub mod ObjectHeaders
pub mod Read
pub mod Documents
pub mod Write
pub mod BucketHandlers
pub mod BucketSettings
pub mod Uploads
pub mod Refused
pub mod V4
pub mod CopySource
pub mod Copies
pub mod Parts
pub mod Forms
pub mod Listings
pub mod Cors
pub mod Filters
pub mod Tests
mod FilterTests
mod CopyTests
use yig.Prelude.{
  ℕ, String, Bool, true, false, List, [], ◌∷◌, ◌++◌, Option, none, some, str_eq, if◌then◌else◌,
}
use yig.Prelude.Int.{ℤ}
use yig.Types.{Bytes}
use yig.Errors.{ApiErrorCode, aws_error_code, description, http_status_code}

-- `http.Header` and `url.Values`: several values for a key.
abbrev pub Values : Type 0
Values = List (String × List String)

abbrev pub values_at : Values → String → Option (List String)
values_at [] key = none
values_at ((k, vs) ∷ rest) key = if str_eq k key then some vs else values_at rest key

abbrev pub first_value : Option (List String) → String
first_value none = ""
first_value (some []) = ""
first_value (some (v ∷ vs)) = v

-- `Get`: the first value, or the empty text
abbrev pub get : Values → String → String
get vs key = first_value (values_at vs key)

-- `_, ok := vs[key]`
abbrev pub has : Values → String → Bool
has vs key = elim (values_at vs key) [ none ↦ false | some _ ↦ true ]

-- `vs[key] = v`
abbrev pub put_values : String → List String → Values → Values
put_values key v [] = (key, v) ∷ []
put_values key v ((k, w) ∷ rest) =
    if str_eq k key then (key, v) ∷ rest else (k, w) ∷ put_values key v rest

-- A request, with the two variables of its route and what `ioutil.ReadAll` makes of its body.
pub record Request : Type 0 where
  pub method : String
  pub host : String
  pub path : String
  pub bucket : String
  pub object : String
  pub header : Values
  pub query : Values
  pub content_length : ℤ
  pub transfer_encoding : List String
  pub body : Bytes
  pub body_fine : Bool

-- What a handler makes of an error: a code of the table, a part that is too small, or any other.
pub data Fault : Type 0 where
  code : ApiErrorCode → Fault
  too_small : ℕ → ℕ → String → Fault
  plain : Fault

-- `ApiErrorResponse`
pub record ApiErrorResponse : Type 0 where
  pub aws_error_code : String
  pub message : String
  pub resource : String

-- What is written to a response: bytes, a document, the document of an error, or that of a part
-- that is too small.
pub data Payload (D : Type 0) : Type 0 where
  raw : Bytes → Payload D
  document : D → Payload D
  error_document : ApiErrorResponse → Payload D
  part_too_small : ℕ → ℕ → String → Payload D

pub record Response (D : Type 0) : Type 0 where
  pub header : Values
  -- the status and the headers, once they are sent
  pub sent : Option (ℕ × Values)
  pub written : List (Payload D)

abbrev pub status_ok : ℕ
status_ok = 200

abbrev internal_error_text : String
internal_error_text = "We encountered an internal error, please try again."

abbrev pub status_of : Fault → ℕ
status_of (code e) = http_status_code e
status_of (too_small size number etag) = 500
status_of plain = 500

abbrev unknown_error : String → ApiErrorResponse
unknown_error resource = record {
  aws_error_code = "InternalError";
  message = internal_error_text;
  resource = resource;
}

abbrev pub error_response : Fault → String → ApiErrorResponse
error_response (code e) resource = record {
  aws_error_code = aws_error_code e;
  message = description e;
  resource = resource;
}
error_response (too_small size number etag) resource = unknown_error resource
error_response plain resource = unknown_error resource

module _ {D : Type 0} where
  -- `w.Header().Set(key, value)`
  unfoldable pub set_header : String → String → Response D → Response D
  set_header key value w = record w { header = put_values key (value ∷ []) w.header }

  -- `w.WriteHeader(status)`: a second call does nothing
  unfoldable pub write_header : ℕ → Response D → Response D
  write_header status w = elim w.sent [
    | none ↦ record w { sent = some (status, w.header) }
    | some _ ↦ w
  ]

  -- `w.Write(p)`
  unfoldable pub write : Payload D → Response D → Response D
  unfolding write_header
  write p w = let w' = write_header status_ok w in record w' { written = w'.written ++ p ∷ [] }

  -- `WriteSuccessResponse`
  unfoldable pub write_success_response : Option (Payload D) → Response D → Response D
  write_success_response none w = write_header status_ok w
  write_success_response (some p) w = write p w

  -- `WriteSuccessNoContent`
  unfoldable pub write_success_no_content : Response D → Response D
  write_success_no_content w = write_header 204 w

  -- `WriteErrorResponseHeaders`
  unfoldable pub write_error_response_headers : Fault → Response D → Response D
  write_error_response_headers e w = write_header (status_of e) w

  -- `WriteErrorResponseNoHeader`
  unfoldable pub write_error_response_no_header : Request → Fault → String → Response D → Response D
  write_error_response_no_header r e resource w =
      if str_eq r.method "HEAD" then w else write (error_document (error_response e resource)) w

  -- `WriteErrorResponseWithResource`
  unfoldable pub write_error_response_with_resource :
      Request → Fault → String → Response D → Response D
  write_error_response_with_resource r e resource w =
      write_error_response_no_header r e resource (write_error_response_headers e w)

  -- `WriteErrorResponse`
  unfoldable pub write_error_response : Request → Fault → Response D → Response D
  write_error_response r e w = write_error_response_with_resource r e r.path w

  -- `writePartSmallErrorResponse`
  unfoldable pub write_part_small_error_response : ℕ → ℕ → String → Response D → Response D
  write_part_small_error_response size number etag w =
      write (part_too_small size number etag) (write_header 400 w)

-- the headers of encryption that are copied from the request into the answer
abbrev pub sse_header_names : List String
sse_header_names =
    "X-Amz-Server-Side-Encryption" ∷ "X-Amz-Server-Side-Encryption-Aws-Kms-Key-Id"
    ∷ "X-Amz-Server-Side-Encryption-Customer-Algorithm"
    ∷ "X-Amz-Server-Side-Encryption-Customer-Key-Md5" ∷ []

-- `if header := r.Header.Get(headerName); header != "" { w.Header().Set(headerName, header) }`
unfoldable pub copy_headers : {D : Type 0} → List String → Request → Response D → Response D
copy_headers [] r w = w
copy_headers (name ∷ names) r w =
    copy_headers names r
      (if str_eq (get r.header name) "" then w else set_header name (get r.header name) w)
