-- ===== src/Errors.antt =====
-- `ApiErrorCode` (error/api-errors.go): what an answer says of an error.
mod Codes
mod Table
pub mod Status
pub use Codes.*
unfoldable pub use Table.*
use yig.Prelude.{ℕ, String, Option, none, some}

abbrev internal_error_text : String
internal_error_text = "We encountered an internal error, please try again."

-- `AwsErrorCode`, `Description` and `HttpStatusCode`
unfoldable pub aws_error_code : ApiErrorCode → String
aws_error_code e = elim (error_code_response e) [
  | none ↦ "InternalError"
  | some r ↦ r.aws_error_code
]

unfoldable pub description : ApiErrorCode → String
description e = elim (error_code_response e) [ none ↦ internal_error_text | some r ↦ r.description ]

unfoldable pub http_status_code : ApiErrorCode → ℕ
http_status_code e = elim (error_code_response e) [ none ↦ 500 | some r ↦ r.http_status_code ]
