-- ===== src/Errors/Status.antt =====
-- What the table of the errors holds (error/api-errors.go).
use yig.Prelude.{◌≡◌, ◌≤◌, ◌↔◌, arith, none}
use yig.Errors.{http_status_code}
use yig.Errors.Codes.{ApiErrorCode, access_denied, content_not_modified}
use yig.Errors.Table.{error_code_response}

-- The status of every error is an error's status.
http_status_code_range :
    (e : ApiErrorCode) → (400 ≤ http_status_code e) × (http_status_code e ≤ 501)
unfolding http_status_code error_code_response
http_status_code_range access_denied = ground arith
http_status_code_range _ = ground arith

-- The table has an entry for every code but the one that stands for an object that was not modified.
error_code_response-none :
    (e : ApiErrorCode) → (error_code_response e ≡ none) ↔ (e ≡ content_not_modified)
unfolding error_code_response
error_code_response-none access_denied = (λ h. cc, λ h. cc)
error_code_response-none _ = (λ h. cc, λ h. cc)
