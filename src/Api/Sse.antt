-- ===== src/Api/Sse.antt =====
-- What the handlers take from the headers (api/handler-utils.go, api/acl.go, api/utils.go): the
-- metadata, the server-side encryption, the canned ACL. The decoding of base64 and MD5 are
-- parameters.
use yig.Prelude.{
  String, Bool, true, false, List, [], ◌∷◌, Option, none, some, str_eq, if◌then◌else◌, not, length,
  ◌==◌, has_prefix, ◌^◌, ◌*◌,
}
use yig.Prelude.Int.{ℤ, pos, ltb_ℤ}
use yig.Types.{Bytes, Texts, Acl, SseRequest}
use yig.Errors.{not_implemented, invalid_sse_header, invalid_canned_acl}
use yig.Api.{Values, Fault, code, plain, get}

pub data Checked (A : Type 0) : Type 0 where
  fine : A → Checked A
  wrong : Fault → Checked A

infixl 5 ◌>>=◌ ◌>>◌
abbrev pub ◌>>=◌ : {A B : Type 0} → Checked A → (A → Checked B) → Checked B
fine a >>= f = f a
wrong e >>= f = wrong e

abbrev pub ◌>>◌ : {A B : Type 0} → Checked A → Checked B → Checked B
m >> k = m >>= λ _. k

abbrev pub pure : {A : Type 0} → A → Checked A
pure a = fine a

-- `if test { err = e; return }`
abbrev pub wrong_if : Bool → Fault → Checked (Unit {0})
wrong_if true e = wrong e
wrong_if false e = fine tt

abbrev supported_headers : List String
supported_headers =
    "Content-Type" ∷ "Cache-Control" ∷ "Content-Encoding" ∷ "Content-Disposition" ∷ []

abbrev pub put_text : String → String → Texts → Texts
put_text key v [] = (key, v) ∷ []
put_text key v ((k, w) ∷ rest) =
    if str_eq k key then (key, v) ∷ rest else (k, w) ∷ put_text key v rest

-- the first loop of `extractMetadataFromHeader`
unfoldable pub save_supported : List String → Values → Texts → Texts
save_supported [] header metadata = metadata
save_supported (h ∷ hs) header metadata =
    save_supported hs header
      (if str_eq (get header h) "" then metadata else put_text h (get header h) metadata)

-- the second: `header` is all the headers, the list those that are left
unfoldable pub save_meta : Values → Values → Texts → Texts
save_meta [] header metadata = metadata
save_meta ((key, vs) ∷ rest) header metadata =
    save_meta rest header
      (if has_prefix key "X-Amz-Meta-" then put_text key (get header key) metadata else metadata)

-- `extractMetadataFromHeader`
unfoldable pub extract_metadata_from_header : Values → Texts
extract_metadata_from_header header =
    save_meta header header (save_supported supported_headers header [])

abbrev pub no_sse : SseRequest
no_sse = record {
  type = "";
  sse_aws_kms_key_id = "";
  sse_context = "";
  sse_customer_algorithm = "";
  sse_customer_key = [];
  copy_source_sse_customer_algorithm = "";
  copy_source_sse_customer_key = [];
}

-- the type that the header `X-Amz-Server-Side-Encryption` asks for
unfoldable pub sse_type : String → Checked String
sse_type sse =
    if str_eq sse ""
    then fine ""
    else if str_eq sse "aws:kms"
    then wrong (code not_implemented)
    else if str_eq sse "AES256"
    then fine "S3"
    else wrong (code invalid_sse_header)

-- the same with the header `X-Amz-Server-Side-Encryption-Customer-Algorithm`
unfoldable pub customer_type : String → String → Checked String
customer_type type sse =
    if str_eq sse ""
    then fine type
    else if str_eq sse "AES256"
    then fine "C"
    else wrong (code invalid_sse_header)

module _ (decode_base64 : String → Option Bytes) (md5_base64 : Bytes → String) where
  abbrev decoded : Option Bytes → Checked Bytes
  decoded none = wrong plain
  decoded (some key) = fine key

  -- A key of a customer: it is given, 32 bytes long, and its digest is the one given.
  unfoldable pub customer_key : String → String → Checked Bytes
  customer_key key user_md5 = do
    wrong_if (str_eq key "") (code invalid_sse_header)
    bytes ← decoded (decode_base64 key)
    wrong_if (not (length bytes == 32)) (code invalid_sse_header)
    wrong_if (str_eq user_md5 "") (code invalid_sse_header)
    wrong_if (not (str_eq user_md5 (md5_base64 bytes))) (code invalid_sse_header)
    pure bytes

  -- the `switch request.Type`
  unfoldable pub sse_fields : Values → String → Checked SseRequest
  sse_fields header type =
      if str_eq type "S3"
      then fine (record no_sse {
        type = type;
        sse_context = get header "X-Amz-Server-Side-Encryption-Context";
      })
      else if str_eq type "C"
      then wrong_if
          (not (str_eq (get header "X-Amz-Server-Side-Encryption-Customer-Algorithm") "AES256"))
          (code invalid_sse_header)
        >> customer_key (get header "X-Amz-Server-Side-Encryption-Customer-Key")
            (get header "X-Amz-Server-Side-Encryption-Customer-Key-Md5")
        >>= (λ key. pure (record no_sse {
          type = type;
          sse_customer_algorithm = get header "X-Amz-Server-Side-Encryption-Customer-Algorithm";
          sse_customer_key = key;
        }))
      else fine (record no_sse { type = type })

  abbrev copy_algorithm : Values → String
  copy_algorithm header = get header "X-Amz-Copy-Source-Server-Side-Encryption-Customer-Algorithm"

  -- the key of the source of a copy
  unfoldable pub copy_source_fields : Values → SseRequest → Checked SseRequest
  copy_source_fields header request =
      if str_eq (copy_algorithm header) ""
      then fine request
      else wrong_if (not (str_eq (copy_algorithm header) "AES256")) (code invalid_sse_header)
        >> customer_key (get header "X-Amz-Copy-Source-Server-Side-Encryption-Customer-Key")
            (get header "X-Amz-Copy-Source-Server-Side-Encryption-Customer-Key-Md5")
        >>= λ key. pure (record request {
          copy_source_sse_customer_algorithm = copy_algorithm header;
          copy_source_sse_customer_key = key;
        })

  -- `parseSseHeader`
  unfoldable pub parse_sse_header : Values → Checked SseRequest
  parse_sse_header header = do
    type ← sse_type (get header "X-Amz-Server-Side-Encryption")
    type' ← customer_type type (get header "X-Amz-Server-Side-Encryption-Customer-Algorithm")
    request ← sse_fields header type'
    copy_source_fields header request

-- `StringInSlice`, `contains`
unfoldable pub string_in_slice : String → List String → Bool
string_in_slice s [] = false
string_in_slice s (x ∷ xs) = if str_eq s x then true else string_in_slice s xs

-- `ValidCannedAcl`
abbrev pub valid_canned_acl : List String
valid_canned_acl =
    "private" ∷ "public-read" ∷ "public-read-write" ∷ "aws-exec-read" ∷ "authenticated-read"
    ∷ "bucket-owner-read" ∷ "bucket-owner-full-controll" ∷ []

-- `IsValidCannedAcl`
unfoldable pub is_valid_canned_acl : Acl → Checked (Unit {0})
is_valid_canned_acl acl =
    wrong_if (not (string_in_slice acl.canned_acl valid_canned_acl)) (code invalid_canned_acl)

abbrev pub acl_or_private : String → Acl
acl_or_private given = record { canned_acl = if str_eq given "" then "private" else given }

-- `getAclFromHeader`
unfoldable pub get_acl_from_header : Values → Checked Acl
get_acl_from_header header =
    is_valid_canned_acl (acl_or_private (get header "X-Amz-Acl"))
    >> pure (acl_or_private (get header "X-Amz-Acl"))

-- `isMaxObjectSize` and `isMaxPartID`
unfoldable pub is_max_object_size : ℤ → Bool
is_max_object_size size = ltb_ℤ (pos (5 * 2 ^ 30)) size

unfoldable pub is_max_part_id : ℤ → Bool
is_max_part_id id = ltb_ℤ (pos 10000) id
