-- ===== src/Api/V4.antt =====
-- The parsers of a signature of version 4 (signature/v4-parser.go), on bytes. The test of an access
-- key, the parsing of times and `strings.ToLower` are fields of `V4Tools`; white space is that of ASCII.
pub mod Signed
mod Tests
use yig.Prelude.{
  ℕ, String, Bool, true, false, not, List, [], ◌∷◌, Option, none, some, if◌then◌else◌, ◌&&◌, ◌||◌,
  ◌==◌, leb, ltb, length, drop, codes, is_prefix, str_eq,
}
use yig.Prelude.Int.{ℤ}
use yig.Types.{Bytes}
use yig.Errors.{
  cred_malformed, invalid_access_key_id, malformed_date, invalid_region, invalid_service,
  invalid_request_version, missing_fields, missing_cred_tag, missing_sign_tag,
  missing_sign_headers_tag, signed_headers_not_sorted, missing_required_signed_header,
  invalid_query_signature_algo, malformed_expires, auth_header_empty,
}
use yig.Names.{split}
use yig.Preconditions.{bytes_eq}
use yig.Api.{Values, get, Fault, code}
use yig.Api.Sse.{Checked, fine, wrong, wrong_if, ◌>>=◌, ◌>>◌, pure}

pub record V4Tools : Type 0 where
  pub is_valid_access_key : Bytes → Bool
  -- `time.Parse(YYYYMMDD, ...)`, `time.Parse(Iso8601Format, ...)`, `time.ParseDuration(... + "s")`
  pub parse_day : Bytes → Option ℕ
  pub parse_time : String → Option ℕ
  pub parse_seconds : String → Option ℤ
  pub to_lower : String → Bytes

-- `credentialHeader`
pub record CredentialHeader : Type 0 where
  pub access_key : Bytes
  pub date : ℕ
  pub region : Bytes
  pub service : Bytes
  pub request : Bytes

-- `signValues`
pub record SignValues : Type 0 where
  pub credential : CredentialHeader
  pub signed_headers : List Bytes
  pub signature : Bytes

-- `preSignValues`
pub record PreSignValues : Type 0 where
  pub values : SignValues
  pub date : ℕ
  pub expires : ℤ

abbrev is_space : ℕ → Bool
is_space c = (c == 32) || (leb 9 c && leb c 13)

abbrev drop_spaces : Bytes → Bytes
drop_spaces [] = []
drop_spaces (c ∷ s) = let rest = drop_spaces s in if is_space c then rest else c ∷ s

abbrev drop_last_spaces : Bytes → Bytes
drop_last_spaces [] = []
drop_last_spaces (c ∷ s) =
    let rest = drop_last_spaces s in if is_space c && (length rest == 0) then [] else c ∷ rest

-- `strings.TrimSpace`
abbrev pub trim_space : Bytes → Bytes
trim_space s = drop_last_spaces (drop_spaces s)

-- `strings.Replace(s, " ", "", -1)`
abbrev pub without_spaces : Bytes → Bytes
without_spaces [] = []
without_spaces (c ∷ s) = let rest = without_spaces s in if c == 32 then rest else c ∷ rest

-- `strings.TrimPrefix`
abbrev pub trim_start : Bytes → Bytes → Bytes
trim_start prefix s = if is_prefix prefix s then drop (length prefix) s else s

-- the order of texts
unfoldable pub bytes_lt : Bytes → Bytes → Bool
bytes_lt x [] = false
bytes_lt [] (c ∷ y) = true
bytes_lt (a ∷ x) (c ∷ y) = ltb a c || ((a == c) && bytes_lt x y)

-- `sort.StringsAreSorted`
unfoldable pub are_sorted : List Bytes → Bool
are_sorted [] = true
are_sorted (x ∷ []) = true
are_sorted (x ∷ y ∷ rest) = not (bytes_lt y x) && are_sorted (y ∷ rest)

-- `headerSigned`: `sort.SearchStrings` gives the first of the sorted headers that is not less.
unfoldable pub header_signed : Bytes → List Bytes → Bool
header_signed header [] = false
header_signed header (h ∷ hs) =
    let later = header_signed header hs in if bytes_lt h header then later else bytes_eq h header

abbrev pub x_amz : Bytes
x_amz = codes "x-amz-"

module _ (t : V4Tools) where
  -- the elements of a credential
  unfoldable pub credential_of_elements : List Bytes → Checked CredentialHeader
  credential_of_elements (key ∷ day ∷ region ∷ service ∷ request ∷ []) =
      if not (t.is_valid_access_key key)
      then wrong (code invalid_access_key_id)
      else (elim (t.parse_day day) [
        | none ↦ wrong (code malformed_date)
        | some date ↦
            if length region == 0
            then wrong (code invalid_region)
            else if not (bytes_eq service (codes "s3"))
            then wrong (code invalid_service)
            else if not (bytes_eq request (codes "aws4_request"))
            then wrong (code invalid_request_version)
            else fine (record {
              access_key = key;
              date = date;
              region = region;
              service = service;
              request = request;
            })
      ])
  credential_of_elements elements = wrong (code cred_malformed)

  -- `parseCredential`
  unfoldable pub parse_credential : Bytes → Checked CredentialHeader
  parse_credential value = credential_of_elements (split 47 (trim_space value))

  -- A field `name=value`: its value, or the error for another name.
  unfoldable pub field_of : Bytes → Fault → List Bytes → Checked Bytes
  field_of name bad (given ∷ value ∷ []) =
      if not (bytes_eq given name) then wrong bad else fine value
  field_of name bad pieces = wrong (code missing_fields)

  unfoldable pub parse_field : Bytes → Fault → Bytes → Checked Bytes
  parse_field name bad s = field_of name bad (split 61 (trim_space s))

  -- `parseCredentialHeader`
  unfoldable pub parse_credential_header : Bytes → Checked CredentialHeader
  parse_credential_header s =
      parse_field (codes "Credential") (code missing_cred_tag) s >>= parse_credential

  -- `parseSignature`
  unfoldable pub parse_signature : Bytes → Checked Bytes
  parse_signature s = parse_field (codes "Signature") (code missing_sign_tag) s

  -- the loop over the headers of the request
  unfoldable pub all_signed : Values → List Bytes → Bool
  all_signed [] signed = true
  all_signed ((k, vs) ∷ rest) signed =
      let later = all_signed rest signed in
      if is_prefix x_amz (t.to_lower k) then header_signed (t.to_lower k) signed && later else later

  -- `parseSignedHeadersContent`
  unfoldable pub parse_signed_headers_content : Bytes → Values → Bool → Checked (List Bytes)
  parse_signed_headers_content signed_header headers require_content_type =
      let signed = split 59 signed_header in
      if not (are_sorted signed)
      then wrong (code signed_headers_not_sorted)
      else if not (all_signed headers signed)
      then wrong (code missing_required_signed_header)
      else if not (header_signed (codes "host") signed)
      then wrong (code missing_required_signed_header)
      else if require_content_type
          && not (str_eq (get headers "Content-Type") "")
          && not (header_signed (codes "content-type") signed)
      then wrong (code missing_required_signed_header)
      else fine signed

  -- `parseSignedHeaders`
  unfoldable pub parse_signed_headers : Bytes → Values → Bool → Checked (List Bytes)
  parse_signed_headers s headers require_content_type =
      parse_field (codes "SignedHeaders") (code missing_sign_headers_tag) s >>= λ content.
      parse_signed_headers_content content headers require_content_type

  abbrev or_fault : {A : Type 0} → Fault → Option A → Checked A
  or_fault e none = wrong e
  or_fault e (some a) = fine a

  -- `parsePreSignV4`
  unfoldable pub parse_pre_sign_v4 : Values → Values → Checked PreSignValues
  parse_pre_sign_v4 query headers = do
    wrong_if (not (str_eq (get query "X-Amz-Algorithm") "AWS4-HMAC-SHA256"))
        (code invalid_query_signature_algo)
    credential ← parse_credential (codes (get query "X-Amz-Credential"))
    date ← or_fault (code malformed_date) (t.parse_time (get query "X-Amz-Date"))
    expires ← or_fault (code malformed_expires) (t.parse_seconds (get query "X-Amz-Expires"))
    signed ← parse_signed_headers_content (codes (get query "X-Amz-SignedHeaders")) headers false
    pure (record {
      values = record {
        credential = credential;
        signed_headers = signed;
        signature = codes (get query "X-Amz-Signature");
      };
      date = date;
      expires = expires;
    })

  -- the three fields of the header
  unfoldable pub sign_fields : List Bytes → Values → Checked SignValues
  sign_fields (first ∷ second ∷ third ∷ []) headers = do
    credential ← parse_credential_header first
    signed ← parse_signed_headers second headers true
    signature ← parse_signature third
    pure (record { credential = credential; signed_headers = signed; signature = signature })
  sign_fields fields headers = wrong (code missing_fields)

  -- `parseSignV4`
  unfoldable pub parse_sign_v4 : Bytes → Values → Checked SignValues
  parse_sign_v4 v4_auth headers =
      if length (without_spaces v4_auth) == 0
      then wrong (code auth_header_empty)
      else sign_fields
          (split 44 (trim_space (trim_start (codes "AWS4-HMAC-SHA256") (without_spaces v4_auth))))
          headers
