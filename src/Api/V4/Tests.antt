-- ===== src/Api/V4/Tests.antt =====
-- An `Authorization` header of version 4.
use yig.Prelude.{◌≡◌, refl, true, [], ◌∷◌, some, none, codes, str_eq, if◌then◌else◌}
use yig.Types.{Bytes}
use yig.Names.{split}
use yig.Preconditions.{bytes_eq}
use yig.Errors.{missing_required_signed_header}
use yig.Api.{Values, code}
use yig.Api.Sse.{fine, wrong}
use yig.Api.V4.{V4Tools, SignValues, parse_sign_v4}
use yig.Api.V4.Signed.{Covers, parse_sign_v4-Covers}

abbrev tools : V4Tools
tools = record {
  is_valid_access_key = λ _. true;
  parse_day = λ _. some 7;
  parse_time = λ _. some 7;
  parse_seconds = λ _. none;
  to_lower = λ s. codes (if str_eq s "X-Amz-Date" then "x-amz-date" else s);
}

abbrev auth : Bytes
auth =
    codes
      "AWS4-HMAC-SHA256 Credential=K/d/r/s3/aws4_request, SignedHeaders=host;x-amz-date, Signature=abc"

abbrev dated : Values
dated = ("X-Amz-Date", "now" ∷ []) ∷ []

abbrev parsed : SignValues
parsed = record {
  credential = record {
    access_key = codes "K";
    date = 7;
    region = codes "r";
    service = codes "s3";
    request = codes "aws4_request";
  };
  signed_headers = codes "host" ∷ codes "x-amz-date" ∷ [];
  signature = codes "abc";
}

parses : parse_sign_v4 tools auth dated ≡ fine parsed
unfolding parse_sign_v4 yig.Api.V4.sign_fields yig.Api.V4.parse_credential_header
    yig.Api.V4.parse_credential yig.Api.V4.credential_of_elements yig.Api.V4.parse_field
    yig.Api.V4.field_of yig.Api.V4.parse_signature yig.Api.V4.parse_signed_headers
    yig.Api.V4.parse_signed_headers_content yig.Api.V4.all_signed yig.Api.V4.header_signed
    yig.Api.V4.are_sorted yig.Api.V4.bytes_lt split bytes_eq
parses = refl

-- With a header of its own that is not signed, the same request is refused.
refuses :
    parse_sign_v4 tools auth (("x-amz-acl", "private" ∷ []) ∷ dated)
    ≡ wrong (code missing_required_signed_header)
unfolding parse_sign_v4 yig.Api.V4.sign_fields yig.Api.V4.parse_credential_header
    yig.Api.V4.parse_credential yig.Api.V4.credential_of_elements yig.Api.V4.parse_field
    yig.Api.V4.field_of yig.Api.V4.parse_signature yig.Api.V4.parse_signed_headers
    yig.Api.V4.parse_signed_headers_content yig.Api.V4.all_signed yig.Api.V4.header_signed
    yig.Api.V4.are_sorted yig.Api.V4.bytes_lt split bytes_eq
refuses = refl

parse_sign_v4-Covers_example : Covers tools dated parsed.signed_headers
parse_sign_v4-Covers_example = parse_sign_v4-Covers tools auth dated parsed parses
