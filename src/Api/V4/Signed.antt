-- ===== src/Api/V4/Signed.antt =====
-- Which headers a signature of version 4 must sign (signature/v4-parser.go).
use yig.Prelude.{
  length, ◌==◌, subst, ap, ℕ, ◌≡◌, refl, arith, true, false, not, List, [], ◌∷◌, some, str_eq,
  if◌then◌else◌, ◌&&◌, get_elem?, codes, is_prefix, Bool-cases, inl, inr,
}
use Prim.Native.Nat.{zero, suc}
use yig.Types.{Bytes}
use yig.Names.{split}
use yig.Api.{Values, get, code}
use yig.Api.Sse.{Checked, fine, wrong, ◌>>=◌}
use yig.Api.Cors.Origin.{bytes_eq_sound}
use yig.Errors.{missing_required_signed_header, missing_sign_headers_tag}
use yig.Api.V4.{
  without_spaces, trim_space, trim_start, are_sorted, V4Tools, CredentialHeader, SignValues,
  bytes_lt, header_signed, all_signed, x_amz, parse_signed_headers_content, parse_signed_headers,
  parse_credential_header, parse_signature, sign_fields, parse_sign_v4, parse_field,
}

-- The name is one of the signed ones.
abbrev pub IsSigned : Bytes → List Bytes → Type 0
IsSigned header signed = (i : ℕ) × (get_elem? signed i ≡ some header)

header_signed-IsSigned :
    (header : Bytes) (signed : List Bytes)
    → header_signed header signed ≡ true
    → IsSigned header signed
unfolding header_signed
header_signed-IsSigned header [] h = absurd (ground arith)
header_signed-IsSigned header (x ∷ xs) h = elim (Bool-cases (bytes_lt x header)) [
  | inl less ↦ let (i, e) = header_signed-IsSigned header xs (rw less at h) in (suc i, e)
  | inr reached ↦
      let same : x ≡ header = bytes_eq_sound x header (rw reached at h) in (zero, rw same refl)
]

-- Every header of the request whose name begins with `x-amz-` is signed.
unfoldable pub AmzSigned : V4Tools → Values → List Bytes → Type 0
AmzSigned t [] signed = Unit {0}
AmzSigned t ((k, vs) ∷ rest) signed =
    (is_prefix x_amz (t.to_lower k) ≡ true → IsSigned (t.to_lower k) signed)
    × AmzSigned t rest signed

all_signed-AmzSigned :
    (t : V4Tools) (headers : Values) (signed : List Bytes)
    → all_signed t headers signed ≡ true
    → AmzSigned t headers signed
unfolding all_signed AmzSigned
all_signed-AmzSigned t [] signed h = tt
all_signed-AmzSigned t ((k, vs) ∷ rest) signed h = (
  λ amz. header_signed-IsSigned (t.to_lower k) signed (ground (arith, amz, h)),
  all_signed-AmzSigned t rest signed (ground (arith, h)),
)

-- What a list of signed headers signs of a request.
abbrev pub Covers : V4Tools → Values → List Bytes → Type 0
Covers t headers signed =
    AmzSigned t headers signed
    × IsSigned (codes "host") signed
    × (str_eq (get headers "Content-Type") "" ≡ false → IsSigned (codes "content-type") signed)

bind_fine :
    {A B : Type 0} (m : Checked A) (k : A → Checked B) (r : B)
    → (m >>= k) ≡ fine r
    → (a : A) × (m ≡ fine a) × (k a ≡ fine r)
bind_fine (fine a) k r h = (a, refl, h)
bind_fine (wrong e) k r h = absurd (ground arith)

abbrev signed_in : Checked (List Bytes) → List Bytes
signed_in (fine signed) = signed
signed_in (wrong e) = []

given-Covers :
    (t : V4Tools) (headers : Values) (given signed : List Bytes)
    → all_signed t headers given ≡ true
    → header_signed (codes "host") given ≡ true
    → (if not (str_eq (get headers "Content-Type") "")
          && not (header_signed (codes "content-type") given)
        then wrong (code missing_required_signed_header)
        else fine given)
      ≡ fine signed
    → Covers t headers signed
given-Covers t headers given signed all host h =
    let content : str_eq (get headers "Content-Type") "" ≡ false
        → header_signed (codes "content-type") given ≡ true =
      λ e. ground (arith, e, h) in
    let same : given ≡ signed =
      elim (Bool-cases (
        not (str_eq (get headers "Content-Type") "")
        && not (header_signed (codes "content-type") given))) [
          | inl refused ↦ absurd (ground (arith, refused, h))
          | inr passed ↦ ap signed_in (rw passed at h)
        ] in
    let covers : Covers t headers given = (
      all_signed-AmzSigned t headers given all,
      header_signed-IsSigned (codes "host") given host,
      λ e. header_signed-IsSigned (codes "content-type") given (content e),
    ) in
    subst (λ l. Covers t headers l) same covers

content-Covers :
    (t : V4Tools) (s : Bytes) (headers : Values) (signed : List Bytes)
    → parse_signed_headers_content t s headers true ≡ fine signed
    → Covers t headers signed
unfolding parse_signed_headers_content
content-Covers t s headers signed h =
    let given : List Bytes = split 59 s in
    elim (Bool-cases (are_sorted given)) [
      | inr unsorted ↦ absurd (ground (arith, unsorted, h))
      | inl sorted ↦ elim (Bool-cases (all_signed t headers given)) [
        | inr missing ↦ absurd (ground (arith, sorted, missing, h))
        | inl all ↦ elim (Bool-cases (header_signed (codes "host") given)) [
          | inr missing ↦ absurd (ground (arith, sorted, all, missing, h))
          | inl host ↦ given-Covers t headers given signed all host (rw (sorted, all, host) at h)
        ]
      ]
    ]

headers-Covers :
    (t : V4Tools) (s : Bytes) (headers : Values) (signed : List Bytes)
    → parse_signed_headers t s headers true ≡ fine signed
    → Covers t headers signed
unfolding parse_signed_headers
headers-Covers t s headers signed h =
    let behind : Bytes → Checked (List Bytes) =
      λ content. parse_signed_headers_content t content headers true in
    let (content, _, h') =
      bind_fine (parse_field t (codes "SignedHeaders") (code missing_sign_headers_tag) s) behind
        signed h in
    content-Covers t content headers signed h'

abbrev headers_in : Checked SignValues → List Bytes
headers_in (fine values) = values.signed_headers
headers_in (wrong e) = []

fields-Covers :
    (t : V4Tools) (fields : List Bytes) (headers : Values) (values : SignValues)
    → sign_fields t fields headers ≡ fine values
    → Covers t headers values.signed_headers
unfolding sign_fields
fields-Covers t [] headers values h = absurd (ground arith)
fields-Covers t (a ∷ []) headers values h = absurd (ground arith)
fields-Covers t (a ∷ b ∷ []) headers values h = absurd (ground arith)
fields-Covers t (a ∷ b ∷ c ∷ d ∷ rest) headers values h = absurd (ground arith)
fields-Covers t (a ∷ b ∷ c ∷ []) headers values h =
    let made : CredentialHeader → List Bytes → Bytes → Checked SignValues =
      λ credential signed signature.
        fine (record { credential = credential; signed_headers = signed; signature = signature }) in
    let behind_headers : CredentialHeader → List Bytes → Checked SignValues =
      λ credential signed. parse_signature t c >>= made credential signed in
    let behind_credential : CredentialHeader → Checked SignValues =
      λ credential. parse_signed_headers t b headers true >>= behind_headers credential in
    let (credential, _, h1) = bind_fine (parse_credential_header t a) behind_credential values h in
    let (signed, e, h2) =
      bind_fine (parse_signed_headers t b headers true) (behind_headers credential) values h1 in
    let (signature, _, h3) = bind_fine (parse_signature t c) (made credential signed) values h2 in
    subst (λ l. Covers t headers l) (ap headers_in h3) (headers-Covers t b headers signed e)

-- The header is parsed only if its list of signed headers has every header of the request whose
-- name begins with `x-amz-`, the host, and the type of the content if the request gives one.
pub parse_sign_v4-Covers :
    (t : V4Tools) (auth : Bytes) (headers : Values) (values : SignValues)
    → parse_sign_v4 t auth headers ≡ fine values
    → Covers t headers values.signed_headers
unfolding parse_sign_v4
parse_sign_v4-Covers t auth headers values h =
    elim (Bool-cases (length (without_spaces auth) == 0)) [
      | inl empty ↦ absurd (ground (arith, empty, h))
      | inr given ↦
          fields-Covers t
            (split 44 (trim_space (trim_start (codes "AWS4-HMAC-SHA256") (without_spaces auth))))
            headers values (rw given at h)
    ]
