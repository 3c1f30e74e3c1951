-- ===== src/Api/Filters.antt =====
-- The filters before the router (api/generic-handlers.go). A handler that is wrapped is an argument.
pub mod Shield
use Prim.Native.Char.{code as rune}
use Prim.Native.String
use yig.Prelude.{
  ℕ, String, Bool, true, false, List, [], ◌∷◌, Option, none, some, str_eq, if◌then◌else◌, not,
  length, ◌==◌, ◌&&◌, ◌||◌, codes, is_infix, take, ◌-◌,
}
use yig.Types.{Bytes, Bucket, CorsRule}
use yig.Storage.{Backend}
use yig.Errors
use yig.Errors.{ApiErrorCode}
use yig.Meta.{get_bucket}
use yig.Names.{split}
use yig.Api.{Values, get, Request, Response, code, set_header, write_success_response}
use yig.Api.Auth.{unknown, get_request_auth_type}
use yig.Api.Sse.{string_in_slice}
use yig.Api.Handler.{Handler, ◌>>=◌, ◌>>◌, respond, answer, crash, fail, fail_if, call_storage}
use yig.Api.Cors.{
  Texts, match_simple, match_preflight, set_response_headers, add_header, has_suffix,
}

-- A filter: the handler that it wraps, and the request.
abbrev pub Wrapped : Type 0 → Type 0 → Type 0
Wrapped S D = Request → Handler S D (Unit {0})

abbrev pub slash : ℕ
slash = 47

abbrev pub until_slash : String → String
until_slash String.[] = String.[]
until_slash (String.◌∷◌ c s) =
    let rest = until_slash s in if rune c == slash then String.[] else String.◌∷◌ c rest

-- `strings.SplitN(path[1:], "/", 2)[0]`; `none` is the slice out of range
unfoldable pub bucket_of_path : String → Option String
bucket_of_path String.[] = none
bucket_of_path (String.◌∷◌ c s) = some (until_slash s)

-- `InReservedOrigins`, with the pieces of the configuration between its commas
unfoldable pub in_reserved_origins : List Bytes → Bytes → Bool
in_reserved_origins [] origin = false
in_reserved_origins (r ∷ rs) origin =
    if is_infix r origin then true else in_reserved_origins rs origin

-- the first rule that matches
unfoldable pub first_match : (CorsRule → Bool) → List CorsRule → Option CorsRule
first_match matches [] = none
first_match matches (rule ∷ rules) = if matches rule then some rule else first_match matches rules

abbrev pub is_options : Request → Bool
is_options r = str_eq r.method "OPTIONS"

-- what `ignoreNotImplementedBucketResources` and `ignoreNotImplementedObjectResources` look for
abbrev pub not_implemented_bucket_resource_names : List String
not_implemented_bucket_resource_names =
    "logging" ∷ "notification" ∷ "replication" ∷ "tagging" ∷ "requestPayment" ∷ "website" ∷ []

abbrev pub not_implemented_object_resource_names : List String
not_implemented_object_resource_names = "torrent" ∷ "policy" ∷ []

unfoldable pub asks_for : List String → Values → Bool
asks_for names [] = false
asks_for names ((name, v) ∷ rest) = if string_in_slice name names then true else asks_for names rest

-- `strings.SplitN(s, "/", 2)`
unfoldable pub split_path : Bytes → Bytes × Option Bytes
split_path [] = ([], none)
split_path (c ∷ s) =
    let rest = split_path s in if c == slash then ([], some s) else (c ∷ rest.0, rest.1)

abbrev colon : ℕ
colon = 58

abbrev first_piece : List Bytes → Bytes
first_piece [] = []
first_piece (piece ∷ pieces) = piece

abbrev host_without_port : Request → Bytes
host_without_port r = first_piece (split colon (codes r.host))

abbrev or_empty : Option Bytes → Bytes
or_empty none = []
or_empty (some name) = name

-- The names of the bucket and the object, from the host and the path. Under a host of the domain
-- only a path of one piece gives the name of an object.
unfoldable pub names_of : Bytes → Bytes → Bytes × Option Bytes → Bytes × Bytes
names_of host suffix splits =
    if has_suffix host suffix
    then (take (length host - length suffix) host, elim splits.1 [ none ↦ splits.0 | some _ ↦ [] ])
    else (splits.0, or_empty splits.1)

module _ {S D : Type 0} where
  -- `commonHeaderHandler.ServeHTTP`
  unfoldable pub serve_common : Wrapped S D → Wrapped S D
  serve_common handler r = respond (set_header "Accept-Ranges" "bytes") >> handler r

  -- `AuthHandler.ServeHTTP`
  unfoldable pub serve_auth : Wrapped S D → Wrapped S D
  serve_auth handler r = elim (get_request_auth_type r) [
    | unknown ↦ fail r (code Errors.signature_version_not_supported)
    | _ ↦ handler r
  ]

  -- the tests of `resourceHandler.ServeHTTP`
  unfoldable pub check_resources : Request → Bytes × Bytes → Handler S D (Unit {0})
  check_resources r (bucket, object) = do
    fail_if
        (not (length bucket == 0)
          && (length object == 0)
          && asks_for not_implemented_bucket_resource_names r.query)
        r (code Errors.not_implemented)
    fail_if
        (not (length bucket == 0)
          && not (length object == 0)
          && asks_for not_implemented_object_resource_names r.query)
        r (code Errors.not_implemented)
    fail_if (str_eq r.method "PUT" && str_eq r.path "/" && (length bucket == 0)) r
        (code Errors.method_not_allowed)

  -- `resourceHandler.ServeHTTP`, with the bytes of the path
  unfoldable pub serve_path : Bytes → Wrapped S D → Request → Bytes → Handler S D (Unit {0})
  serve_path suffix handler r [] = crash
  serve_path suffix handler r (c ∷ path) =
      check_resources r (names_of (host_without_port r) suffix (split_path path)) >> handler r

  -- `resourceHandler.ServeHTTP`, with the domain of the configuration behind a dot
  unfoldable pub serve_resources : Bytes → Wrapped S D → Wrapped S D
  serve_resources suffix handler r = serve_path suffix handler r (codes r.path)

module _ {S D : Type 0} (b : Backend S) (other_code : ℕ → Option ApiErrorCode) (t : Texts)
    (reserved : List Bytes) where
  -- the headers for an origin of the configuration
  unfoldable pub allow_reserved : Response D → Response D
  allow_reserved w = set_header "Access-Control-Expose-Headers" "x-amz-acl, Etag" (
      set_header "Access-Control-Allow-Methods" "PUT, GET, DELETE, POST" (
        set_header "Access-Control-Allow-Headers"
          "content-md5, content-type, x-amz-acl, x-amz-date, x-amz-user-agent, authorization, x-amz-content-sha256"
          (set_header "Access-Control-Allow-Origin" "*" w)))

  -- the bucket that the path begins with
  unfoldable pub bucket_asked : Request → Handler S D Bucket
  bucket_asked r = elim (bucket_of_path r.path) [
    | none ↦ crash
    | some name ↦ call_storage other_code r (get_bucket b name true)
  ]

  -- the headers of the first rule, if one matches
  unfoldable pub allow_by : Request → Option CorsRule → Response D → Response D
  allow_by r none w = w
  allow_by r (some rule) w = set_response_headers t r rule (get r.header "Origin") w

  -- the answer to a preflight request, once its bucket is known
  unfoldable pub answer_preflight : Request → Option CorsRule → Handler S D (Unit {0})
  answer_preflight r none = fail r (code Errors.access_denied)
  answer_preflight r (some rule) =
      answer (λ w. write_success_response none (allow_by r (some rule) w))

  unfoldable pub serve_preflight : Request → Handler S D (Unit {0})
  serve_preflight r = do
    fail_if
        (str_eq (get r.header "Origin") ""
          || str_eq (get r.header "Access-Control-Request-Method") "")
        r (code Errors.invalid_header)
    if in_reserved_origins reserved (codes (get r.header "Origin"))
        then answer (λ w. write_success_response none (allow_reserved w))
        else (bucket_asked r >>= λ bucket.
            respond (λ w.
              add_header "Vary" "Access-Control-Request-Headers"
                (add_header "Vary" "Access-Control-Request-Method" w))
            >> answer_preflight r (first_match (match_preflight t r) bucket.cors))

  unfoldable pub serve_simple : Wrapped S D → Wrapped S D
  serve_simple handler r =
      if str_eq (get r.header "Origin") ""
      then handler r
      else if in_reserved_origins reserved (codes (get r.header "Origin"))
      then respond (set_header "Access-Control-Allow-Origin" (get r.header "Origin")) >> handler r
      else (bucket_asked r >>= λ bucket.
          respond (allow_by r (first_match (match_simple t r) bucket.cors)) >> handler r)

  -- `corsHandler.ServeHTTP`
  unfoldable pub serve_cors : Wrapped S D → Wrapped S D
  serve_cors handler r =
      respond (add_header "Vary" "Origin")
      >> (if is_options r then serve_preflight r else serve_simple handler r)

  -- The filters around the router, with those for logs and limits left out: the last one is the
  -- first to see a request.
  unfoldable pub register_handlers : Bytes → Wrapped S D → Wrapped S D
  register_handlers suffix router =
      serve_auth (serve_resources suffix (serve_cors (serve_common router)))
