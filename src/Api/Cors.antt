-- ===== src/Api/Cors.antt =====
-- The matching of CORS rules, and the headers of an answer to another origin (api/datatype/cors.go).
-- The parts of a URL that `url.Parse` finds, `strings.Join` and `strconv.Itoa` are parameters.
pub mod Origin
use yig.Prelude.{
  ℕ, String, Bool, true, false, List, [], ◌∷◌, ◌++◌, Option, none, some, str_eq, if◌then◌else◌, not,
  length, drop, ltb, ◌-◌, ◌&&◌, ◌||◌, codes, is_prefix,
}
use yig.Prelude.Int.{ℤ, pos, ltb_ℤ}
use yig.Types.{Bytes, CorsRule}
use yig.Names.{split}
use yig.Preconditions.{bytes_eq}
use yig.Api.{values_at, get, Request, Response, set_header, put_values}
use yig.Api.Sse.{string_in_slice}

-- `Scheme` and `Host` of a `url.URL`
pub record Url : Type 0 where
  pub scheme : Bytes
  pub host : Bytes

-- What the rules take from the standard library.
pub record Texts : Type 0 where
  pub parse_url : String → Option Url
  pub join : List String → String
  pub itoa : ℤ → String

-- `strings.HasSuffix(s, suffix)`
unfoldable pub has_suffix : Bytes → Bytes → Bool
has_suffix s suffix =
    not (ltb (length s) (length suffix)) && bytes_eq (drop (length s - length suffix) s) suffix

abbrev pub star : ℕ
star = 42

-- The host, against the pieces of an allowed host between its stars.
unfoldable pub match_host : List Bytes → Bytes → Bool
match_host [] host = false
match_host (whole ∷ []) host = bytes_eq host whole
match_host (before ∷ after ∷ []) host = is_prefix before host && has_suffix host after
match_host (a ∷ b ∷ c ∷ rest) host = false

unfoldable pub match_url : Url → Url → Bool
match_url allowed url =
    if bytes_eq allowed.scheme url.scheme
      || (bytes_eq allowed.scheme [] && bytes_eq url.scheme (codes "http"))
    then match_host (split star allowed.host) url.host
    else false

module _ (t : Texts) where
  -- `matchOrigin`
  unfoldable pub match_origin : String → String → Bool
  match_origin url allowed_origin =
      if str_eq allowed_origin "*" then true else (elim (t.parse_url allowed_origin) [
        | none ↦ false
        | some allowed ↦ elim (t.parse_url url) [
          | none ↦ false
          | some given ↦ match_url allowed given
        ]
      ])

  unfoldable pub match_origins : String → List String → Bool
  match_origins url [] = false
  match_origins url (origin ∷ origins) =
      if match_origin url origin then true else match_origins url origins

  -- `MatchSimple`
  unfoldable pub match_simple : Request → CorsRule → Bool
  match_simple r rule =
      if not (string_in_slice r.method rule.allowed_methods)
      then false
      else match_origins (get r.header "Origin") rule.allowed_origins

  -- `MatchPreflight`
  unfoldable pub match_preflight : Request → CorsRule → Bool
  match_preflight r rule =
      if not (string_in_slice (get r.header "Access-Control-Request-Method") rule.allowed_methods)
      then false
      else match_origins (get r.header "Origin") rule.allowed_origins

abbrev values_or_none : Option (List String) → List String
values_or_none none = []
values_or_none (some vs) = vs

module _ {D : Type 0} where
  -- `w.Header().Add(key, value)`
  unfoldable pub add_header : String → String → Response D → Response D
  add_header key value w = record w {
    header = put_values key (values_or_none (values_at w.header key) ++ value ∷ []) w.header;
  }

  unfoldable pub add_headers : String → List String → Response D → Response D
  add_headers key [] w = w
  add_headers key (v ∷ vs) w = add_headers key vs (add_header key v w)

  -- the allowed headers
  unfoldable pub allow_headers : Request → List String → Response D → Response D
  allow_headers r [] w = w
  allow_headers r (h ∷ []) w =
      if str_eq h "*"
      then (elim (values_at r.header "Access-Control-Request-Headers") [
        | none ↦ set_header "Access-Control-Allow-Headers" "*" w
        | some asked ↦ add_headers "Access-Control-Allow-Headers" asked w
      ])
      else add_headers "Access-Control-Allow-Headers" (h ∷ []) w
  allow_headers r (h ∷ h' ∷ hs) w = add_headers "Access-Control-Allow-Headers" (h ∷ h' ∷ hs) w

  unfoldable pub set_joined : Texts → String → List String → Response D → Response D
  set_joined t key [] w = w
  set_joined t key (v ∷ vs) w = set_header key (t.join (v ∷ vs)) w

  unfoldable pub allow_origin : String → Response D → Response D
  allow_origin origin w =
      if str_eq origin "" then w else set_header "Access-Control-Allow-Origin" origin w

  -- `SetResponseHeaders`
  unfoldable pub set_response_headers :
      Texts → Request → CorsRule → String → Response D → Response D
  set_response_headers t r rule origin w =
      let w1 = allow_headers r rule.allowed_headers (allow_origin origin w) in
      let w2 = set_joined t "Access-Control-Allow-Methods" rule.allowed_methods w1 in
      let w3 = set_joined t "Access-Control-Expose-Headers" rule.exposed_headers w2 in
      if ltb_ℤ (pos 0) rule.max_age_seconds
      then set_header "Access-Control-Max-Age" (t.itoa rule.max_age_seconds) w3
      else w3
