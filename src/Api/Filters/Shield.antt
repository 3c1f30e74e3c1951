-- ===== src/Api/Filters/Shield.antt =====
-- What the filters keep from the router (api/generic-handlers.go).
use yig.Prelude.{ℕ, ◌≡◌, ◌⊎◌, inl, inr, refl, true, List, [], ◌∷◌, Option, codes, arith}
use yig.Types.{Bytes}
use yig.Storage.{Backend, World}
use yig.Errors.{ApiErrorCode}
use yig.Api.{Request, Response}
use yig.Api.Auth.{unknown, get_request_auth_type}
use yig.Api.Handler.{continue, go, answered, crashed, Reply}
use yig.Api.Cors.{Texts}
use yig.Api.Filters.{
  serve_path, check_resources, names_of, host_without_port, split_path, Wrapped, is_options,
  serve_cors, serve_auth, serve_resources, serve_common, register_handlers,
}

module _ {S D : Type 0} (b : Backend S) (other_code : ℕ → Option ApiErrorCode) (t : Texts)
    (reserved : List Bytes) where
  -- Two handlers that do the same with a request.
  abbrev pub Agree : Request → Wrapped S D → Wrapped S D → Type 0
  Agree r h h' = (st : World S × Response D) → h r st ≡ h' r st

  serve_cors-preflight :
      (h h' : Wrapped S D) (r : Request)
      → is_options r ≡ true
      → Agree r (serve_cors b other_code t reserved h) (serve_cors b other_code t reserved h')
  unfolding serve_cors
  serve_cors-preflight h h' r options st = rw options refl

  same_after :
      (h h' : Wrapped S D) (r : Request)
      → Agree r h h'
      → (x : Reply (Unit {0}) × (World S × Response D))
      → continue (λ _. h r) x ≡ continue (λ _. h' r) x
  same_after h h' r same (go a, st) = same st
  same_after h h' r same (answered, st) = refl
  same_after h h' r same (crashed, st) = refl

  serve_path-Agree :
      (suffix : Bytes) (h h' : Wrapped S D) (r : Request) (path : Bytes)
      → Agree r h h'
      → (st : World S × Response D) → serve_path suffix h r path st ≡ serve_path suffix h' r path st
  unfolding serve_path
  serve_path-Agree suffix h h' r [] same st = refl
  serve_path-Agree suffix h h' r (c ∷ path) same st =
      same_after h h' r same
        (check_resources r (names_of (host_without_port r) suffix (split_path path)) st)

  serve_resources-Agree :
      (suffix : Bytes) (h h' : Wrapped S D) (r : Request)
      → Agree r h h'
      → Agree r (serve_resources suffix h) (serve_resources suffix h')
  unfolding serve_resources
  serve_resources-Agree suffix h h' r same st =
      serve_path-Agree suffix h h' r (codes r.path) same st

  serve_auth-Agree :
      (h h' : Wrapped S D) (r : Request) → Agree r h h' → Agree r (serve_auth h) (serve_auth h')
  unfolding serve_auth
  serve_auth-Agree h h' r same st = ground (arith, same st)

  serve_auth-unknown :
      (h h' : Wrapped S D) (r : Request)
      → get_request_auth_type r ≡ unknown
      → Agree r (serve_auth h) (serve_auth h')
  unfolding serve_auth
  serve_auth-unknown h h' r e st = rw (e, serve_auth) refl

  -- A preflight request, and one whose signature is of no known kind, never reach the router: what
  -- the filters do with it is the same for any two routers.
  pub register_handlers-Agree :
      (suffix : Bytes) (router router' : Wrapped S D) (r : Request)
      → (is_options r ≡ true) ⊎ (get_request_auth_type r ≡ unknown)
      → Agree r
          (register_handlers b other_code t reserved suffix router)
          (register_handlers b other_code t reserved suffix router')
  unfolding register_handlers
  register_handlers-Agree suffix router router' r (inl options) =
      let cors : Wrapped S D = serve_cors b other_code t reserved (serve_common router) in
      let cors' : Wrapped S D = serve_cors b other_code t reserved (serve_common router') in
      serve_auth-Agree (serve_resources suffix cors) (serve_resources suffix cors') r (
        serve_resources-Agree suffix cors cors' r
          (serve_cors-preflight (serve_common router) (serve_common router') r options))
  register_handlers-Agree suffix router router' r (inr e) =
      serve_auth-unknown
        (serve_resources suffix (serve_cors b other_code t reserved (serve_common router)))
        (serve_resources suffix (serve_cors b other_code t reserved (serve_common router'))) r e
