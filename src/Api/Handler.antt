-- ===== src/Api/Handler.antt =====
-- A run of a handler: the storage layer's world and the response, until the handler has answered.
use yig.Prelude.{ℕ, Bool, Option, none, some, if◌then◌else◌, ◌≡◌, refl, ap}
use yig.Types.{Credential}
use yig.Storage.{
  Error, access_denied, bad_digest, bucket_already_exists, bucket_already_owned_by_you,
  bucket_access_forbidden, bucket_not_empty, entity_too_large, incomplete_body, internal_error,
  invalid_part, invalid_sse_header, no_such_bucket_lc, no_such_bucket_cors, no_such_key,
  no_such_version, not_implemented, too_many_buckets, unsupported_acl, bad_versioning,
  no_such_cluster, invalid_continuation_token, part_too_small, other, ok, err, panicked, World,
  Action,
}
use yig.Errors
use yig.Errors.{ApiErrorCode}
use yig.Api.{Request, Response, Fault, code, too_small, plain, write_error_response}
use yig.Api.Auth.{Verifier, granted, refused, credential_of}
use yig.Api.Sse.{Checked, fine, wrong}

-- What a piece of a handler comes to: it goes on, it has answered, or it has panicked.
pub data Reply (A : Type 0) : Type 0 where
  go : A → Reply A
  answered : Reply A
  crashed : Reply A

abbrev pub Handler : Type 0 → Type 0 → Type 0 → Type 0
Handler S D A = World S × Response D → Reply A × (World S × Response D)

-- An error of the storage layer as the value that the handlers see. `other_code` tells which of the
-- errors that are told apart by a number are codes of the table.
abbrev pub fault_of : (ℕ → Option ApiErrorCode) → Error → Fault
fault_of other_code access_denied = code Errors.access_denied
fault_of other_code bad_digest = code Errors.bad_digest
fault_of other_code bucket_already_exists = code Errors.bucket_already_exists
fault_of other_code bucket_already_owned_by_you = code Errors.bucket_already_owned_by_you
fault_of other_code bucket_access_forbidden = code Errors.bucket_access_forbidden
fault_of other_code bucket_not_empty = code Errors.bucket_not_empty
fault_of other_code entity_too_large = code Errors.entity_too_large
fault_of other_code incomplete_body = code Errors.incomplete_body
fault_of other_code internal_error = code Errors.internal_error
fault_of other_code invalid_part = code Errors.invalid_part
fault_of other_code invalid_sse_header = code Errors.invalid_sse_header
fault_of other_code no_such_bucket_lc = code Errors.no_such_bucket_lc
fault_of other_code no_such_bucket_cors = code Errors.no_such_bucket_cors
fault_of other_code no_such_key = code Errors.no_such_key
fault_of other_code no_such_version = code Errors.no_such_version
fault_of other_code not_implemented = code Errors.not_implemented
fault_of other_code too_many_buckets = code Errors.too_many_buckets
fault_of other_code unsupported_acl = code Errors.unsupported_acl
fault_of other_code bad_versioning = plain
fault_of other_code no_such_cluster = plain
fault_of other_code invalid_continuation_token = code Errors.invalid_continuation_token
fault_of other_code (part_too_small size number etag) = too_small size number etag
fault_of other_code (other n) = elim (other_code n) [ none ↦ plain | some e ↦ code e ]

module _ {S D : Type 0} where
  abbrev pub pure : {A : Type 0} → A → Handler S D A
  pure a st = (go a, st)

  abbrev pub continue :
      {A B : Type 0}
      → (A → Handler S D B)
      → Reply A × (World S × Response D)
      → Reply B × (World S × Response D)
  continue f (go a, st) = f a st
  continue f (answered, st) = (answered, st)
  continue f (crashed, st) = (crashed, st)

  infixl 5 ◌>>=◌ ◌>>◌
  abbrev pub ◌>>=◌ : {A B : Type 0} → Handler S D A → (A → Handler S D B) → Handler S D B
  ◌>>=◌ m f st = continue f (m st)

  abbrev pub ◌>>◌ : {A B : Type 0} → Handler S D A → Handler S D B → Handler S D B
  m >> k = m >>= λ _. k

  -- what is done to the response on the way
  abbrev pub respond : (Response D → Response D) → Handler S D (Unit {0})
  respond f (world, w) = (go tt, (world, f w))

  -- what is done to it at last; the handler returns
  abbrev pub answer : {A : Type 0} → (Response D → Response D) → Handler S D A
  answer f (world, w) = (answered, (world, f w))

  abbrev pub crash : {A : Type 0} → Handler S D A
  crash st = (crashed, st)

  -- `WriteErrorResponse(w, r, e); return`
  abbrev pub fail : {A : Type 0} → Request → Fault → Handler S D A
  fail r e = answer (write_error_response r e)

  abbrev pub fail_if : Bool → Request → Fault → Handler S D (Unit {0})
  fail_if test r e = if test then fail r e else pure tt

  -- a call of the storage layer, and what the handler makes of its error
  abbrev pub call_or : {A : Type 0} → Action S A → (Error → Handler S D A) → Handler S D A
  call_or m rescue (world, w) =
      let (r, world') = m world in
      elim r [
        | ok a ↦ (go a, (world', w))
        | err e ↦ rescue e (world', w)
        | panicked ↦ (crashed, (world', w))
      ]

  -- a call whose error is answered as it is
  abbrev pub call_storage :
      {A : Type 0} → (ℕ → Option ApiErrorCode) → Request → Action S A → Handler S D A
  call_storage other_code r m = call_or m (λ e. fail r (fault_of other_code e))

  -- a check of the headers, whose error is answered
  abbrev pub checked : {A : Type 0} → Request → Checked A → Handler S D A
  checked r (fine a) = pure a
  checked r (wrong e) = fail r e

  -- the credential of the request, with which most handlers begin
  unfoldable pub authenticate : Verifier → Request → Handler S D Credential
  authenticate v r = elim (credential_of v r) [ granted c ↦ pure c | refused e ↦ fail r e ]

  -- A piece that goes on is followed by the next.
  pub bind_go :
      {A B : Type 0} (m : Handler S D A) (f : A → Handler S D B) (a : A)
      (st st' : World S × Response D)
      → m st ≡ (go a, st')
      → (m >>= f) st ≡ f a st'
  bind_go m f a st st' e = ap (continue f) e

  pub bind_answered :
      {A B : Type 0} (m : Handler S D A) (f : A → Handler S D B) (st st' : World S × Response D)
      → m st ≡ (answered, st')
      → (m >>= f) st ≡ (answered, st')
  bind_answered m f st st' e = ap (continue f) e

  -- A run that goes on has gone on from the first piece.
  continue-eq-go :
      {A B : Type 0} (f : A → Handler S D B) (r : Reply A) (st st' : World S × Response D) {b : B}
      → continue f (r, st) ≡ (go b, st')
      → (a : A) × (r ≡ go a) × (f a st ≡ (go b, st'))
  continue-eq-go f (go a) st st' h = (a, refl, h)
  continue-eq-go f answered st st' h = cc
  continue-eq-go f crashed st st' h = cc

  pub >>=-eq-go :
      {A B : Type 0} (m : Handler S D A) (f : A → Handler S D B) (st st' : World S × Response D)
      {b : B}
      → (m >>= f) st ≡ (go b, st')
      → (a : A) × (s : World S × Response D) × (m st ≡ (go a, s)) × (f a s ≡ (go b, st'))
  >>=-eq-go m f st st' h =
      let (a, e, rest) = continue-eq-go f (m st).0 (m st).1 st' h in
      (a, (m st).1, ap (λ x. (x, (m st).1)) e, rest)

  pub call_storage-ok :
      {A : Type 0} (other_code : ℕ → Option ApiErrorCode) (r : Request) (m : Action S A) (a : A)
      (world world' : World S) (w : Response D)
      → m world ≡ (ok a, world')
      → call_storage other_code r m (world, w) ≡ (go a, (world', w))
  call_storage-ok other_code r m a world world' w h = cc
