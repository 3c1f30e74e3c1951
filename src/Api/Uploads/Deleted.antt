-- ===== src/Api/Uploads/Deleted.antt =====
-- Every key of a request to delete several objects is answered (api/bucket-handlers.go).
use yig.Prelude.{ℕ, String, ◌≡◌, ◌⊎◌, List, [], ◌∷◌, ◌++◌, Option, none, some}
use yig.Types.{Credential}
use yig.Storage.{Backend, World, Outcome, ok, err, panicked}
use yig.Errors.{ApiErrorCode}
use yig.Versions.Delete.{DeleteObjectResult}
use yig.Api.Documents.{ObjectIdentifier, DeleteError}
use yig.Api.Handler.{fault_of}
use yig.Api.Uploads.{Deleted, delete_each, identifier, delete_error}

-- The keys in their order: each is the next of the objects or the next of the errors, and none of
-- either is left.
unfoldable pub IsSplit : List (String × String) → List ObjectIdentifier → List DeleteError → Type 0
IsSplit [] ids errors = (ids ≡ []) × (errors ≡ [])
IsSplit (key ∷ keys) ids errors =
    ((id : ObjectIdentifier) × (rest : List ObjectIdentifier) × (ids ≡ id ∷ rest)
      × ((id.object_name, id.version_id) ≡ key)
      × IsSplit keys rest errors)
    ⊎ ((e : DeleteError) × (rest : List DeleteError) × (errors ≡ e ∷ rest)
        × ((e.key, e.version_id) ≡ key)
        × IsSplit keys ids rest)

-- What the loop has added to the two lists is split from the keys.
abbrev pub Adds : List (String × String) → Deleted → Deleted → Type 0
Adds keys so_far done =
    (ids : List ObjectIdentifier) × (errors : List DeleteError) × (done
      ≡ (so_far.0 ++ ids, so_far.1 ++ errors))
    × IsSplit keys ids errors

abbrev done_or : Deleted → Option Deleted → Deleted
done_or so_far none = so_far
done_or so_far (some done) = done

module _ {S : Type 0} (b : Backend S) (other_code : ℕ → Option ApiErrorCode) where
  abbrev step :
      String
      → Credential
      → String × String
      → List (String × String)
      → Deleted
      → Outcome DeleteObjectResult × World S
      → Option Deleted × World S
  step bucket credential key keys so_far x = elim x.0 [
    | ok result ↦
        delete_each b other_code bucket credential keys
          (so_far.0 ++ identifier key result ∷ [], so_far.1) x.1
    | err e ↦
        delete_each b other_code bucket credential keys
          (so_far.0, so_far.1 ++ delete_error (fault_of other_code e) key ∷ []) x.1
    | panicked ↦ (none, x.1)
  ]
