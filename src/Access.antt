-- ===== src/Access.antt =====
-- The tests on a canned ACL with which the methods of the storage layer begin, and the key of a
-- server-side encryption (storage/storage.go, storage/object.go).
use yig.Prelude.{
  ℕ, String, Bool, ◌||◌, str_eq, [], if◌then◌else◌, length, ◌==◌, Option, none, some, ◌∷◌,
}
use yig.Types.{Bytes, Texts, Credential, Bucket, SseRequest}
use yig.Storage.{invalid_sse_header, ok, Action, pure, raise, call, Backend}

abbrev pub texts_at : Texts → String → Option String
texts_at [] key = none
texts_at ((k, v) ∷ m) key = if str_eq k key then some v else texts_at m key

-- A bucket may be written by all if it is `public-read-write`, else by its owner.
unfoldable pub may_write : Bucket → Credential → Bool
may_write bucket credential =
    str_eq bucket.acl.canned_acl "public-read-write" || str_eq bucket.owner_id credential.user_id

-- The same test of `DeleteObject`, which lets a request without a user pass.
unfoldable pub may_delete : Bucket → Credential → Bool
may_delete bucket credential =
    str_eq bucket.acl.canned_acl "public-read-write"
    || str_eq bucket.owner_id credential.user_id
    || str_eq credential.user_id ""

-- `getCustomedAttrs`: of the headers, the one that is kept.
unfoldable pub get_custom_attrs : Texts → Texts
get_custom_attrs metadata = elim (texts_at metadata "Cache-Control") [
  | none ↦ []
  | some attr ↦ ("Cache-Control", attr) ∷ []
]

abbrev pub encryption_key_length : ℕ
encryption_key_length = 32

abbrev pub initialization_vector_length : ℕ
initialization_vector_length = 16

module _ {S : Type 0} (b : Backend S) where
  -- `encryptionKeyFromSseRequest`
  unfoldable pub encryption_key_from_sse_request : SseRequest → Action S Bytes
  encryption_key_from_sse_request sse =
      if str_eq sse.type "" || str_eq sse.type "KMS"
      then pure []
      else if str_eq sse.type "S3"
      then call (b.random_bytes encryption_key_length)
      else if str_eq sse.type "C"
      then pure sse.sse_customer_key
      else raise invalid_sse_header

  -- `newInitializationVector`, where a key is set
  unfoldable pub initialization_vector_for : Bytes → Action S Bytes
  initialization_vector_for key =
      if length key == 0 then pure [] else call (b.random_bytes initialization_vector_length)

  -- `wrapEncryptionReader`: what its reader gives in all.
  unfoldable pub wrap_encryption : Bytes → Bytes → Bytes → Action S Bytes
  wrap_encryption content key iv w =
      if length key == 0 then (ok content, w) else (b.encrypt key iv content, w)
