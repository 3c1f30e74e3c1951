-- ===== src/Multipart/Complete.antt =====
-- `CompleteMultipartUpload` (storage/multipart.go), with its roll back.
use yig.Prelude.{ℕ, String, false, not, List, [], str_eq, if◌then◌else◌, concat, length, Map}
use yig.Types.{Credential, Object, Bucket, Part, Multipart, CompletePart}
use yig.Storage.{
  ok, err, panicked, Action, pure, raise, ◌>>=◌, ◌>>◌, call, do_call, caught, object_table, Backend,
  return_of,
}
use yig.Meta.{object_key}
use yig.Versions.{zero_object, clock, get_version_id, with_version_id, check_old_object}
use yig.Put.{null_number, point_to_null}
use yig.Multipart.{complete_parts}
use yig.Multipart.Handlers.{get_writable_bucket, CompleteResult}

-- The object that is entered: all parts of the upload, with the offsets that were set.
abbrev pub completed_object :
    Bucket → Multipart → String → String → Map Part → ℕ → String → ℕ → Object
completed_object bucket m bucket_name name parts total etag now = record zero_object {
  name = name;
  bucket_name = bucket_name;
  owner_id = m.metadata.owner_id;
  pool = m.metadata.pool;
  location = m.metadata.location;
  size = total;
  last_modified_time = now;
  etag = etag;
  content_type = m.metadata.content_type;
  parts = parts;
  acl = m.metadata.acl;
  null_version = not (str_eq bucket.versioning "Enabled");
  delete_marker = false;
  sse_type = m.metadata.sse_request.type;
  encryption_key = m.metadata.encryption_key;
  custom_attributes = m.metadata.attrs;
}

module _ {S : Type 0} (b : Backend S) where
  -- `Client.DeleteMultipart`; if it fails, the entry of the object is deleted again, and an error
  -- of that is dropped
  unfoldable pub drop_upload : Multipart → Object → Action S (Unit {0})
  drop_upload m o = caught (call (b.client_delete_multipart m)) >>= λ r. elim r [
    | ok _ ↦ pure tt
    | err e ↦ caught (call (b.client_delete_object o)) >> raise e
    | panicked ↦ return_of panicked
  ]

  -- the end: the entries of the caches are dropped
  unfoldable pub announce_completed : Bucket → Multipart → Object → Action S CompleteResult
  announce_completed bucket m o = do
    do_call (b.cache_remove object_table (object_key o.bucket_name o.name))
    do_call (b.data_cache_remove (concat (object_key o.bucket_name o.name) (get_version_id b o)))
    pure (record {
      etag = o.etag;
      version_id = if str_eq bucket.versioning "Enabled" then get_version_id b o else "";
      sse_type = m.metadata.sse_request.type;
      sse_aws_kms_key_id = m.metadata.sse_request.sse_aws_kms_key_id;
      sse_customer_algorithm = m.metadata.sse_request.sse_customer_algorithm;
      sse_customer_key = m.metadata.sse_request.sse_customer_key;
    })

  -- from `PutObjectEntry` on, with the number that `checkOldObject` has returned
  unfoldable pub enter_row : Bucket → Multipart → Object → ℕ → Action S CompleteResult
  enter_row bucket m o old =
      call (b.client_put_object (with_version_id b o))
      >> point_to_null b (with_version_id b o) (null_number bucket old o.last_modified_time)
      >> drop_upload m (with_version_id b o)
      >> announce_completed bucket m o

  -- what follows the loop over the parts
  unfoldable pub enter_completed : Bucket → Multipart → Object → Action S CompleteResult
  enter_completed bucket m o =
      check_old_object b o.bucket_name o.name bucket.versioning >>= enter_row bucket m o

  -- `CompleteMultipartUpload`; `strconv.Itoa` is an argument
  unfoldable pub complete_multipart_upload :
      (ℕ → String)
      → Credential
      → String
      → String
      → String
      → List CompletePart
      → Action S CompleteResult
  complete_multipart_upload decimal credential bucket_name name upload_id uploaded = do
    bucket ← get_writable_bucket b bucket_name credential
    m ← call (b.client_get_multipart bucket_name name upload_id)
    checked ← return_of (complete_parts b.decode_hex (length uploaded) uploaded 1 m.parts 0 [])
    now ← clock b
    enter_completed bucket m (
        completed_object bucket m bucket_name name checked.0 checked.1
          (concat (b.md5_hex checked.2) (concat "-" (decimal (length uploaded)))) now)
