-- ===== src/Put.antt =====
-- `PutObject` (storage/object.go): the upload to Ceph, then the entry in the database.
pub mod Queue
pub mod Rows
pub mod NilMap
mod Tests
use yig.Prelude.{
  ℕ, zero, suc, String, Bool, true, false, ◌&&◌, not, [], Option, none, some, str_eq, if◌then◌else◌,
  concat, ltb, take, ◌==◌,
}
use yig.Prelude.Int.{ℤ, pos, negsuc}
use yig.Types.{Bytes, Texts, Credential, Object, Bucket, Acl, SseRequest}
use yig.Storage.{
  incomplete_body, bad_digest, bucket_access_forbidden, Outcome, ok, err, panicked, Action, pure,
  raise, ◌>>=◌, ◌>>◌, call, do_call, caught, raise_if, recycle_and_raise, or_recycle,
  ObjectToRecycle, object_table, Backend, Body, return_of,
}
use yig.Meta.{get_bucket, object_key}
use yig.Access.{
  may_write, get_custom_attrs, texts_at, encryption_key_from_sse_request, initialization_vector_for,
  wrap_encryption,
}
use yig.Versions.{zero_object, clock, get_version_id, with_version_id, check_old_object}

pub record PutObjectResult : Type 0 where
  pub md5 : String
  pub last_modified : ℕ
  pub version_id : String

-- What an upload leaves: where it is in Ceph, the bytes written, and what was made on the way.
pub record Upload : Type 0 where
  pub place : ObjectToRecycle
  pub written : ℕ
  pub content : Bytes
  pub encryption_key : Bytes
  pub initialization_vector : Bytes

-- `io.LimitReader` where a size above 0 is known
unfoldable pub limited : ℤ → Bytes → Bytes
limited (pos zero) content = content
limited (pos (suc n)) content = take (suc n) content
limited (negsuc n) content = content

-- `bytesWritten < size`
unfoldable pub falls_short : ℕ → ℤ → Bool
falls_short written (pos n) = ltb written n
falls_short written (negsuc n) = false

-- A digest is asked for, and it is not the one that was computed.
unfoldable pub differs : Option String → String → Bool
differs none computed = false
differs (some asked) computed = not (str_eq asked "") && not (str_eq asked computed)

-- `signVerifyReader.Verify()`, where the reader is one
unfoldable pub verified : Body → Credential → Outcome Credential
verified body credential = elim body.signed [ none ↦ ok credential | some r ↦ r ]

-- the version number that the null version gets
abbrev pub null_number : Bucket → ℕ → ℕ → ℕ
null_number bucket old now = if str_eq bucket.versioning "Suspended" then now else old

module _ {S : Type 0} (b : Backend S) where
  -- from the choice of the pool to `cephCluster.Put`
  unfoldable pub upload_object : String → String → ℤ → Body → SseRequest → Action S Upload
  upload_object bucket name size body sse = do
    place ← call (λ s. let (p, s') = b.pick bucket name size s in (ok p, s'))
    oid ← call (λ s. let (p, s') = b.upload_name place.0 s in (ok p, s'))
    key ← encryption_key_from_sse_request b sse
    iv ← initialization_vector_for b key
    bytes ← wrap_encryption b (limited size body.content) key iv
    written ← call (b.ceph_put place.0 place.1 oid bytes)
    pure (record {
      place = record { location = place.0; pool = place.1; object_id = oid; tried_times = 0 };
      written = written;
      content = limited size body.content;
      encryption_key = key;
      initialization_vector = iv;
    })

  -- the three tests behind the upload
  unfoldable pub check_upload : Upload → ℤ → Body → Texts → Credential → Action S Credential
  check_upload up size body metadata credential =
      if falls_short up.written size
      then recycle_and_raise up.place incomplete_body
      else if differs (texts_at metadata "md5Sum") (b.md5_hex up.content)
      then recycle_and_raise up.place bad_digest
      else or_recycle (return_of (verified body credential)) up.place

  -- the object that is entered
  abbrev pub new_object :
      Bucket → String → String → Upload → Texts → Credential → Acl → SseRequest → ℕ → Object
  new_object bucket bucket_name name up metadata credential acl sse now = record zero_object {
    name = name;
    bucket_name = bucket_name;
    location = up.place.location;
    pool = up.place.pool;
    owner_id = credential.user_id;
    size = up.written;
    object_id = up.place.object_id;
    last_modified_time = now;
    etag = b.md5_hex up.content;
    content_type = elim (texts_at metadata "Content-Type") [ none ↦ "" | some t ↦ t ];
    acl = acl;
    null_version = not (str_eq bucket.versioning "Enabled");
    delete_marker = false;
    sse_type = sse.type;
    encryption_key = if str_eq sse.type "S3" then up.encryption_key else [];
    initialization_vector = up.initialization_vector;
    custom_attributes = get_custom_attrs metadata;
  }

  -- `PutObjMapEntry`, where there is a null version to point to; if it fails, the entry of the
  -- object is deleted again
  unfoldable pub point_to_null : Object → ℕ → Action S (Unit {0})
  point_to_null o null_ver_num =
      if null_ver_num == 0
      then pure tt
      else caught (
          call (
            b.client_put_object_map (record {
              name = o.name;
              bucket_name = o.bucket_name;
              null_ver_num = null_ver_num;
              null_ver_id = "";
            })))
        >>= λ r. elim r [
          | ok _ ↦ pure tt
          | err e ↦ caught (call (b.client_delete_object o)) >> raise e
          | panicked ↦ return_of panicked
        ]

  -- the end of `PutObject`: the usage grows, and the entries of the caches are dropped
  unfoldable pub announce : Bucket → Object → Action S PutObjectResult
  announce bucket o = do
    do_call (b.client_update_usage o.bucket_name (pos o.size))
    do_call (b.cache_remove object_table (object_key o.bucket_name o.name))
    do_call (b.data_cache_remove (concat (object_key o.bucket_name o.name) (get_version_id b o)))
    pure (record {
      md5 = o.etag;
      last_modified = o.last_modified_time;
      version_id = if str_eq bucket.versioning "Enabled" then get_version_id b o else "";
    })

  -- from `PutObjectEntry` on, with the number that `checkOldObject` has returned
  unfoldable pub enter_entry : Bucket → Object → ObjectToRecycle → ℕ → Action S PutObjectResult
  enter_entry bucket o place old =
      or_recycle (call (b.client_put_object (with_version_id b o))) place
      >> or_recycle
          (point_to_null (with_version_id b o) (null_number bucket old o.last_modified_time)) place
      >> announce bucket o

  -- from `checkOldObject` on
  unfoldable pub enter_object : Bucket → Object → ObjectToRecycle → Action S PutObjectResult
  enter_object bucket o place =
      or_recycle (check_old_object b o.bucket_name o.name bucket.versioning) place
      >>= enter_entry bucket o place

  -- all that follows the upload
  unfoldable pub finish_put :
      Bucket
      → String
      → String
      → Credential
      → ℤ
      → Body
      → Texts
      → Acl
      → SseRequest
      → Upload
      → Action S PutObjectResult
  finish_put bucket bucket_name name credential size body metadata acl sse up = do
    signer ← check_upload up size body metadata credential
    now ← clock b
    enter_object bucket (new_object bucket bucket_name name up metadata signer acl sse now) up.place

  -- what precedes it
  unfoldable pub begin_put :
      String → String → Credential → ℤ → Body → SseRequest → Action S (Bucket × Upload)
  begin_put bucket_name name credential size body sse = do
    bucket ← get_bucket b bucket_name true
    raise_if (not (may_write bucket credential)) bucket_access_forbidden
    up ← upload_object bucket_name name size body sse
    pure (bucket, up)

  -- `PutObject`
  unfoldable pub put_object :
      String → String → Credential → ℤ → Body → Texts → Acl → SseRequest → Action S PutObjectResult
  put_object bucket_name name credential size body metadata acl sse = do
    begun ← begin_put bucket_name name credential size body sse
    finish_put begun.0 bucket_name name credential size body metadata acl sse begun.1
