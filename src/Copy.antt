-- ===== src/Copy.antt =====
-- `CopyObject` (storage/object.go). A map of parts is gone through in the order of its list, which
-- stands for the order that the iteration happens to take.
pub mod Steps
pub mod Cut
pub mod Leaves
mod Tests
use yig.Prelude.{
  ℕ, String, not, [], ◌∷◌, Option, none, some, str_eq, if◌then◌else◌, ltb, take, drop, ◌==◌, length,
  Map, insert, false, true,
}
use yig.Prelude.Int.{pos}
use yig.Types.{Bytes, Credential, Object, Bucket, Part, SseRequest}
use yig.Storage.{
  incomplete_body, bad_digest, internal_error, bucket_access_forbidden, Outcome, ok, err, panicked,
  Action, pure, raise, panic, ◌>>=◌, ◌>>◌, call, caught, raise_if, recycle_and_raise,
  ObjectToRecycle, Backend,
}
use yig.Meta.{get_bucket}
use yig.Access.{
  may_write, encryption_key_from_sse_request, initialization_vector_for, wrap_encryption,
}
use yig.Versions.{clock}
use yig.Put.{PutObjectResult, enter_object}

-- Where the copy goes: the names of the cluster and the pool.
abbrev pub Target : Type 0
Target = String × String

abbrev pub place_in : Target → String → ObjectToRecycle
place_in target oid = record {
  location = target.0;
  pool = target.1;
  object_id = oid;
  tried_times = 0;
}

-- The parts that are copied so far, and the last object that was uploaded.
abbrev pub Progress : Type 0
Progress = Map Part × ObjectToRecycle

abbrev pub nowhere : ObjectToRecycle
nowhere = record { location = ""; pool = ""; object_id = ""; tried_times = 0 }

module _ {S : Type 0} (b : Backend S) where
  abbrev pub copied_part : Part → String → Bytes → ℕ → Part
  copied_part p oid iv now = record p {
    last_modified = now;
    object_id = oid;
    initialization_vector = iv;
  }

  -- the tests on a part behind its `Put`, which has written `written` bytes
  unfoldable pub check_part : Part → Bytes → ObjectToRecycle → ℕ → Action S (Unit {0})
  check_part p content place written =
      if ltb written p.size
      then recycle_and_raise place incomplete_body
      else if not (str_eq (b.md5_hex content) p.etag)
      then recycle_and_raise place internal_error
      else pure tt

  -- A `Put` that fails returns 0 bytes, and this is looked at before its error.
  unfoldable pub check_put_part : Part → Bytes → ObjectToRecycle → Outcome ℕ → Action S (Unit {0})
  check_put_part p content place (ok written) = check_part p content place written
  check_put_part p content place (err e) =
      if ltb 0 p.size then recycle_and_raise place incomplete_body else raise e
  check_put_part p content place panicked = panic

  -- `Put` of a part, and what follows it in the loop. The error of `wrapEncryptionReader` is not
  -- looked at: without a reader `Put` panics.
  unfoldable pub put_part :
      Target → Part → Bytes → String → Bytes → Outcome Bytes → Action S (Part × ObjectToRecycle)
  put_part target p content oid iv (ok bytes) = do
    written ← caught (call (b.ceph_put target.0 target.1 oid bytes))
    check_put_part p content (place_in target oid) written
    now ← clock b
    pure (copied_part p oid iv now, place_in target oid)
  put_part target p content oid iv (err e) = panic
  put_part target p content oid iv panicked = panic

  -- A round of the loop over the parts. If the source ends before the part does, the pipe to `Put`
  -- is not closed, and the call never returns: `none`.
  unfoldable pub copy_part :
      Target → Bytes → Part → Bytes → Action S (Option (Part × ObjectToRecycle))
  copy_part target key p source = do
    oid ← call (λ s. let (name, s') = b.upload_name target.0 s in (ok name, s'))
    iv ← initialization_vector_for b key
    bytes ← caught (wrap_encryption b (take p.size source) key iv)
    if ltb (length source) p.size
        then pure none
        else (put_part target p (take p.size source) oid iv bytes >>= λ done. pure (some done))

  -- the loop, with the rest of the source
  unfoldable pub copy_parts :
      Target → Bytes → Map Part → Bytes → Progress → Action S (Option Progress)
  copy_parts target key [] source so_far = pure (some so_far)
  copy_parts target key ((i, p) ∷ ps) source so_far = copy_part target key p source >>= λ copied.
      elim copied [
        | none ↦ pure none
        | some done ↦
            copy_parts target key ps (drop p.size source) (insert i done.0 so_far.0, done.1)
      ]

  -- an object of one part
  unfoldable pub check_whole : Object → Bytes → ObjectToRecycle → ℕ → Action S (Unit {0})
  check_whole o content place written =
      if ltb written o.size
      then recycle_and_raise place incomplete_body
      else if not (str_eq (b.md5_hex content) o.etag)
      then recycle_and_raise place bad_digest
      else pure tt

  unfoldable pub copy_whole : Target → Bytes → Object → Bytes → Action S (Object × ObjectToRecycle)
  copy_whole target key o source = do
    oid ← call (λ s. let (name, s') = b.upload_name target.0 s in (ok name, s'))
    iv ← initialization_vector_for b key
    bytes ← wrap_encryption b (take o.size source) key iv
    written ← call (b.ceph_put target.0 target.1 oid bytes)
    check_whole o (take o.size source) (place_in target oid) written
    pure (record o { object_id = oid; initialization_vector = iv }, place_in target oid)

  -- both ways; the parts of the object are those of the source
  unfoldable pub copy_content :
      Target → Bytes → Object → Bytes → Action S (Option (Object × ObjectToRecycle))
  copy_content target key o source =
      if length o.parts == 0
      then (copy_whole target key o source >>= λ done. pure (some done))
      else (copy_parts target key o.parts source ([], nowhere) >>= λ copied. elim copied [
        | none ↦ pure none
        | some done ↦ pure (some (record o { object_id = ""; parts = done.0 }, done.1))
      ])

  -- the object that is entered
  abbrev pub copied_object : Bucket → Target → Credential → SseRequest → Bytes → Object → ℕ → Object
  copied_object bucket target credential sse key o now = record o {
    rowkey = [];
    version_id = "";
    location = target.0;
    pool = target.1;
    owner_id = credential.user_id;
    last_modified_time = now;
    null_version = not (str_eq bucket.versioning "Enabled");
    delete_marker = false;
    sse_type = sse.type;
    encryption_key = if str_eq sse.type "S3" then key else [];
  }

  -- behind the copy of the content: only the last object that was uploaded is handed to the queue
  -- when something fails
  unfoldable pub finish_copy :
      Bucket
      → Target
      → Credential
      → SseRequest
      → Bytes
      → Option (Object × ObjectToRecycle)
      → Action S (Option PutObjectResult)
  finish_copy bucket target credential sse key none = pure none
  finish_copy bucket target credential sse key (some (o, place)) = clock b >>= λ now.
      enter_object b bucket (copied_object bucket target credential sse key o now) place
      >>= λ result. pure (some result)

  -- `CopyObject`; `none` is a call that never returns
  unfoldable pub copy_object :
      Object → Bytes → Credential → SseRequest → Action S (Option PutObjectResult)
  copy_object o source credential sse = do
    bucket ← get_bucket b o.bucket_name true
    raise_if (not (may_write bucket credential)) bucket_access_forbidden
    target ← call (λ s. let (p, s') = b.pick o.bucket_name o.name (pos o.size) s in (ok p, s'))
    key ← encryption_key_from_sse_request b sse
    copied ← copy_content target key o source
    finish_copy bucket target credential sse key copied
