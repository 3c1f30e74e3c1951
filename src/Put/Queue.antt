-- ===== src/Put/Queue.antt =====
-- `PutObject` and the queue of objects to remove.
use yig.Prelude.{subst, sym, ◌≡◌, refl, arith, ℕ, String}
use yig.Prelude.Int.{ℤ}
use yig.Types.{Object, Bucket, Credential, Texts, Acl, SseRequest}
use yig.Storage.{ok, World, Action, Backend, Body, ObjectToRecycle}
use yig.Storage.Queue.{IsQuiet, Handed, >>=-Handed, or_recycle-Handed}
use yig.Versions.{clock}
use yig.Versions.Queue.{check_old_object-IsQuiet}
use yig.Put.{
  Upload, PutObjectResult, point_to_null, enter_object, check_upload, finish_put, begin_put,
  put_object, new_object, announce, enter_entry, check_old_object, call, or_recycle, ◌>>=◌, ◌>>◌,
  with_version_id, null_number,
}

module _ {S : Type 0} (b : Backend S) where
  pub point_to_null-IsQuiet : (o : Object) (n : ℕ) → IsQuiet (point_to_null b o n)
  unfolding point_to_null
  point_to_null-IsQuiet o n w = ground arith

  announce-Handed :
      (bucket : Bucket) (o : Object) (r : ObjectToRecycle) (w : World S)
      → Handed r w (announce b bucket o w)
  unfolding announce
  announce-Handed bucket o r w = refl

  enter_entry-Handed :
      (bucket : Bucket) (o : Object) (r : ObjectToRecycle) (old : ℕ) (w : World S)
      → Handed r w (enter_entry b bucket o r old w)
  unfolding enter_entry
  enter_entry-Handed bucket o r old =
      let put : Action S (Unit {0}) = call (b.client_put_object (with_version_id b o)) in
      let point : Action S (Unit {0}) =
        point_to_null b (with_version_id b o) (null_number bucket old o.last_modified_time) in
      >>=-Handed r (or_recycle put r >> or_recycle point r) (λ _. announce b bucket o)
        (>>=-Handed r (or_recycle put r) (λ _. or_recycle point r)
          (or_recycle-Handed put r (λ w. refl))
          (λ _. or_recycle-Handed point r (
            point_to_null-IsQuiet (with_version_id b o)
              (null_number bucket old o.last_modified_time))))
        (λ _. announce-Handed bucket o r)

  pub enter_object-Handed :
      (bucket : Bucket) (o : Object) (r : ObjectToRecycle) (w : World S)
      → Handed r w (enter_object b bucket o r w)
  unfolding enter_object
  enter_object-Handed bucket o r =
      let check = check_old_object b o.bucket_name o.name bucket.versioning in
      >>=-Handed r (or_recycle check r) (enter_entry b bucket o r)
        (or_recycle-Handed check r
          (check_old_object-IsQuiet b o.bucket_name o.name bucket.versioning))
        (enter_entry-Handed bucket o r)

  check_upload-Handed :
      (up : Upload) (size : ℤ) (body : Body) (metadata : Texts) (credential : Credential)
      (w : World S)
      → Handed up.place w (check_upload b up size body metadata credential w)
  unfolding check_upload
  check_upload-Handed up size body metadata credential w = ground arith

  finish_put-Handed :
      (bucket : Bucket) (bucket_name name : String) (credential : Credential) (size : ℤ)
      (body : Body) (metadata : Texts) (acl : Acl) (sse : SseRequest) (up : Upload) (w : World S)
      → Handed up.place w
          (finish_put b bucket bucket_name name credential size body metadata acl sse up w)
  unfolding finish_put clock
  finish_put-Handed bucket bucket_name name credential size body metadata acl sse up =
      let enter : Credential → ℕ → Action S PutObjectResult = λ signer now.
        enter_object b bucket (new_object b bucket bucket_name name up metadata signer acl sse now)
          up.place in
      >>=-Handed up.place (check_upload b up size body metadata credential)
        (λ signer. clock b >>= enter signer) (check_upload-Handed up size body metadata credential)
        (λ signer.
          >>=-Handed up.place (clock b) (enter signer) (λ w. refl)
            (λ now.
              enter_object-Handed bucket
                (new_object b bucket bucket_name name up metadata signer acl sse now) up.place))

  -- Once the bytes of an object are in Ceph, `PutObject` keeps track of them: if it ends in an
  -- error, what it has uploaded is handed to the queue, and if it succeeds, nothing is.
  pub put_object-Handed :
      (bucket_name name : String) (credential : Credential) (size : ℤ) (body : Body)
      (metadata : Texts) (acl : Acl) (sse : SseRequest) (bucket : Bucket) (up : Upload)
      (w v : World S)
      → begin_put b bucket_name name credential size body sse w ≡ (ok (bucket, up), v)
      → Handed up.place v (put_object b bucket_name name credential size body metadata acl sse w)
  unfolding put_object
  put_object-Handed bucket_name name credential size body metadata acl sse bucket up w v begun =
      subst
        (λ x. Handed up.place v (
          ((λ _. x) >>= λ begun.
          finish_put b begun.0 bucket_name name credential size body metadata acl sse begun.1)
            w))
        (sym begun)
        (finish_put-Handed bucket bucket_name name credential size body metadata acl sse up v)
