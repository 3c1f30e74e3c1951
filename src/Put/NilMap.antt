-- ===== src/Put/NilMap.antt =====
-- `PutObject` on a bucket whose versioning is enabled or suspended.
use yig.Prelude.{◌≡◌, ◌≢◌, arith, String, true, false, str_eq, ◌||◌, sym, subst}
use yig.Prelude.Int.{ℤ}
use yig.Types.{Object, Bucket, Credential, Texts, Acl, SseRequest}
use yig.Storage.{Outcome, ok, err, panicked, World, Backend, Body, ObjectToRecycle, ◌>>=◌}
use yig.Versions.{clock}
use yig.Versions.NilMap.{check_old_object_panics}
use yig.Put.{
  Upload, PutObjectResult, enter_object, check_upload, finish_put, begin_put, put_object,
  new_object,
}

module _ {S : Type 0} (b : Backend S) where
  enter_object_panics :
      (bucket : Bucket) (o : Object) (place : ObjectToRecycle) (w : World S)
      → str_eq bucket.versioning "Disabled" ≡ false
      → (str_eq bucket.versioning "Enabled" || str_eq bucket.versioning "Suspended") ≡ true
      → (enter_object b bucket o place w).0 ≡ panicked
  unfolding enter_object
  enter_object_panics bucket o place w d v =
      ground (arith, check_old_object_panics b o.bucket_name o.name bucket.versioning w d v)

  finish_put_fails :
      (bucket : Bucket) (bucket_name name : String) (credential : Credential) (size : ℤ)
      (body : Body) (metadata : Texts) (acl : Acl) (sse : SseRequest) (up : Upload) (w : World S)
      → str_eq bucket.versioning "Disabled" ≡ false
      → (str_eq bucket.versioning "Enabled" || str_eq bucket.versioning "Suspended") ≡ true
      → (r : PutObjectResult)
      → (finish_put b bucket bucket_name name credential size body metadata acl sse up w).0 ≢ ok r
  unfolding finish_put clock
  finish_put_fails bucket bucket_name name credential size body metadata acl sse up w d v r =
      by_check (check_upload b up size body metadata credential w)
    where
      by_check :
          (x : Outcome Credential × World S)
          → (((λ _. x) >>= λ signer. clock b >>= λ now.
                enter_object b bucket
                  (new_object b bucket bucket_name name up metadata signer acl sse now)
                  up.place)
              w).0
            ≢ ok r
      by_check (ok signer, u) e =
          let o =
            new_object b bucket bucket_name name up metadata signer acl sse (b.now u.store).0 in
          let p =
            enter_object_panics bucket o up.place (record u { store = (b.now u.store).1 }) d v in
          ground (arith, p, e)
      by_check (err c, u) e = ground arith
      by_check (panicked, u) e = ground arith

  -- `PutObject` into a bucket whose versioning is enabled or suspended never succeeds once the
  -- bytes are in Ceph, whatever the database holds.
  pub put_object_fails :
      (bucket_name name : String) (credential : Credential) (size : ℤ) (body : Body)
      (metadata : Texts) (acl : Acl) (sse : SseRequest) (bucket : Bucket) (up : Upload)
      (w v : World S) (r : PutObjectResult)
      → begin_put b bucket_name name credential size body sse w ≡ (ok (bucket, up), v)
      → str_eq bucket.versioning "Disabled" ≡ false
      → (str_eq bucket.versioning "Enabled" || str_eq bucket.versioning "Suspended") ≡ true
      → (put_object b bucket_name name credential size body metadata acl sse w).0 ≢ ok r
  unfolding put_object
  put_object_fails bucket_name name credential size body metadata acl sse bucket up w v r begun d
        on =
      subst
        (λ x.
          (((λ _. x) >>= λ begun.
          finish_put b begun.0 bucket_name name credential size body metadata acl sse begun.1)
            w).0
          ≢ ok r)
        (sym begun)
        (finish_put_fails bucket bucket_name name credential size body metadata acl sse up v d on r)
