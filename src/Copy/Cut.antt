-- ===== src/Copy/Cut.antt =====
-- What a copy of parts that succeeds has found of its source (storage/object.go).
use yig.Prelude.{
  ◌==◌, refl, ℕ, String, ◌≡◌, ◌≤◌, arith, [], ◌∷◌, Option, none, some, ltb, take, drop, length,
  str_eq, eq_iff, Map, Bool-cases, inl, inr, insert, false, not, true,
}
use yig.Types.{Bytes, Part}
use yig.Storage.{
  Outcome, ok, err, panicked, World, Action, pure, ◌>>=◌, call, caught, Backend, ObjectToRecycle,
}
use yig.Copy.Steps.{
  ended, follow, with_parts, pick_target, behind_key, behind_target, behind_test, behind_bucket,
}
use yig.Storage.Steps.{>>=-ok}
use yig.Access.{
  initialization_vector_for, wrap_encryption, encryption_key_from_sse_request, may_write,
}
use yig.Versions.{clock}
use yig.Copy.{
  Target, Progress, check_part, check_put_part, put_part, copy_part, copy_parts, place_in,
  copied_part, copy_content, finish_copy, copy_object, Object, Bucket, Credential, SseRequest,
  PutObjectResult, raise_if, nowhere, get_bucket, bucket_access_forbidden,
}

-- The parts in their order are pieces of the source, each with its digest.
unfoldable pub IsCut : (Bytes → String) → Map Part → Bytes → Type 0
IsCut md5 [] source = Unit {0}
IsCut md5 ((i, p) ∷ ps) source =
    (p.size ≤ length source)
    × (md5 (take p.size source) ≡ p.etag)
    × IsCut md5 ps (drop p.size source)

module _ {S : Type 0} (b : Backend S) where
  check_part-ok :
      (p : Part) (content : Bytes) (place : ObjectToRecycle) (n : ℕ) (w v : World S)
      → check_part b p content place n w ≡ (ok tt, v)
      → b.md5_hex content ≡ p.etag
  unfolding check_part
  check_part-ok p content place n w v h = elim (Bool-cases (str_eq (b.md5_hex content) p.etag)) [
    | inl same ↦ (eq_iff (b.md5_hex content) p.etag).0 same
    | inr differ ↦ absurd (ground arith)
  ]

  check_put_part-ok :
      (p : Part) (content : Bytes) (place : ObjectToRecycle) (r : Outcome ℕ) (w v : World S)
      → check_put_part b p content place r w ≡ (ok tt, v)
      → b.md5_hex content ≡ p.etag
  unfolding check_put_part
  check_put_part-ok p content place (ok n) w v h = check_part-ok p content place n w v h
  check_put_part-ok p content place (err e) w v h = absurd (ground arith)
  check_put_part-ok p content place panicked w v h = absurd (ground arith)

  put_part-ok :
      (target : Target) (p : Part) (content : Bytes) (oid : String) (iv : Bytes) (r : Outcome Bytes)
      (done : Part × ObjectToRecycle) (w v : World S)
      → put_part b target p content oid iv r w ≡ (ok done, v)
      → b.md5_hex content ≡ p.etag
  unfolding put_part
  put_part-ok target p content oid iv (ok bytes) done w v h =
      let entered : Unit {0} → Action S (Part × ObjectToRecycle) =
        λ _. clock b >>= λ now. pure (copied_part b p oid iv now, place_in target oid) in
      let checked : Outcome ℕ → Action S (Part × ObjectToRecycle) =
        λ written. check_put_part b p content (place_in target oid) written >>= entered in
      let (written, u, _, h') =
        >>=-ok (caught (call (b.ceph_put target.0 target.1 oid bytes))) checked h in
      let (unit, u', e', _) =
        >>=-ok (check_put_part b p content (place_in target oid) written) entered h' in
      check_put_part-ok p content (place_in target oid) written u u' e'
  put_part-ok target p content oid iv (err e) done w v h = absurd (ground arith)
  put_part-ok target p content oid iv panicked done w v h = absurd (ground arith)

  ended-ok :
      (target : Target) (p : Part) (source : Bytes) (oid : String) (iv : Bytes) (r : Outcome Bytes)
      (done : Part × ObjectToRecycle) (w v : World S)
      → ended b target p source oid iv r w ≡ (ok (some done), v)
      → (p.size ≤ length source) × (b.md5_hex (take p.size source) ≡ p.etag)
  ended-ok target p source oid iv r done w v h = elim (Bool-cases (ltb (length source) p.size)) [
    | inl short ↦ absurd (ground arith)
    | inr long ↦
        let put : Action S (Part × ObjectToRecycle) =
          put_part b target p (take p.size source) oid iv r in
        let given : Part × ObjectToRecycle → Action S (Option (Part × ObjectToRecycle)) =
          λ done. pure (some done) in
        let h' : (put >>= given) w ≡ (ok (some done), v) = rw long at h in
        let (result, u, e, _) = >>=-ok put given h' in
        (ground arith, put_part-ok target p (take p.size source) oid iv r result w u e)
  ]

  copy_part-ok :
      (target : Target) (key : Bytes) (p : Part) (source : Bytes) (done : Part × ObjectToRecycle)
      (w v : World S)
      → copy_part b target key p source w ≡ (ok (some done), v)
      → (p.size ≤ length source) × (b.md5_hex (take p.size source) ≡ p.etag)
  unfolding copy_part
  copy_part-ok target key p source done w v h =
      let name : Action S String =
        call (λ s. let (name, s') = b.upload_name target.0 s in (ok name, s')) in
      let vector : Action S Bytes = initialization_vector_for b key in
      let wrapped : Bytes → Action S (Outcome Bytes) =
        λ iv. caught (wrap_encryption b (take p.size source) key iv) in
      let (oid, w1, _, h1) =
        >>=-ok name (λ oid. vector >>= λ iv. wrapped iv >>= ended b target p source oid iv) h in
      let (iv, w2, _, h2) =
        >>=-ok vector (λ iv. wrapped iv >>= ended b target p source oid iv) h1 in
      let (bytes, w3, _, h3) = >>=-ok (wrapped iv) (ended b target p source oid iv) h2 in
      ended-ok target p source oid iv bytes done w3 v h3

  -- If the loop over the parts gets to its end, the parts, in the order in which they were gone
  -- through, are the pieces of the source one behind another, each with its own digest.
  pub copy_parts-IsCut :
      (target : Target) (key : Bytes) (ps : Map Part) (source : Bytes) (so_far done : Progress)
      (w v : World S)
      → copy_parts b target key ps source so_far w ≡ (ok (some done), v)
      → IsCut b.md5_hex ps source
  unfolding copy_parts IsCut
  copy_parts-IsCut target key [] source so_far done w v h = tt
  copy_parts-IsCut target key ((i, p) ∷ ps) source so_far done w v h =
      let (copied, u, e, h') =
        >>=-ok (copy_part b target key p source)
          (λ copied. elim copied [
            | none ↦ pure none
            | some done ↦
                copy_parts b target key ps (drop p.size source) (insert i done.0 so_far.0, done.1)
          ])
          h in
      rest copied u e
        (λ progress w. copy_parts-IsCut target key ps (drop p.size source) progress done w v) h'
    where
      rest :
          (copied : Option (Part × ObjectToRecycle)) (u : World S)
          → copy_part b target key p source w ≡ (ok copied, u)
          → ((progress : Progress) (w : World S)
              → copy_parts b target key ps (drop p.size source) progress w ≡ (ok (some done), v)
              → IsCut b.md5_hex ps (drop p.size source))
          → follow b target key i p ps source so_far copied u ≡ (ok (some done), v)
          → IsCut b.md5_hex ((i, p) ∷ ps) source
      rest none u e again g = absurd (ground arith)
      rest (some part) u e again g =
          let piece = copy_part-ok target key p source part w u e in
          (piece.0, piece.1, again (insert i part.0 so_far.0, part.1) u g)

  with_parts-some :
      (o : Object) (copied : Option Progress) (done : Object × ObjectToRecycle) (w v : World S)
      → with_parts b o copied w ≡ (ok (some done), v)
      → (progress : Progress) × (copied ≡ some progress)
  with_parts-some o none done w v h = absurd (ground arith)
  with_parts-some o (some progress) done w v h = (progress, refl)

  content-IsCut :
      (target : Target) (key : Bytes) (o : Object) (source : Bytes)
      (done : Object × ObjectToRecycle) (w v : World S)
      → (length o.parts == 0) ≡ false
      → copy_content b target key o source w ≡ (ok (some done), v)
      → IsCut b.md5_hex o.parts source
  unfolding copy_content
  content-IsCut target key o source done w v parts h =
      let loop : Action S (Option Progress) =
        copy_parts b target key o.parts source ([], nowhere) in
      let h' : (loop >>= with_parts b o) w ≡ (ok (some done), v) = rw parts at h in
      let (copied, u, e, g) = >>=-ok loop (with_parts b o) h' in
      let (progress, is) = with_parts-some o copied done u v g in
      copy_parts-IsCut target key o.parts source ([], nowhere) progress w u (rw is at e)

  finish_copy-some :
      (bucket : Bucket) (target : Target) (credential : Credential) (sse : SseRequest) (key : Bytes)
      (copied : Option (Object × ObjectToRecycle)) (result : PutObjectResult) (w v : World S)
      → finish_copy b bucket target credential sse key copied w ≡ (ok (some result), v)
      → (done : Object × ObjectToRecycle) × (copied ≡ some done)
  unfolding finish_copy
  finish_copy-some bucket target credential sse key none result w v h = absurd (ground arith)
  finish_copy-some bucket target credential sse key (some done) result w v h = (done, refl)

  -- `CopyObject` returns a result for an object with parts only if the parts, in the order in which
  -- the iteration over the map has taken them, are the pieces of the source one behind another,
  -- each with its own digest.
  pub copy_object-IsCut :
      (o : Object) (source : Bytes) (credential : Credential) (sse : SseRequest)
      (result : PutObjectResult) (w v : World S)
      → (length o.parts == 0) ≡ false
      → copy_object b o source credential sse w ≡ (ok (some result), v)
      → IsCut b.md5_hex o.parts source
  unfolding copy_object
  copy_object-IsCut o source credential sse result w v parts h =
      let (bucket, w1, _, h1) =
        >>=-ok (get_bucket b o.bucket_name true) (behind_bucket b o source credential sse) h in
      let (allowed, w2, _, h2) =
        >>=-ok (raise_if (not (may_write bucket credential)) bucket_access_forbidden)
          (λ _. behind_test b bucket o source credential sse) h1 in
      let (target, w3, _, h3) =
        >>=-ok (pick_target b o) (behind_target b bucket o source credential sse) h2 in
      let (key, w4, _, h4) =
        >>=-ok (encryption_key_from_sse_request b sse)
          (behind_key b bucket o source credential sse target) h3 in
      let (copied, w5, e, h5) =
        >>=-ok (copy_content b target key o source) (finish_copy b bucket target credential sse key)
          h4 in
      let (done, is) = finish_copy-some bucket target credential sse key copied result w5 v h5 in
      content-IsCut target key o source done w4 w5 parts (rw is at e)
