-- ===== src/Copy/Leaves/Parts.antt =====
-- What the loop over the parts of a copy leaves in the queue (storage/object.go).
use yig.Prelude.{
  ℕ, String, inl, inr, refl, arith, [], ◌∷◌, Option, none, some, ltb, take, drop, length, str_eq,
  Map, Bool-cases, insert,
}
use yig.Types.{Bytes, Part, SseRequest}
use yig.Storage.{
  Outcome, ok, err, panicked, World, Action, pure, ◌>>=◌, call, caught, Backend, ObjectToRecycle,
}
use yig.Copy.{
  Target, Progress, check_part, check_put_part, put_part, copy_part, copy_parts, copied_part,
  place_in,
}
use yig.Copy.Steps.{ended, follow}
use yig.Access.{encryption_key_from_sse_request, initialization_vector_for, wrap_encryption}
use yig.Versions.{clock}
use yig.Storage.Queue.{caught-IsQuiet, IsQuiet}
use yig.Storage.Leaves.{LeavesOne, IsQuiet-LeavesOne, >>=-LeavesOne}

module _ {S : Type 0} (b : Backend S) where
  check_part-LeavesOne :
      (p : Part) (content : Bytes) (place : ObjectToRecycle) (n : ℕ) (w : World S)
      → LeavesOne w (check_part b p content place n w)
  unfolding check_part
  check_part-LeavesOne p content place n w = elim (Bool-cases (ltb n p.size)) [
    | inl short ↦ rw short (inr (place, refl))
    | inr long ↦ elim (Bool-cases (str_eq (b.md5_hex content) p.etag)) [
      | inl same ↦ rw (long, same) refl
      | inr differ ↦ rw (long, differ) (inr (place, refl))
    ]
  ]

  check_put_part-LeavesOne :
      (p : Part) (content : Bytes) (place : ObjectToRecycle) (r : Outcome ℕ) (w : World S)
      → LeavesOne w (check_put_part b p content place r w)
  unfolding check_put_part
  check_put_part-LeavesOne p content place (ok n) w = check_part-LeavesOne p content place n w
  check_put_part-LeavesOne p content place (err e) w = elim (Bool-cases (ltb 0 p.size)) [
    | inl some_bytes ↦ rw some_bytes (inr (place, refl))
    | inr no_bytes ↦ rw no_bytes (inl refl)
  ]
  check_put_part-LeavesOne p content place panicked w = refl

  put_part-LeavesOne :
      (target : Target) (p : Part) (content : Bytes) (oid : String) (iv : Bytes) (r : Outcome Bytes)
      (w : World S)
      → LeavesOne w (put_part b target p content oid iv r w)
  unfolding put_part clock
  put_part-LeavesOne target p content oid iv (ok bytes) =
      let put : Action S ℕ = call (b.ceph_put target.0 target.1 oid bytes) in
      let enter : Unit {0} → Action S (Part × ObjectToRecycle) =
        λ _. clock b >>= λ now. pure (copied_part b p oid iv now, place_in target oid) in
      let check : Outcome ℕ → Action S (Unit {0}) =
        check_put_part b p content (place_in target oid) in
      >>=-LeavesOne (caught put) (λ written. check written >>= enter)
        (IsQuiet-LeavesOne (caught put) (caught-IsQuiet put (λ w. refl)))
        (λ written.
          >>=-LeavesOne (check written) enter
            (check_put_part-LeavesOne p content (place_in target oid) written) (λ _ v. refl))
  put_part-LeavesOne target p content oid iv (err e) = λ w. refl
  put_part-LeavesOne target p content oid iv panicked = λ w. refl

  ended-LeavesOne :
      (target : Target) (p : Part) (source : Bytes) (oid : String) (iv : Bytes) (r : Outcome Bytes)
      (w : World S)
      → LeavesOne w (ended b target p source oid iv r w)
  ended-LeavesOne target p source oid iv r w = elim (Bool-cases (ltb (length source) p.size)) [
    | inl short ↦ rw short refl
    | inr long ↦
        let put : Action S (Part × ObjectToRecycle) =
          put_part b target p (take p.size source) oid iv r in
        let given : Part × ObjectToRecycle → Action S (Option (Part × ObjectToRecycle)) =
          λ done. pure (some done) in
        let all : LeavesOne w ((put >>= given) w) =
          >>=-LeavesOne put given (put_part-LeavesOne target p (take p.size source) oid iv r)
            (λ _ v. refl) w in
        rw long all
  ]

  abbrev pub name_in : Target → Action S String
  name_in target = call (λ s. let (name, s') = b.upload_name target.0 s in (ok name, s'))

  pub vector-IsQuiet : (key : Bytes) → IsQuiet (initialization_vector_for b key)
  unfolding initialization_vector_for
  vector-IsQuiet key w = ground arith

  pub wrap_encryption-IsQuiet :
      (content key iv : Bytes) → IsQuiet (wrap_encryption b content key iv)
  unfolding wrap_encryption
  wrap_encryption-IsQuiet content key iv w = ground arith

  pub key-IsQuiet : (sse : SseRequest) → IsQuiet (encryption_key_from_sse_request b sse)
  unfolding encryption_key_from_sse_request
  key-IsQuiet sse w = ground arith

  copy_part-LeavesOne :
      (target : Target) (key : Bytes) (p : Part) (source : Bytes) (w : World S)
      → LeavesOne w (copy_part b target key p source w)
  unfolding copy_part
  copy_part-LeavesOne target key p source =
      let vector : Action S Bytes = initialization_vector_for b key in
      let wrap : Bytes → Action S Bytes = wrap_encryption b (take p.size source) key in
      let end : String → Bytes → Action S (Option (Part × ObjectToRecycle)) =
        λ oid iv. caught (wrap iv) >>= ended b target p source oid iv in
      >>=-LeavesOne (name_in target) (λ oid. vector >>= end oid) (λ w. refl)
        (λ oid.
          >>=-LeavesOne vector (end oid) (IsQuiet-LeavesOne vector (vector-IsQuiet key)) (λ iv.
            >>=-LeavesOne (caught (wrap iv)) (ended b target p source oid iv)
              (IsQuiet-LeavesOne (caught (wrap iv))
                (caught-IsQuiet (wrap iv) (wrap_encryption-IsQuiet (take p.size source) key iv)))
              (ended-LeavesOne target p source oid iv)))

  pub copy_parts-LeavesOne :
      (target : Target) (key : Bytes) (ps : Map Part) (source : Bytes) (so_far : Progress)
      (w : World S)
      → LeavesOne w (copy_parts b target key ps source so_far w)
  unfolding copy_parts
  copy_parts-LeavesOne target key [] source so_far = λ w. refl
  copy_parts-LeavesOne target key ((i, p) ∷ ps) source so_far =
      >>=-LeavesOne (copy_part b target key p source) (follow b target key i p ps source so_far)
        (copy_part-LeavesOne target key p source)
        (rest (copy_parts-LeavesOne target key ps (drop p.size source)))
    where
      rest :
          ((progress : Progress) (v : World S)
            → LeavesOne v (copy_parts b target key ps (drop p.size source) progress v))
          → (copied : Option (Part × ObjectToRecycle)) (v : World S)
          → LeavesOne v (follow b target key i p ps source so_far copied v)
      rest again none v = refl
      rest again (some done) v = again (insert i done.0 so_far.0, done.1) v
