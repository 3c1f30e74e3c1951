-- ===== src/Copy/Leaves.antt =====
-- What a copy leaves in the queue (storage/object.go).
pub mod Parts
use yig.Prelude.{
  ℕ, String, inl, inr, refl, arith, not, [], ◌∷◌, Option, none, some, true, ltb, take, drop, length,
  str_eq, Map, Bool-cases, insert, ◌==◌,
}
use yig.Types.{Bytes, Credential, Object, Bucket, Part, SseRequest}
use yig.Storage.{
  Outcome, ok, err, panicked, World, Action, pure, ◌>>=◌, call, caught, Backend, ObjectToRecycle,
}
use yig.Copy.{
  Target, Progress, check_part, check_put_part, put_part, copy_part, copy_parts, copy_content,
  copy_whole, check_whole, finish_copy, copy_object, copied_part, copied_object, place_in, nowhere,
}
use yig.Copy.Steps.{
  ended, follow, with_parts, pick_target, behind_key, behind_target, behind_test, behind_bucket,
}
use yig.Access.{
  encryption_key_from_sse_request, initialization_vector_for, wrap_encryption, may_write,
}
use yig.Versions.{clock}
use yig.Versions.Queue.{get_bucket-IsQuiet}
use yig.Put.{PutObjectResult, enter_object}
use yig.Put.Queue.{enter_object-Handed}
use yig.Meta.{get_bucket}
use yig.Storage.{raise_if, bucket_access_forbidden}
use yig.Storage.Queue.{caught-IsQuiet, IsQuiet}
use yig.Storage.Leaves.{LeavesOne, IsQuiet-LeavesOne, Handed-LeavesOne, >>=-LeavesOne}
use yig.Copy.Leaves.Parts.{
  name_in, vector-IsQuiet, wrap_encryption-IsQuiet, key-IsQuiet, copy_parts-LeavesOne,
}

module _ {S : Type 0} (b : Backend S) where
  check_whole-LeavesOne :
      (o : Object) (content : Bytes) (place : ObjectToRecycle) (n : ℕ) (w : World S)
      → LeavesOne w (check_whole b o content place n w)
  unfolding check_whole
  check_whole-LeavesOne o content place n w = elim (Bool-cases (ltb n o.size)) [
    | inl short ↦ rw short (inr (place, refl))
    | inr long ↦ elim (Bool-cases (str_eq (b.md5_hex content) o.etag)) [
      | inl same ↦ rw (long, same) refl
      | inr differ ↦ rw (long, differ) (inr (place, refl))
    ]
  ]

  copy_whole-LeavesOne :
      (target : Target) (key : Bytes) (o : Object) (source : Bytes) (w : World S)
      → LeavesOne w (copy_whole b target key o source w)
  unfolding copy_whole
  copy_whole-LeavesOne target key o source =
      let vector : Action S Bytes = initialization_vector_for b key in
      let wrap : Bytes → Action S Bytes = wrap_encryption b (take o.size source) key in
      let put : String → Bytes → Action S ℕ =
        λ oid bytes. call (b.ceph_put target.0 target.1 oid bytes) in
      let check : String → ℕ → Action S (Unit {0}) =
        λ oid. check_whole b o (take o.size source) (place_in target oid) in
      let give : String → Bytes → Unit {0} → Action S (Object × ObjectToRecycle) = λ oid iv _.
        pure (record o { object_id = oid; initialization_vector = iv }, place_in target oid) in
      let behind_put : String → Bytes → ℕ → Action S (Object × ObjectToRecycle) =
        λ oid iv written. check oid written >>= give oid iv in
      let behind_wrap : String → Bytes → Bytes → Action S (Object × ObjectToRecycle) =
        λ oid iv bytes. put oid bytes >>= behind_put oid iv in
      >>=-LeavesOne (name_in b target) (λ oid. vector >>= λ iv. wrap iv >>= behind_wrap oid iv)
        (λ w. refl)
        (λ oid.
          >>=-LeavesOne vector (λ iv. wrap iv >>= behind_wrap oid iv)
            (IsQuiet-LeavesOne vector (vector-IsQuiet b key))
            (λ iv.
              >>=-LeavesOne (wrap iv) (behind_wrap oid iv)
                (IsQuiet-LeavesOne (wrap iv)
                  (wrap_encryption-IsQuiet b (take o.size source) key iv))
                (λ bytes.
                  >>=-LeavesOne (put oid bytes) (behind_put oid iv)
                    (IsQuiet-LeavesOne (put oid bytes) (λ w. refl))
                    (λ written.
                      >>=-LeavesOne (check oid written) (give oid iv)
                        (check_whole-LeavesOne o (take o.size source) (place_in target oid) written)
                        (λ _ v. refl)))))

  copy_content-LeavesOne :
      (target : Target) (key : Bytes) (o : Object) (source : Bytes) (w : World S)
      → LeavesOne w (copy_content b target key o source w)
  unfolding copy_content
  copy_content-LeavesOne target key o source w =
      let loop : Action S (Option Progress) =
        copy_parts b target key o.parts source ([], nowhere) in
      let whole : Action S (Object × ObjectToRecycle) = copy_whole b target key o source in
      let given : Object × ObjectToRecycle → Action S (Option (Object × ObjectToRecycle)) =
        λ done. pure (some done) in
      let of_parts : LeavesOne w ((loop >>= with_parts b o) w) =
        >>=-LeavesOne loop (with_parts b o)
          (copy_parts-LeavesOne b target key o.parts source ([], nowhere)) with_parts-LeavesOne w in
      let of_whole : LeavesOne w ((whole >>= given) w) =
        >>=-LeavesOne whole given (copy_whole-LeavesOne target key o source) (λ _ v. refl) w in
      elim (Bool-cases (length o.parts == 0)) [
        | inl one ↦ rw one of_whole
        | inr several ↦ rw several of_parts
      ]
    where
      with_parts-LeavesOne :
          (copied : Option Progress) (v : World S) → LeavesOne v (with_parts b o copied v)
      with_parts-LeavesOne none v = refl
      with_parts-LeavesOne (some done) v = refl

  finish_copy-LeavesOne :
      (bucket : Bucket) (target : Target) (credential : Credential) (sse : SseRequest) (key : Bytes)
      (copied : Option (Object × ObjectToRecycle)) (w : World S)
      → LeavesOne w (finish_copy b bucket target credential sse key copied w)
  unfolding finish_copy clock
  finish_copy-LeavesOne bucket target credential sse key none = λ w. refl
  finish_copy-LeavesOne bucket target credential sse key (some (o, place)) =
      let enter : ℕ → Action S PutObjectResult = λ now.
        enter_object b bucket (copied_object b bucket target credential sse key o now) place in
      let given : PutObjectResult → Action S (Option PutObjectResult) =
        λ result. pure (some result) in
      >>=-LeavesOne (clock b >>= enter) given
        (>>=-LeavesOne (clock b) enter (λ w. refl)
          (λ now v. Handed-LeavesOne place v (enter now v) (
            enter_object-Handed b bucket (copied_object b bucket target credential sse key o now)
              place v)))
        (λ _ v. refl)

  -- However many parts it has uploaded, `CopyObject` hands one object at most to the queue, and that
  -- only where it ends in an error.
  pub copy_object-LeavesOne :
      (o : Object) (source : Bytes) (credential : Credential) (sse : SseRequest) (w : World S)
      → LeavesOne w (copy_object b o source credential sse w)
  unfolding copy_object
  copy_object-LeavesOne o source credential sse =
      let bucket : Action S Bucket = get_bucket b o.bucket_name true in
      let key : Action S Bytes = encryption_key_from_sse_request b sse in
      >>=-LeavesOne bucket (behind_bucket b o source credential sse)
        (IsQuiet-LeavesOne bucket (get_bucket-IsQuiet b o.bucket_name true))
        (λ bucket.
          >>=-LeavesOne (raise_if (not (may_write bucket credential)) bucket_access_forbidden)
            (λ _. behind_test b bucket o source credential sse)
            (IsQuiet-LeavesOne
              (raise_if (not (may_write bucket credential)) bucket_access_forbidden) (λ w. refl))
            (λ _.
              >>=-LeavesOne (pick_target b o) (behind_target b bucket o source credential sse)
                (λ w. refl)
                (λ target.
                  >>=-LeavesOne key (behind_key b bucket o source credential sse target)
                    (IsQuiet-LeavesOne key (key-IsQuiet b sse))
                    (λ key.
                      >>=-LeavesOne (copy_content b target key o source)
                        (finish_copy b bucket target credential sse key)
                        (copy_content-LeavesOne target key o source)
                        (finish_copy-LeavesOne bucket target credential sse key)))))
