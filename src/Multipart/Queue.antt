-- ===== src/Multipart/Queue.antt =====
-- `PutObjectPart` and the queue of objects to remove.
use yig.Prelude.{
  ◌≡◌, refl, sym, arith, ℕ, String, List, [], ◌∷◌, Option, none, some, lookup, ltb, append-nil,
  true, if◌then◌else◌,
}
use yig.Types.{Part, Multipart, Credential, SseRequest}
use yig.Storage.{
  Outcome, ok, World, Action, Backend, Body, ObjectToRecycle, ◌>>=◌, ◌>>◌, or_recycle, call,
  return_of, pure, recycle_and_raise, incomplete_body, bad_digest,
}
use yig.Storage.Queue.{IsQuiet, Handed, Ends, >>=-Ends, or_recycle-Handed, if-Ends, >>=-from}
use yig.Versions.{clock}
use yig.Versions.Queue.{get_bucket-IsQuiet}
use yig.Put.{Upload, verified, differs}
use yig.Multipart.{place_of}
use yig.Multipart.Handlers.{
  PutPartResult, get_writable_bucket, replace_part, answer_part, enter_part, new_part, finish_part,
  upload_part, put_object_part, copy_object_part,
}

-- The place of the part that is replaced, where there is one.
abbrev pub replaced : Multipart → Option Part → List ObjectToRecycle
replaced m none = []
replaced m (some old) = place_of m old ∷ []

module _ {S : Type 0} (b : Backend S) where
  get_writable_bucket-IsQuiet :
      (bucket_name : String) (c : Credential) → IsQuiet (get_writable_bucket b bucket_name c)
  unfolding get_writable_bucket
  get_writable_bucket-IsQuiet bucket_name c w =
      ground (arith, get_bucket-IsQuiet b bucket_name true w)

  clock-Handed : (r : ObjectToRecycle) (w : World S) → Handed r w (clock b w)
  unfolding clock
  clock-Handed r w = refl

  answer_part-Ends :
      (m : Multipart) (bucket_name : String) (p : Part) (sse : SseRequest) (r : ObjectToRecycle)
      (w : World S)
      → Ends r (replaced m (lookup p.part_number m.parts)) w (answer_part b m bucket_name p sse w)
  unfolding answer_part replace_part
  answer_part-Ends m bucket_name p sse r w = by_old (lookup p.part_number m.parts)
    where
      by_old :
          (x : Option Part)
          → Ends {A = PutPartResult} r (replaced m x) w (
              (replace_part b m bucket_name p x
                  >> pure (record {
                    etag = p.etag;
                    last_modified = p.last_modified;
                    sse_type = sse.type;
                    sse_aws_kms_key_id = sse.sse_aws_kms_key_id;
                    sse_customer_algorithm = sse.sse_customer_algorithm;
                    sse_customer_key = sse.sse_customer_key;
                  }))
                w)
      by_old none = sym (append-nil w.queue)
      by_old (some old) = refl

  enter_part-Ends :
      (m : Multipart) (bucket_name : String) (signer : Credential) (part_id size : ℕ)
      (sse : SseRequest) (up : Upload) (w : World S)
      → Ends up.place
          (replaced m (lookup part_id m.parts))
          w
          (enter_part b m bucket_name signer part_id size sse up w)
  unfolding enter_part
  enter_part-Ends m bucket_name signer part_id size sse up =
      let extra = replaced m (lookup part_id m.parts) in
      let put : ℕ → Action S (Unit {0}) =
        λ now. call (b.client_put_object_part m (new_part b part_id size up now)) in
      let last : ℕ → Action S PutPartResult =
        λ now. answer_part b m bucket_name (new_part b part_id size up now) sse in
      let rest : ℕ → Action S PutPartResult = λ now. or_recycle (put now) up.place >> last now in
      >>=-Ends up.place extra (or_recycle (get_writable_bucket b bucket_name signer) up.place)
        (λ bucket. clock b >>= rest)
        (or_recycle-Handed (get_writable_bucket b bucket_name signer) up.place
          (get_writable_bucket-IsQuiet bucket_name signer))
        (λ bucket. >>=-Ends up.place extra (clock b) rest (clock-Handed up.place) (λ now.
          >>=-Ends up.place extra (or_recycle (put now) up.place) (λ _. last now)
            (or_recycle-Handed (put now) up.place (λ w. refl))
            (λ _. answer_part-Ends m bucket_name (new_part b part_id size up now) sse up.place)))

  finish_part-Ends :
      (m : Multipart) (bucket_name : String) (credential : Credential) (part_id size : ℕ)
      (body : Body) (md5_hex : String) (sse : SseRequest) (up : Upload) (w : World S)
      → Ends up.place
          (replaced m (lookup part_id m.parts))
          w
          (finish_part b m bucket_name credential part_id size body md5_hex sse up w)
  unfolding finish_part
  finish_part-Ends m bucket_name credential part_id size body md5_hex sse up =
      let extra = replaced m (lookup part_id m.parts) in
      let verify = or_recycle (return_of (verified body credential)) up.place in
      let enter : Credential → Action S PutPartResult =
        λ signer. enter_part b m bucket_name signer part_id size sse up in
      let wrong = differs (some md5_hex) (b.md5_hex up.content) in
      if-Ends up.place extra (ltb up.written size) (recycle_and_raise up.place incomplete_body)
        (if wrong then recycle_and_raise up.place bad_digest else (verify >>= enter)) (λ w. refl)
        (if-Ends up.place extra wrong (recycle_and_raise up.place bad_digest) (verify >>= enter)
          (λ w. refl)
          (>>=-Ends up.place extra verify enter
            (or_recycle-Handed (return_of (verified body credential)) up.place (λ w. refl))
            (λ signer. enter_part-Ends m bucket_name signer part_id size sse up)))

  -- what both methods do before: they look for the upload and put the bytes in Ceph
  module _ (bucket_name name upload_id : String) (size : ℕ) (body : Body) (sse : SseRequest)
      (m : Multipart) (up : Upload) (w v u : World S)
      (found : call (b.client_get_multipart bucket_name name upload_id) w ≡ (ok m, v))
      (uploaded : upload_part b m size body sse v ≡ (ok up, u)) where
    behind_upload-Ends :
        (part_id : ℕ) (finish : Multipart → Upload → Action S PutPartResult)
        → Ends up.place (replaced m (lookup part_id m.parts)) u (finish m up u)
        → Ends up.place (replaced m (lookup part_id m.parts)) u (
            (call (b.client_get_multipart bucket_name name upload_id) >>= λ m.
            upload_part b m size body sse >>= finish m)
              w)
    behind_upload-Ends part_id finish h =
        let P : Outcome PutPartResult × World S → Type 0 =
          Ends up.place (replaced m (lookup part_id m.parts)) u in
        >>=-from P (call (b.client_get_multipart bucket_name name upload_id))
          (λ m. upload_part b m size body sse >>= finish m) found
          (>>=-from P (upload_part b m size body sse) (finish m) uploaded h)

  -- Once the bytes of a part are in Ceph, `PutObjectPart` keeps track of them: if it ends in an
  -- error, what it has uploaded is handed to the queue, and if it succeeds, the part that it
  -- replaces is, and nothing else.
  pub put_object_part-Ends :
      (bucket_name name : String) (credential : Credential) (upload_id : String) (part_id size : ℕ)
      (body : Body) (md5_hex : String) (sse : SseRequest) (m : Multipart) (up : Upload)
      (w v u : World S)
      → call (b.client_get_multipart bucket_name name upload_id) w ≡ (ok m, v)
      → upload_part b m size body sse v ≡ (ok up, u)
      → Ends up.place
          (replaced m (lookup part_id m.parts))
          u
          (put_object_part b bucket_name name credential upload_id part_id size body md5_hex sse w)
  unfolding put_object_part
  put_object_part-Ends bucket_name name credential upload_id part_id size body md5_hex sse m up w v
        u found uploaded =
      behind_upload-Ends bucket_name name upload_id size body sse m up w v u found uploaded part_id
        (λ m up. finish_part b m bucket_name credential part_id size body md5_hex sse up)
        (finish_part-Ends m bucket_name credential part_id size body md5_hex sse up u)

  -- Once the bytes of a part are in Ceph, `CopyObjectPart` keeps track of them: if it ends in an
  -- error, what it has uploaded is handed to the queue, and if it succeeds, the part that it
  -- replaces is, and nothing else.
  pub copy_object_part-Ends :
      (bucket_name name upload_id : String) (part_id size : ℕ) (source : Body)
      (credential : Credential) (sse : SseRequest) (m : Multipart) (up : Upload) (w v u : World S)
      → call (b.client_get_multipart bucket_name name upload_id) w ≡ (ok m, v)
      → upload_part b m size source sse v ≡ (ok up, u)
      → Ends up.place
          (replaced m (lookup part_id m.parts))
          u
          (copy_object_part b bucket_name name upload_id part_id size source credential sse w)
  unfolding copy_object_part
  copy_object_part-Ends bucket_name name upload_id part_id size source credential sse m up w v u
        found uploaded =
      let enter : Multipart → Upload → Action S PutPartResult =
        λ m up. enter_part b m bucket_name credential part_id size sse up in
      behind_upload-Ends bucket_name name upload_id size source sse m up w v u found uploaded
        part_id
        (λ m up.
          if ltb up.written size then recycle_and_raise up.place incomplete_body else enter m up)
        (if-Ends up.place (replaced m (lookup part_id m.parts)) (ltb up.written size)
          (recycle_and_raise up.place incomplete_body) (enter m up) (λ w. refl)
          (enter_part-Ends m bucket_name credential part_id size sse up) u)
