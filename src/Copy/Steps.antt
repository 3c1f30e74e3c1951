-- ===== src/Copy/Steps.antt =====
-- The steps of a copy, each with what follows it (storage/object.go).
use yig.Prelude.{
  ℕ, String, Option, none, some, if◌then◌else◌, ltb, take, drop, length, Map, insert, not,
}
use yig.Types.{Bytes, Part}
use yig.Storage.{◌>>◌, Outcome, ok, Action, pure, ◌>>=◌, call, Backend, ObjectToRecycle}
use yig.Access.{encryption_key_from_sse_request, may_write}
use yig.Copy.{
  Target, Progress, put_part, copy_parts, finish_copy, copy_content, copy_content, finish_copy,
  Object, Bucket, Credential, SseRequest, PutObjectResult, pos, raise_if, bucket_access_forbidden,
}

module _ {S : Type 0} (b : Backend S) where
  -- the end of a round
  abbrev pub ended :
      Target
      → Part
      → Bytes
      → String
      → Bytes
      → Outcome Bytes
      → Action S (Option (Part × ObjectToRecycle))
  ended target p source oid iv bytes =
      if ltb (length source) p.size
      then pure none
      else (put_part b target p (take p.size source) oid iv bytes >>= λ done. pure (some done))

  -- the rounds that follow a round
  abbrev pub follow :
      Target
      → Bytes
      → ℕ
      → Part
      → Map Part
      → Bytes
      → Progress
      → Option (Part × ObjectToRecycle)
      → Action S (Option Progress)
  follow target key i p ps source so_far none = pure none
  follow target key i p ps source so_far (some done) =
      copy_parts b target key ps (drop p.size source) (insert i done.0 so_far.0, done.1)

  abbrev pub with_parts : Object → Option Progress → Action S (Option (Object × ObjectToRecycle))
  with_parts o none = pure none
  with_parts o (some done) = pure (some (record o { object_id = ""; parts = done.0 }, done.1))

  -- the steps of `copy_object`
  abbrev pub pick_target : Object → Action S Target
  pick_target o = call (λ s. let (p, s') = b.pick o.bucket_name o.name (pos o.size) s in (ok p, s'))

  abbrev pub behind_key :
      Bucket
      → Object
      → Bytes
      → Credential
      → SseRequest
      → Target
      → Bytes
      → Action S (Option PutObjectResult)
  behind_key bucket o source credential sse target key =
      copy_content b target key o source >>= finish_copy b bucket target credential sse key

  abbrev pub behind_target :
      Bucket → Object → Bytes → Credential → SseRequest → Target → Action S (Option PutObjectResult)
  behind_target bucket o source credential sse target =
      encryption_key_from_sse_request b sse >>= behind_key bucket o source credential sse target

  abbrev pub behind_test :
      Bucket → Object → Bytes → Credential → SseRequest → Action S (Option PutObjectResult)
  behind_test bucket o source credential sse =
      pick_target o >>= behind_target bucket o source credential sse

  abbrev pub behind_bucket :
      Object → Bytes → Credential → SseRequest → Bucket → Action S (Option PutObjectResult)
  behind_bucket o source credential sse bucket =
      raise_if (not (may_write bucket credential)) bucket_access_forbidden
      >> behind_test bucket o source credential sse
