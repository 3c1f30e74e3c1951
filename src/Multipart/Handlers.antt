-- ===== src/Multipart/Handlers.antt =====
-- The methods of storage/multipart.go. An answer has the id and the key whose base64 texts the source
-- puts in.
use yig.Prelude.{
  ℕ, String, true, ◌||◌, not, [], ◌∷◌, Option, none, some, str_eq, if◌then◌else◌, ltb, take, ◌==◌,
  Map, lookup,
}
use yig.Prelude.Int.{pos, negsuc, ◌-ℤ◌}
use yig.Types.{
  Bytes, Texts, Credential, Bucket, Acl, SseRequest, Part, Multipart, MultipartMetadata,
}
use yig.Storage.{
  incomplete_body, bad_digest, bucket_access_forbidden, entity_too_large, no_such_cluster,
  access_denied, other, ok, Action, pure, ◌>>=◌, ◌>>◌, call, do_call, raise_if, recycle,
  recycle_and_raise, or_recycle, Backend, Body, return_of,
}
use yig.Meta.{get_bucket}
use yig.Access.{
  may_write, get_custom_attrs, texts_at, encryption_key_from_sse_request, initialization_vector_for,
  wrap_encryption,
}
use yig.Versions.{clock}
use yig.Put.{Upload, verified, differs}
use yig.Multipart.{
  max_part_size, part_encryption_key, place_of, listed_parts, ListedParts, removed_size,
}

pub record PutPartResult : Type 0 where
  pub etag : String
  pub last_modified : ℕ
  pub sse_type : String
  pub sse_aws_kms_key_id : String
  pub sse_customer_algorithm : String
  pub sse_customer_key : Bytes

pub record CompleteResult : Type 0 where
  pub etag : String
  pub version_id : String
  pub sse_type : String
  pub sse_aws_kms_key_id : String
  pub sse_customer_algorithm : String
  pub sse_customer_key : Bytes

pub record ListPartsResponse : Type 0 where
  pub listed : ListedParts
  pub owner : Credential
  pub initiator : Credential

module _ {S : Type 0} (b : Backend S) where
  -- the bucket, if the credential may write it
  unfoldable pub get_writable_bucket : String → Credential → Action S Bucket
  get_writable_bucket bucket_name credential = do
    bucket ← get_bucket b bucket_name true
    raise_if (not (may_write bucket credential)) bucket_access_forbidden
    pure bucket

  -- `NewMultipartUpload`
  unfoldable pub new_multipart_upload :
      Credential → String → String → Texts → Acl → SseRequest → Action S String
  new_multipart_upload credential bucket_name name metadata acl sse = do
    bucket ← get_writable_bucket bucket_name credential
    place ← call (λ s. let (p, s') = b.pick bucket_name name (negsuc 0) s in (ok p, s'))
    key ← if str_eq sse.type "S3" then encryption_key_from_sse_request b sse else pure []
    now ← clock b
    raise_if (now == 0) (other 1)
    call (
        b.client_create_multipart (record {
          bucket_name = bucket_name;
          object_name = name;
          initial_time = now;
          upload_id = b.seal_number now;
          metadata = record {
            initiator_id = credential.user_id;
            owner_id = bucket.owner_id;
            content_type = elim (texts_at metadata "Content-Type") [
              | none ↦ "application/octet-stream"
              | some t ↦ t
            ];
            location = place.0;
            pool = place.1;
            acl = acl;
            sse_request = sse;
            encryption_key = key;
            attrs = get_custom_attrs metadata;
          };
          parts = [];
        }))
    pure (b.seal_number now)

  -- the upload of a part: from the tests on the size and the key to `cephCluster.Put`
  unfoldable pub upload_part : Multipart → ℕ → Body → SseRequest → Action S Upload
  upload_part m size body sse = do
    raise_if (ltb max_part_size size) entity_too_large
    key ← return_of (part_encryption_key m.metadata sse)
    raise_if (not (b.has_cluster m.metadata.location)) no_such_cluster
    oid ← call (λ s. let (p, s') = b.upload_name m.metadata.location s in (ok p, s'))
    iv ← initialization_vector_for b key
    bytes ← wrap_encryption b (take size body.content) key iv
    written ← call (b.ceph_put m.metadata.location m.metadata.pool oid bytes)
    pure (record {
      place = record {
        location = m.metadata.location;
        pool = m.metadata.pool;
        object_id = oid;
        tried_times = 0;
      };
      written = written;
      content = take size body.content;
      encryption_key = key;
      initialization_vector = iv;
    })

  -- the object of the part that is replaced goes to the queue, and its size off the usage
  unfoldable pub replace_part : Multipart → String → Part → Option Part → Action S (Unit {0})
  replace_part m bucket_name p none = do_call (b.client_update_usage bucket_name (pos p.size))
  replace_part m bucket_name p (some old) =
      recycle (place_of m old)
      >> do_call (b.client_update_usage bucket_name (pos p.size -ℤ pos old.size))

  abbrev pub new_part : ℕ → ℕ → Upload → ℕ → Part
  new_part part_id size up now = record {
    part_number = part_id;
    size = size;
    object_id = up.place.object_id;
    offset = 0;
    etag = b.md5_hex up.content;
    last_modified = now;
    initialization_vector = up.initialization_vector;
  }

  -- behind `Client.PutObjectPart`
  unfoldable pub answer_part : Multipart → String → Part → SseRequest → Action S PutPartResult
  answer_part m bucket_name p sse =
      replace_part m bucket_name p (lookup p.part_number m.parts)
      >> pure (record {
        etag = p.etag;
        last_modified = p.last_modified;
        sse_type = sse.type;
        sse_aws_kms_key_id = sse.sse_aws_kms_key_id;
        sse_customer_algorithm = sse.sse_customer_algorithm;
        sse_customer_key = sse.sse_customer_key;
      })

  -- the entry of a part, once its upload has passed
  unfoldable pub enter_part :
      Multipart → String → Credential → ℕ → ℕ → SseRequest → Upload → Action S PutPartResult
  enter_part m bucket_name signer part_id size sse up = do
    bucket ← or_recycle (get_writable_bucket bucket_name signer) up.place
    now ← clock b
    or_recycle (call (b.client_put_object_part m (new_part part_id size up now))) up.place
    answer_part m bucket_name (new_part part_id size up now) sse

  -- `PutObjectPart` behind the upload
  unfoldable pub finish_part :
      Multipart
      → String
      → Credential
      → ℕ
      → ℕ
      → Body
      → String
      → SseRequest
      → Upload
      → Action S PutPartResult
  finish_part m bucket_name credential part_id size body md5_hex sse up =
      if ltb up.written size
      then recycle_and_raise up.place incomplete_body
      else if differs (some md5_hex) (b.md5_hex up.content)
      then recycle_and_raise up.place bad_digest
      else or_recycle (return_of (verified body credential)) up.place >>= λ signer.
          enter_part m bucket_name signer part_id size sse up

  -- `PutObjectPart`
  unfoldable pub put_object_part :
      String
      → String
      → Credential
      → String
      → ℕ
      → ℕ
      → Body
      → String
      → SseRequest
      → Action S PutPartResult
  put_object_part bucket_name name credential upload_id part_id size body md5_hex sse = do
    m ← call (b.client_get_multipart bucket_name name upload_id)
    up ← upload_part m size body sse
    finish_part m bucket_name credential part_id size body md5_hex sse up

  -- `CopyObjectPart`: neither a digest nor a signature is checked
  unfoldable pub copy_object_part :
      String → String → String → ℕ → ℕ → Body → Credential → SseRequest → Action S PutPartResult
  copy_object_part bucket_name name upload_id part_id size source credential sse = do
    m ← call (b.client_get_multipart bucket_name name upload_id)
    up ← upload_part m size source sse
    if ltb up.written size
        then recycle_and_raise up.place incomplete_body
        else enter_part m bucket_name credential part_id size sse up

  -- the test of `ListObjectParts` on the ACL of the upload
  unfoldable pub check_list_parts : MultipartMetadata → String → Credential → Action S (Unit {0})
  check_list_parts m bucket_name credential =
      if str_eq m.acl.canned_acl "public-read" || str_eq m.acl.canned_acl "public-read-write"
      then pure tt
      else if str_eq m.acl.canned_acl "authenticated-read"
      then raise_if (str_eq credential.user_id "") access_denied
      else if str_eq m.acl.canned_acl "bucket-owner-read"
          || str_eq m.acl.canned_acl "bucket-owner-full-controll"
      then (get_bucket b bucket_name true >>= λ bucket.
          raise_if (not (str_eq bucket.owner_id credential.user_id)) access_denied)
      else raise_if (not (str_eq m.owner_id credential.user_id)) access_denied

  -- `ListObjectParts`
  unfoldable pub list_object_parts :
      Credential → String → String → String → ℕ → ℕ → Action S ListPartsResponse
  list_object_parts credential bucket_name name upload_id marker max_parts = do
    m ← call (b.client_get_multipart bucket_name name upload_id)
    check_list_parts m.metadata bucket_name credential
    owner ← call (b.credential_by_user_id m.metadata.owner_id)
    initiator ← call (b.credential_by_user_id m.metadata.initiator_id)
    pure (record {
      listed = listed_parts m.parts marker max_parts;
      owner = owner;
      initiator = initiator;
    })

  -- the loop of `AbortMultipartUpload` over the parts
  unfoldable pub recycle_parts : Multipart → Map Part → Action S (Unit {0})
  recycle_parts m [] = pure tt
  recycle_parts m ((i, p) ∷ ps) = recycle (place_of m p) >> recycle_parts m ps

  -- `AbortMultipartUpload`
  unfoldable pub abort_multipart_upload :
      Credential → String → String → String → Action S (Unit {0})
  abort_multipart_upload credential bucket_name name upload_id = do
    bucket ← get_writable_bucket bucket_name credential
    m ← call (b.client_get_multipart bucket_name name upload_id)
    call (b.client_delete_multipart m)
    recycle_parts m m.parts
    do_call (b.client_update_usage bucket_name (pos 0 -ℤ pos (removed_size m.parts)))
