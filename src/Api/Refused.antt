-- ===== src/Api/Refused.antt =====
-- A request whose signature is refused gets no further (api/object-handlers.go,
-- api/bucket-handlers.go).
use yig.Prelude.{ℕ, ◌≡◌, refl, String, Bool, Option}
use yig.Prelude.Int.{ℤ}
use yig.Types.{Bytes}
use yig.Storage.{Backend, World}
use yig.Errors.{ApiErrorCode}
use yig.Get.{Outside}
use yig.Api.{Request, Response, Fault, write_error_response}
use yig.Api.Auth.{Verifier, refused, credential_of, is_req_authenticated}
use yig.Api.Handler.{Handler, answered, authenticate, bind_answered}
use yig.Api.ObjectHeaders.{Formats}
use yig.Api.Documents.{Document}
use yig.Api.Read.{open_object, get_object_handler, head_object_handler}
use yig.Api.Write.{Codecs, put_object_acl_handler, get_object_acl_handler, delete_object_handler}
use yig.Api.Uploads.{
  DeleteObjectsRequest, abort_multipart_upload_handler, list_object_parts_handler,
  delete_multiple_objects_handler,
}
use yig.Api.Copies.{copy_object_handler}
use yig.Api.Parts.{PartCodecs, complete_multipart_upload_handler}
use yig.Api.BucketHandlers.{
  BucketCodecs, signed_by, get_bucket_location_handler, get_bucket_life_cycle_handler,
  get_bucket_acl_handler, head_bucket_handler,
}

module _ {S : Type 0} (b : Backend S) (other_code : ℕ → Option ApiErrorCode) (v : Verifier)
    (f : Formats) (c : Codecs) (k : BucketCodecs) (out : Outside) (r : Request) (e : Fault) where
  -- The handler answers with the error, and the storage layer is as it was.
  abbrev pub Refuses : {A : Type 0} → Handler S Document A → Type 0
  Refuses handler =
      (st : World S × Response Document)
      → handler st ≡ (answered, (st.0, write_error_response r e st.1))

  authenticate-refused :
      (st : World S × Response Document)
      → credential_of v r ≡ refused e
      → authenticate v r st ≡ (answered, (st.0, write_error_response r e st.1))
  unfolding authenticate
  authenticate-refused st h = rw (h, authenticate) refl

  signed_by-refused :
      (st : World S × Response Document)
      → is_req_authenticated v r ≡ refused e
      → signed_by b other_code v k r st ≡ (answered, (st.0, write_error_response r e st.1))
  unfolding signed_by
  signed_by-refused st h = rw (h, signed_by) refl

  open_object-refused :
      (st : World S × Response Document)
      → credential_of v r ≡ refused e
      → open_object b other_code v f r st ≡ (answered, (st.0, write_error_response r e st.1))
  unfolding open_object
  open_object-refused st h = bind_answered (authenticate v r) _ st _ (authenticate-refused st h)

  -- If the signature of the request is refused, or it has an unknown one, each of the handlers that
  -- take anonymous requests too answers with the error alone: nothing is read, written or deleted.
  pub refused-Refuses :
      (atoi : String → Option ℤ) (valid_utf8 : String → Bool)
      (parse_delete : Bytes → Option DeleteObjectsRequest) (unescape : String → Option String)
      (parts : PartCodecs)
      → credential_of v r ≡ refused e
      → Refuses (get_object_handler b other_code v f out r)
        × Refuses (head_object_handler b other_code v f r)
        × Refuses (put_object_acl_handler b other_code v f c r)
        × Refuses (get_object_acl_handler b other_code v f c r)
        × Refuses (delete_object_handler b other_code v f c r)
        × Refuses (abort_multipart_upload_handler b other_code v f c r)
        × Refuses (list_object_parts_handler b other_code v f c atoi valid_utf8 r)
        × Refuses (delete_multiple_objects_handler b other_code v f c parse_delete r)
        × Refuses (get_bucket_location_handler b other_code v k r)
        × Refuses (get_bucket_life_cycle_handler b other_code v k r)
        × Refuses (get_bucket_acl_handler b other_code v k r)
        × Refuses (head_bucket_handler b other_code v k r)
        × Refuses (copy_object_handler b other_code v f c out unescape r)
        × Refuses (complete_multipart_upload_handler b other_code v f c parts r)
  unfolding get_object_handler head_object_handler put_object_acl_handler get_object_acl_handler
      delete_object_handler abort_multipart_upload_handler list_object_parts_handler
      delete_multiple_objects_handler get_bucket_location_handler get_bucket_life_cycle_handler
      get_bucket_acl_handler head_bucket_handler copy_object_handler
      complete_multipart_upload_handler
  refused-Refuses atoi valid_utf8 parse_delete unescape parts h = (
    λ st. bind_answered (open_object b other_code v f r) _ st _ (open_object-refused st h),
    λ st. bind_answered (open_object b other_code v f r) _ st _ (open_object-refused st h),
    λ st. bind_answered (authenticate v r) _ st _ (authenticate-refused st h),
    λ st. bind_answered (authenticate v r) _ st _ (authenticate-refused st h),
    λ st. bind_answered (authenticate v r) _ st _ (authenticate-refused st h),
    λ st. bind_answered (authenticate v r) _ st _ (authenticate-refused st h),
    λ st. bind_answered (authenticate v r) _ st _ (authenticate-refused st h),
    λ st. bind_answered (authenticate v r) _ st _ (authenticate-refused st h),
    λ st. bind_answered (authenticate v r) _ st _ (authenticate-refused st h),
    λ st. bind_answered (authenticate v r) _ st _ (authenticate-refused st h),
    λ st. bind_answered (authenticate v r) _ st _ (authenticate-refused st h),
    λ st. bind_answered (authenticate v r) _ st _ (authenticate-refused st h),
    λ st. bind_answered (authenticate v r) _ st _ (authenticate-refused st h),
    λ st. bind_answered (authenticate v r) _ st _ (authenticate-refused st h),
  )
