-- ===== src/Api/Forms/Guard.antt =====
-- Who may upload by a form (api/bucket-handlers.go).
use yig.Prelude.{
  ℕ, true, List, Option, none, some, str_eq, codes, ◌≡◌, ◌⊎◌, inl, inr, refl, Bool-cases,
}
use yig.Types.{Bytes, Texts, Credential, Bucket}
use yig.Storage.{Backend, World, ok}
use yig.Errors.{ApiErrorCode, access_denied, malformed_post_request, invalid_object_name}
use yig.Names.{is_valid_object_name}
use yig.Meta.{get_bucket}
use yig.PostPolicy.{
  PostPolicyType, policy_v2, policy_v4, policy_anonymous, policy_unknown, get_post_policy_type,
  check_post_policy, or_empty,
}
use yig.Access.{texts_at}
use yig.Api.{Request, Response, write_error_response, code, []}
use yig.Api.Auth.{granted, refused, nobody, Verdict}
use yig.Api.Sse.{put_text}
use yig.Api.Handler.{◌>>=◌, ◌>>◌, pure, Reply, go, answered, continue, bind_go, call_storage-ok}
use yig.Api.ObjectHeaders.{Formats}
use yig.Api.Write.{Codecs}
use yig.Api.Documents.{Document}
use yig.Api.Forms.{
  FormPart, FormTools, sign_form, allowed, admit_form, store_form, take_form,
  extract_http_form_values, post_policy_bucket_handler, the_verdict,
}

module _ (t : FormTools) (values : Texts) (bucket : Bucket) where
  -- The form is signed by the user whom the credential names, and its policy passes, or it has no
  -- policy and everybody may write the bucket.
  pub data Admitted : Credential → Type 0 where
    by_v2 :
        (credential : Credential)
        → get_post_policy_type values ≡ policy_v2
        → t.does_policy_signature_match_v2 values ≡ granted credential
        → check_post_policy t.policies values policy_v2 ≡ none
        → Admitted credential
    by_v4 :
        (credential : Credential)
        → get_post_policy_type values ≡ policy_v4
        → t.does_policy_signature_match_v4 values ≡ granted credential
        → check_post_policy t.policies values policy_v4 ≡ none
        → Admitted credential
    by_anyone :
        get_post_policy_type values ≡ policy_anonymous
        → str_eq bucket.acl.canned_acl "public-read-write" ≡ true
        → Admitted nobody

module _ {S : Type 0} (b : Backend S) (other_code : ℕ → Option ApiErrorCode) (f : Formats)
    (c : Codecs) (t : FormTools) (r : Request) where
  -- what a check of a form comes to: it goes on with a credential that is admitted, or it answers
  abbrev Checks :
      (Credential → Type 0)
      → (World S × Response Document)
      → Reply Credential × (World S × Response Document)
      → Type 0
  Checks P st run =
      ((credential : Credential) × P credential × (run ≡ (go credential, st)))
      ⊎ ((w : Response Document) × (run ≡ (answered, (st.0, w))))

  by_verdict :
      (P : Credential → Type 0) (st : World S × Response Document) (x : Verdict)
      (result : Option ApiErrorCode)
      → ((credential : Credential) → x ≡ granted credential → result ≡ none → P credential)
      → Checks P st (
          (the_verdict b other_code f c t r x >>= λ credential.
          allowed b other_code f c t r result >> pure credential)
            st)
  by_verdict P st (refused e) result admits = inr (write_error_response r e st.1, refl)
  by_verdict P st (granted credential) none admits =
      inl (credential, admits credential refl refl, refl)
  by_verdict P st (granted credential) (some e) admits =
      inr (write_error_response r (code e) st.1, refl)

  admit_form-Checks :
      (values : Texts) (bucket : Bucket) (st : World S × Response Document)
      → Checks (Admitted t values bucket) st (admit_form b other_code f c t r values bucket st)
  unfolding admit_form sign_form check_post_policy
  admit_form-Checks values bucket st = by_type (get_post_policy_type values) refl
    where
      by_type :
          (type : PostPolicyType)
          → get_post_policy_type values ≡ type
          → Checks (Admitted t values bucket) st (
              (sign_form b other_code f c t r values bucket type >>= λ credential.
              allowed b other_code f c t r (check_post_policy t.policies values type)
              >> pure credential)
                st)
      by_type policy_v2 e =
          by_verdict (Admitted t values bucket) st (t.does_policy_signature_match_v2 values)
            (check_post_policy t.policies values policy_v2)
            (λ credential signed passed. by_v2 credential e signed passed)
      by_type policy_v4 e =
          by_verdict (Admitted t values bucket) st (t.does_policy_signature_match_v4 values)
            (check_post_policy t.policies values policy_v4)
            (λ credential signed passed. by_v4 credential e signed passed)
      by_type policy_anonymous e =
          elim (Bool-cases (str_eq bucket.acl.canned_acl "public-read-write")) [
            | inl public ↦ rw public (inl (nobody, by_anyone e public, refl))
            | inr closed ↦ rw closed (inr (write_error_response r (code access_denied) st.1, refl))
          ]
      by_type policy_unknown e =
          inr (write_error_response r (code malformed_post_request) st.1, refl)

  -- The handler stores nothing, be it before or behind the reading of the bucket, or it stores the
  -- file for a user who is admitted.
  abbrev pub IsGuarded :
      Texts
      → Bytes
      → Bucket
      → (World S × Response Document)
      → World S
      → Reply (Unit {0}) × (World S × Response Document)
      → Type 0
  IsGuarded values content bucket st v run =
      let form = put_text "Bucket" r.bucket values in
      ((w : Response Document) × (run ≡ (answered, (st.0, w))))
      ⊎ ((w : Response Document) × (run ≡ (answered, (v, w))))
      ⊎ ((credential : Credential) × Admitted t form bucket credential
          × (run
              ≡ store_form b other_code f c t r (or_empty (texts_at values "Key")) form content
                  credential (v, st.1)))

  take_form-IsGuarded :
      (values : Texts) (content : Bytes) (bucket : Bucket) (st : World S × Response Document)
      (v : World S)
      → get_bucket b r.bucket true st.0 ≡ (ok bucket, v)
      → IsGuarded values content bucket st v (take_form b other_code f c t r values content st)
  unfolding take_form
  take_form-IsGuarded values content bucket (world, w) v found =
      elim (Bool-cases
        (is_valid_object_name c.decode_utf8 (codes (or_empty (texts_at values "Key"))))) [
          | inl valid ↦
              rw
                (
                  valid,
                  bind_go _ _ bucket (world, w) (v, w)
                      (call_storage-ok other_code r (get_bucket b r.bucket true) bucket world v w
                        found),
                )
                (by_checks (admit_form-Checks (put_text "Bucket" r.bucket values) bucket (v, w)))
          | inr wrong ↦ rw wrong (inl (write_error_response r (code invalid_object_name) w, refl))
        ]
    where
      by_checks :
          Checks
            (Admitted t (put_text "Bucket" r.bucket values) bucket)
            (v, w)
            (admit_form b other_code f c t r (put_text "Bucket" r.bucket values) bucket (v, w))
          → IsGuarded values content bucket
              (world, w)
              v
              (continue
                (store_form b other_code f c t r
                  (or_empty (texts_at values "Key"))
                  (put_text "Bucket" r.bucket values)
                  content)
                (admit_form b other_code f c t r (put_text "Bucket" r.bucket values) bucket (v, w)))
      by_checks (inl (credential, admitted, e)) = inr (inr (credential, admitted, rw e refl))
      by_checks (inr (w', e)) = inr (inl (w', rw e refl))

  -- If the form is read and the bucket found: the handler stores nothing and leaves the storage
  -- layer as it was before or behind the reading of the bucket, or it goes on to store the file for
  -- a user who has signed the form, whose policy passes, or for nobody, if the form has no policy
  -- and everybody may write the bucket.
  pub post_policy_bucket_handler-IsGuarded :
      (parts : List FormPart) (values : Texts) (content : Bytes) (bucket : Bucket)
      (st : World S × Response Document) (v : World S)
      → extract_http_form_values t.policies.canonical_header_key parts [] ≡ some (content, values)
      → get_bucket b r.bucket true st.0 ≡ (ok bucket, v)
      → IsGuarded values content bucket st v
          (post_policy_bucket_handler b other_code f c t (some parts) r st)
  unfolding post_policy_bucket_handler
  post_policy_bucket_handler-IsGuarded parts values content bucket st v read found =
      rw read (take_form-IsGuarded values content bucket st v found)
