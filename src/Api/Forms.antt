-- ===== src/Api/Forms.antt =====
-- `PostPolicyBucketHandler` with `extractHTTPFormValues` (api/bucket-handlers.go): an upload by a form.
-- The parts of the form, the checks of its two signatures, `http.CanonicalHeaderKey` and `url.Parse`
-- are parameters. The map of the fields is a list in the order of the iteration.
pub mod Guard
use Prim.Native.String
use yig.Prelude.{
  ℕ, zero, suc, String, Bool, List, [], ◌∷◌, map, Option, none, some, str_eq, if◌then◌else◌, not,
  codes, concat, contains, true,
}
use yig.Prelude.Int.{ℤ}
use yig.Types.{Bytes, Texts, Credential, Bucket, Acl}
use yig.Access.{texts_at}
use yig.Storage.{Backend}
use yig.Errors
use yig.Errors.{ApiErrorCode}
use yig.Names.{is_valid_object_name}
use yig.Meta.{get_bucket}
use yig.Put.{put_object, PutObjectResult}
use yig.PostPolicy.{
  Tools, PostPolicyType, policy_v2, policy_v4, policy_anonymous, policy_unknown,
  get_post_policy_type, check_post_policy, or_empty,
}
use yig.Api.{Values, Request, Response, document, code, get, set_header, write_header, write}
use yig.Api.Auth.{Verdict, granted, refused, nobody}
use yig.Api.Sse.{
  parse_sse_header, acl_or_private, is_valid_canned_acl, extract_metadata_from_header, put_text,
  string_in_slice, Checked, fine, wrong,
}
use yig.Api.Handler.{
  Handler, pure, ◌>>=◌, ◌>>◌, respond, answer, fail, fail_if, call_storage, checked,
}
use yig.Api.ObjectHeaders.{Formats, set_etag}
use yig.Api.Write.{Codecs, minus_one}
use yig.Api.CopySource.{strip_text}
use yig.Api.Documents.{Document, CompleteMultipartUploadResponse, posted}

-- What `NextPart` gives: a field with what can be read of it, the file, or an error.
pub data FormPart : Type 0 where
  field : String → Option String → FormPart
  file : String → Bytes → FormPart
  broken : FormPart

pub record FormTools : Type 0 where
  pub policies : Tools
  pub does_policy_signature_match_v2 : Texts → Verdict
  pub does_policy_signature_match_v4 : Texts → Verdict
  -- `url.Parse`, printed again
  pub parse_url : String → Option String

-- the rest of `strings.Replace(s, "${filename}", new, -1)`, with the characters still to leave out
unfoldable pub replace_from : ℕ → String → String → String
replace_from skip new String.[] = ""
replace_from (suc skip) new (String.◌∷◌ c s) = replace_from skip new s
replace_from zero new (String.◌∷◌ c s) =
    let inside = replace_from 10 new s in
    let behind = replace_from 0 new s in
    elim (strip_text "${filename}" (String.◌∷◌ c s)) [
      | some _ ↦ concat new inside
      | none ↦ String.◌∷◌ c behind
    ]

unfoldable pub expand_key : String → String → Texts → Texts
unfolding replace_from
expand_key key file_name values =
    if contains key "${filename}"
    then put_text "Key" (replace_from 0 file_name key) values
    else values

-- `extractHTTPFormValues`: the file and the fields before it; `none` is an error
unfoldable pub extract_http_form_values :
    (String → String) → List FormPart → Texts → Option (Bytes × Texts)
extract_http_form_values canonical [] values = none
extract_http_form_values canonical (broken ∷ parts) values = none
extract_http_form_values canonical (field name none ∷ parts) values = none
extract_http_form_values canonical (field name (some value) ∷ parts) values =
    extract_http_form_values canonical parts (put_text (canonical name) value values)
extract_http_form_values canonical (file file_name content ∷ parts) values =
    elim (texts_at values "Key") [
      | none ↦ none
      | some key ↦ some (content, expand_key key file_name values)
    ]

-- the fields as headers
abbrev pub headerfied : Texts → Values
headerfied [] = []
headerfied ((key, value) ∷ rest) = (key, value ∷ []) ∷ headerfied rest

abbrev pub valid_success_action_status : List String
valid_success_action_status = "200" ∷ "201" ∷ "204" ∷ []

-- where the client is sent, if anywhere
unfoldable pub redirect_of : Texts → String
redirect_of values =
    if str_eq (or_empty (texts_at values "Success_action_redirect")) ""
    then or_empty (texts_at values "redirect")
    else or_empty (texts_at values "Success_action_redirect")

unfoldable pub status_of_form : Texts → String
status_of_form values =
    let status = or_empty (texts_at values "Success_action_status") in
    if string_in_slice status valid_success_action_status then status else "204"

module _ {S : Type 0} (b : Backend S) (other_code : ℕ → Option ApiErrorCode) (f : Formats)
    (c : Codecs) (t : FormTools) where
  -- the answer without a redirection
  unfoldable pub answer_status :
      Request → String → String → String → Response Document → Response Document
  answer_status r name etag status w =
      if str_eq status "200"
      then write_header 200 w
      else if str_eq status "204"
      then write_header 204 w
      else write
          (document (
            posted (record {
              location = concat "/" (concat r.bucket (concat "/" name));
              bucket = r.bucket;
              key = name;
              etag = etag;
            })))
          (write_header 201 w)

  abbrev redirected :
      Request → String → String → Texts → Option String → Response Document → Response Document
  redirected r name etag values none w = answer_status r name etag (status_of_form values) w
  redirected r name etag values (some url) w = write_header 303 (set_header "Location" url w)

  -- The answer. The three parameters that are set on a copy of the query of the URL are lost.
  unfoldable pub answer_form :
      Request → String → Texts → PutObjectResult → Response Document → Response Document
  answer_form r name values result w =
      let w' = set_etag result.md5 w in
      if str_eq (redirect_of values) ""
      then answer_status r name result.md5 (status_of_form values) w'
      else redirected r name result.md5 values (t.parse_url (redirect_of values)) w'

  abbrev pub the_verdict : Request → Verdict → Handler S Document Credential
  the_verdict r (granted credential) = pure credential
  the_verdict r (refused e) = fail r e

  -- whoever has signed the form; without a policy everybody may write a public bucket
  unfoldable pub sign_form :
      Request → Texts → Bucket → PostPolicyType → Handler S Document Credential
  sign_form r values bucket policy_v2 = the_verdict r (t.does_policy_signature_match_v2 values)
  sign_form r values bucket policy_v4 = the_verdict r (t.does_policy_signature_match_v4 values)
  sign_form r values bucket policy_anonymous =
      fail_if (not (str_eq bucket.acl.canned_acl "public-read-write")) r (code Errors.access_denied)
      >> pure nobody
  sign_form r values bucket policy_unknown = fail r (code Errors.malformed_post_request)

  abbrev pub allowed : Request → Option ApiErrorCode → Handler S Document (Unit {0})
  allowed r none = pure tt
  allowed r (some e) = fail r (code e)

  abbrev acl_or_refused : Request → Acl → Checked (Unit {0}) → Handler S Document Acl
  acl_or_refused r acl (fine _) = pure acl
  acl_or_refused r acl (wrong e) = fail r (code Errors.invalid_canned_acl)

  -- from the conversion of the fields to headers on
  unfoldable pub store_form :
      Request → String → Texts → Bytes → Credential → Handler S Document (Unit {0})
  store_form r name values content credential = do
    acl ←
        acl_or_refused r (acl_or_private (get (headerfied values) "Acl"))
          (is_valid_canned_acl (acl_or_private (get (headerfied values) "Acl")))
    sse ← checked r (parse_sse_header f.decode_base64 f.md5_base64 (headerfied values))
    result ← call_storage other_code r (
        put_object b r.bucket name credential minus_one
          (record { content = content; signed = none })
          (extract_metadata_from_header (headerfied values)) acl sse)
    answer (answer_form r name values result)

  -- the checks of the signature and of the policy
  unfoldable pub admit_form : Request → Texts → Bucket → Handler S Document Credential
  admit_form r values bucket = do
    credential ← sign_form r values bucket (get_post_policy_type values)
    allowed r (check_post_policy t.policies values (get_post_policy_type values))
    pure credential

  -- behind the reading of the form
  unfoldable pub take_form : Request → Texts → Bytes → Handler S Document (Unit {0})
  take_form r values content = do
    let name = or_empty (texts_at values "Key")
    fail_if (not (is_valid_object_name c.decode_utf8 (codes name))) r
        (code Errors.invalid_object_name)
    bucket ← call_storage other_code r (get_bucket b r.bucket true)
    credential ← admit_form r (put_text "Bucket" r.bucket values) bucket
    store_form r name (put_text "Bucket" r.bucket values) content credential

  abbrev read_form : Request → Option (Bytes × Texts) → Handler S Document (Unit {0})
  read_form r none = fail r (code Errors.malformed_post_request)
  read_form r (some (content, values)) = take_form r values content

  -- `PostPolicyBucketHandler`, with the parts of the form, if it is one
  unfoldable pub post_policy_bucket_handler :
      Option (List FormPart) → Request → Handler S Document (Unit {0})
  post_policy_bucket_handler none r = fail r (code Errors.malformed_post_request)
  post_policy_bucket_handler (some parts) r =
      read_form r (extract_http_form_values t.policies.canonical_header_key parts [])
