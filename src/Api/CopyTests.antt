-- ===== src/Api/CopyTests.antt =====
-- Requests for a copy of a part, and an upload by a form.
use yig.Prelude.{
  if◌then◌else◌, contains, ℕ, ◌≡◌, refl, true, String, List, [], ◌∷◌, Option, none, some, arith,
  false, str_eq, length,
}
use yig.Types.{Texts, Credential}
use yig.Sample.{no_sse, bucket_of, sample}
use yig.Storage.{Backend, ok}
use yig.Get.Tests.{out, content, part_a, part_b, object, reads-Serves, index-Ascending}
use yig.Get.Range.{get_object-slice}
use yig.Multipart.Handlers.{copy_object_part}
use yig.Api.{Values, Request, Response, plain}
use yig.Api.Auth.{nobody, refused}
use yig.Api.Sse.{fine, parse_sse_header}
use yig.Api.Handler.{call_storage}
use yig.Api.CopySource.{CopySource, parse_copy_source, copy_source_text}
use yig.Api.CopySource.Written.{parse_copy_source-written}
use yig.Api.Copies.{copy_window, open_source, check_source, bounded_window, window_of}
use yig.Api.Copies.Window.{Reads, copy_window-slice}
use yig.Api.Tests.{refuses_all, plain_formats, request_with, fresh, world, no_codes, no_codecs}
use yig.Api.Forms.{
  FormTools, FormPart, field, file, extract_http_form_values, expand_key,
  post_policy_bucket_handler,
}
use yig.Api.Forms.Guard.{IsGuarded, post_policy_bucket_handler-IsGuarded}
use yig.Api.CopySource.{strip_text}

abbrev percent : String → Option String
percent s = some s

abbrev copies : Request
copies = request_with (
    ("X-Amz-Copy-Source", "/b/o?versionId=7" ∷ [])
    ∷ ("X-Amz-Copy-Source-Range", "bytes=1-2" ∷ [])
    ∷ [])

parse_copy_source-written_example :
    parse_copy_source percent (copy_source_text copies)
    ≡ fine (record { bucket = "b"; object = "o"; version = "7" })
parse_copy_source-written_example =
    parse_copy_source-written percent copies "b" "o" "b" "o" (refl, tt) (refl, tt) refl refl
      (some "7") refl refl

abbrev object_source : CopySource
object_source = record { bucket = "b"; object = "o"; version = "" }

abbrev owner : Credential
owner = record nobody { user_id = "u" }

abbrev with_object : Backend ℕ
with_object = record (sample "Disabled" (ok tt)) { client_get_object = λ _ _ _ s. (ok object, s) }

object-Reads : Reads (out true) object no_sse (1 ∷ 2 ∷ 3 ∷ 4 ∷ 5 ∷ [])
object-Reads start count h =
    get_object-slice (out true) content reads-Serves object refl refl refl (part_a ∷ part_b ∷ [])
      start count no_sse (omega arith) refl (refl, (refl, tt)) (refl, refl, (refl, refl, tt)) refl
      index-Ascending h

copy_window-slice_example :
    (copy_window with_object no_codes refuses_all plain_formats no_codecs
        (out true)
        percent
        copies
        owner
        2
        object_source
        (world, fresh)
      ≡ call_storage no_codes copies
          (copy_object_part with_object "b" "o" "" 2 2
            (record { content = 2 ∷ 3 ∷ []; signed = none })
            owner
            no_sse)
          (world, fresh))
    × (length {A = ℕ} (2 ∷ 3 ∷ []) ≡ 2)
unfolding open_source yig.Objects.get_object_info yig.Objects.find_object yig.Meta.get_bucket
    yig.Meta.get_latest_object yig.Objects.check_read parse_sse_header yig.Api.Sse.sse_type
    yig.Api.Sse.customer_type yig.Api.Sse.sse_fields yig.Api.Sse.copy_source_fields check_source
    yig.Preconditions.check_object_preconditions yig.Preconditions.check_time bounded_window
    window_of yig.Api.Copies.limited_range yig.HttpRange.parse_request_range
    yig.HttpRange.strip_prefix yig.HttpRange.cut_at yig.HttpRange.offset_of yig.HttpRange.resolve
    yig.HttpRange.get_length yig.Api.Sse.is_max_object_size yig.Prelude.Int.◌+ℤ◌
    yig.Prelude.Int.◌-ℤ◌
copy_window-slice_example =
    copy_window-slice with_object no_codes refuses_all plain_formats no_codecs (out true) percent
      copies owner 2 object_source object no_sse (1 ∷ 2 ∷ 3 ∷ 4 ∷ 5 ∷ []) (1, 2) (world, fresh)
      (world, fresh) (world, fresh) refl object-Reads refl refl refl refl

abbrev form_tools : FormTools
form_tools = record {
  policies = record {
    decode_base64 = λ _. none;
    parse_json = λ _. none;
    parse_time = λ _. none;
    now = 5;
    match_string = λ _ _. false;
    to_lower = λ s. s;
    canonical_header_key = λ s. if str_eq s "key" then "Key" else s;
  };
  does_policy_signature_match_v2 = λ _. refused plain;
  does_policy_signature_match_v4 = λ _. refused plain;
  parse_url = λ _. none;
}

abbrev named_by_file : List FormPart
named_by_file = field "key" (some "in/${filename}") ∷ file "o" (1 ∷ 2 ∷ []) ∷ []

abbrev fields : Texts
fields = ("Key", "in/o") ∷ []

abbrev sample_bucket : Backend ℕ
sample_bucket = sample "Disabled" (ok tt)

post_policy_bucket_handler-IsGuarded_example :
    IsGuarded sample_bucket no_codes plain_formats no_codecs form_tools copies fields
      (1 ∷ 2 ∷ [])
      (bucket_of "Disabled")
      (world, fresh)
      world
      (post_policy_bucket_handler sample_bucket no_codes plain_formats no_codecs form_tools
        (some named_by_file)
        copies
        (world, fresh))
unfolding extract_http_form_values yig.Meta.get_bucket expand_key strip_text contains
post_policy_bucket_handler-IsGuarded_example =
    post_policy_bucket_handler-IsGuarded sample_bucket no_codes plain_formats no_codecs form_tools
      copies named_by_file fields (1 ∷ 2 ∷ []) (bucket_of "Disabled") (world, fresh) world refl refl
