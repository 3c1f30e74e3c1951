-- ===== src/Api/FilterTests.antt =====
-- Hosts with a star, a preflight request through the filters, and a request to delete two objects.
use yig.Prelude.{
  String, List, ℕ, ◌≡◌, ◌↔◌, ◌++◌, refl, inl, true, [], ◌∷◌, Option, none, false, codes, arith,
}
use yig.Prelude.Int.{pos}
use yig.Types.{Bytes, Object}
use yig.Storage.{World, ok}
use yig.Sample.{sample}
use yig.Versions.{zero_object}
use yig.Api.Uploads.{Deleted}
use yig.Errors.{ApiErrorCode}
use yig.Preconditions.{bytes_eq}
use yig.Api.{Request, Response}
use yig.Api.Documents.{Document}
use yig.Api.Handler.{pure, crash}
use yig.Api.Cors.{Texts, match_host, has_suffix}
use yig.Api.Cors.Origin.{match_host-between}
use yig.Api.Filters.{Wrapped, register_handlers}
use yig.Api.Filters.Shield.{register_handlers-Agree}

match_host-between_example :
    (match_host (codes "www." ∷ codes ".com" ∷ []) (codes "www.x.com") ≡ true)
    ↔ ((middle : Bytes) × (codes "www.x.com" ≡ codes "www." ++ middle ++ codes ".com"))
match_host-between_example =
    match_host-between (codes "www.") (codes ".com") (codes "www.x.com") (omega arith)

-- The two pieces may share bytes of the host.
shared_bytes : match_host (codes "ab" ∷ codes "ba" ∷ []) (codes "aba") ≡ true
unfolding match_host has_suffix bytes_eq
shared_bytes = refl

abbrev preflight : Request
preflight = record {
  method = "OPTIONS";
  host = "s3.test";
  path = "/b/o";
  bucket = "b";
  object = "o";
  header = ("Origin", "http://x.test" ∷ []) ∷ ("Access-Control-Request-Method", "PUT" ∷ []) ∷ [];
  query = [];
  content_length = pos 0;
  transfer_encoding = [];
  body = [];
  body_fine = true;
}

abbrev texts : Texts
texts = record { parse_url = λ _. none; join = λ _. ""; itoa = λ _. "" }

abbrev unsent : Response Document
unsent = record { header = []; sent = none; written = [] }

abbrev start : World ℕ
start = record { store = 0; queue = [] }

abbrev no_number : ℕ → Option ApiErrorCode
no_number _ = none

abbrev quiet : Wrapped ℕ Document
quiet r = pure tt

abbrev crashing : Wrapped ℕ Document
crashing r = crash

register_handlers-Agree_example :
    register_handlers
      (sample "Disabled" (ok tt))
      no_number
      texts
      []
      (codes ".s3.test")
      quiet
      preflight
      (start, unsent)
    ≡ register_handlers
        (sample "Disabled" (ok tt))
        no_number
        texts
        []
        (codes ".s3.test")
        crashing
        preflight
        (start, unsent)
register_handlers-Agree_example =
    register_handlers-Agree (sample "Disabled" (ok tt)) no_number texts [] (codes ".s3.test") quiet
      crashing preflight (inl refl) (start, unsent)

abbrev two_keys : List (String × String)
two_keys = ("o", "") ∷ ("p", "v") ∷ []

abbrev rows_start : World (List Object)
rows_start = record {
  store = record zero_object { name = "o"; bucket_name = "b"; object_id = "x" } ∷ [];
  queue = [];
}

abbrev both_answered : Deleted
both_answered = (
  record {
    object_name = "o";
    version_id = "";
    delete_marker = false;
    delete_marker_version_id = "";
  }
      ∷ [],
  record {
    code = "NoSuchVersion";
    message = "The version ID specified in the request does not match an existing version.";
    key = "p";
    version_id = "v";
  }
      ∷ [],
)
