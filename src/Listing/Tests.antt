-- ===== src/Listing/Tests.antt =====
-- A listing that is cut behind its first object.
use yig.Prelude.{ℕ, ◌≡◌, refl, true, false, [], ◌∷◌, some, none}
use yig.Prelude.Int.{pos}
use yig.Types.{ListObjectsRequest}
use yig.Storage.{World, ok}
use yig.Sample.{sample, ann}
use yig.Versions.{zero_object}
use yig.Listing.{Lister, Found, ListObjectsInfo, list_objects, markers_of, find_objects}
use yig.Listing.Token.{list_objects-markers_of}

abbrev one_found : Found
one_found = record {
  found = record zero_object { name = "o" } ∷ [];
  prefixes = [];
  truncated = true;
  next_marker = "o";
  next_ver_id_marker = "";
}

abbrev lister : Lister ℕ
lister = record {
  client_list_objects = λ _ _ _ _ _ _ _ s. (ok one_found, s);
  encrypt_token = λ _. "token";
  decrypt_token = λ _. some "o";
  query_escape = λ s. s;
}

abbrev request : ListObjectsRequest
request = record {
  versioned = false;
  version = 2;
  continuation_token = "";
  start_after = "";
  fetch_owner = false;
  marker = "";
  delimiter = "";
  encoding_type = "";
  max_keys = pos 1;
  prefix = "";
  key_marker = "";
  version_id_marker = "";
}

abbrev start : World ℕ
start = record { store = 0; queue = [] }

abbrev first_page : ListObjectsInfo
first_page = record {
  is_truncated = true;
  next_marker = "token";
  objects = record { key = "o"; last_modified = 0; etag = "\"\""; size = 0; owner = none } ∷ [];
  prefixes = [];
}

finds :
    find_objects (sample "Disabled" (ok tt)) lister ann "b" request start ≡ (ok one_found, start)
unfolding find_objects yig.Meta.get_bucket yig.Listing.may_list yig.Listing.list_objects_internal
    markers_of
finds = refl

lists_one :
    list_objects (sample "Disabled" (ok tt)) lister ann "b" request start ≡ (ok first_page, start)
unfolding list_objects find_objects yig.Meta.get_bucket yig.Listing.may_list
    yig.Listing.list_objects_internal markers_of yig.Listing.listed_objects
    yig.Listing.listed_object yig.Listing.owner_of yig.Listing.next_marker_of
lists_one = refl

list_objects-markers_of_example :
    markers_of (sample "Disabled" (ok tt)) lister (record request { continuation_token = "token" })
    ≡ ok ("o", "")
list_objects-markers_of_example =
    list_objects-markers_of (sample "Disabled" (ok tt)) lister ann "b" request one_found first_page
      start start start refl refl refl refl refl finds refl lists_one
