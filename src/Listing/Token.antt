-- ===== src/Listing/Token.antt =====
-- A continuation token takes a listing up where it was cut (storage/bucket.go).
use yig.Prelude.{subst, String, ◌≡◌, refl, sym, ◌∙◌, ap, true, false, List, some, str_eq, ◌==◌, map}
use yig.Types.{Credential, ListObjectsRequest}
use yig.Storage.{Outcome, ok, err, panicked, World, Action, pure, ◌>>=◌, Backend}
use yig.Storage.Steps.{>>=-ok}
use yig.Listing.{
  Lister, Found, ListedObject, ListObjectsInfo, markers_of, find_objects, listed_objects,
  next_marker_of, list_objects, encoded,
}

abbrev marker_in : Outcome ListObjectsInfo → String
marker_in (ok info) = info.next_marker
marker_in (err e) = ""
marker_in panicked = ""

module _ {S : Type 0} (b : Backend S) (l : Lister S) where
  abbrev listing_of : ListObjectsRequest → Found → Action S ListObjectsInfo
  listing_of request found = listed_objects b l request found.found >>= λ objects. pure (record {
    is_truncated = found.truncated;
    next_marker = next_marker_of b l request found;
    objects = objects;
    prefixes = map (encoded b l request) found.prefixes;
  })

  listing_of-next_marker :
      (request : ListObjectsRequest) (found : Found) (info : ListObjectsInfo) (w v : World S)
      → listing_of request found w ≡ (ok info, v)
      → info.next_marker ≡ next_marker_of b l request found
  listing_of-next_marker request found info w v h =
      let answer : List ListedObject → Action S ListObjectsInfo = λ objects. pure (record {
        is_truncated = found.truncated;
        next_marker = next_marker_of b l request found;
        objects = objects;
        prefixes = map (encoded b l request) found.prefixes;
      }) in
      let (objects, u, _, h') = >>=-ok (listed_objects b l request found.found) answer h in
      sym (ap (λ x. marker_in x.0) h')

  -- If a listing of version 2 without an encoding has been cut, the marker that it gives, as the
  -- token of the next request, makes the database be asked for what is behind the marker that the
  -- query has returned. The cipher is undone by its inverse, and no token is empty.
  pub list_objects-markers_of :
      (credential : Credential) (bucket_name : String) (request : ListObjectsRequest)
      (found : Found) (info : ListObjectsInfo) (w u v : World S)
      → request.versioned ≡ false
      → (request.version == 2) ≡ true
      → str_eq request.encoding_type "" ≡ true
      → l.decrypt_token (l.encrypt_token found.next_marker) ≡ some found.next_marker
      → str_eq (l.encrypt_token found.next_marker) "" ≡ false
      → find_objects b l credential bucket_name request w ≡ (ok found, u)
      → found.truncated ≡ true
      → list_objects b l credential bucket_name request w ≡ (ok info, v)
      → markers_of b l (record request { continuation_token = info.next_marker })
        ≡ ok (found.next_marker, "")
  unfolding list_objects markers_of next_marker_of
  list_objects-markers_of credential bucket_name request found info w u v objects two plain undone
        some_token finds cut h =
      let h' : listing_of request found u ≡ (ok info, v) =
        subst (λ x. ((λ _. x) >>= listing_of request) w ≡ (ok info, v)) finds h in
      let token : info.next_marker ≡ l.encrypt_token found.next_marker =
        listing_of-next_marker request found info u v h' ∙ rw (cut, two, plain) refl in
      rw (token, objects, two, some_token, undone) refl
