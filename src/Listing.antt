-- ===== src/Listing.antt =====
-- The listings of objects and of their versions (storage/bucket.go). The query of the database, the
-- cipher of a continuation token and `url.QueryEscape` are fields of `Lister`.
pub mod Token
mod Tests
use yig.Prelude.{
  ℕ, String, Bool, true, not, List, [], ◌∷◌, Option, none, some, str_eq, if◌then◌else◌, ◌&&◌, ◌||◌,
  ◌==◌, concat, map,
}
use yig.Prelude.Int.{ℤ}
use yig.Types.{Credential, Object, Bucket, ListObjectsRequest}
use yig.Storage.{
  bucket_access_forbidden, invalid_continuation_token, Outcome, ok, err, Action, pure, ◌>>=◌, ◌>>◌,
  call, raise_if, Backend,
}
use yig.Meta.{get_bucket}
use yig.Versions.{get_version_id}

-- What the query of the database returns.
pub record Found : Type 0 where
  pub found : List Object
  pub prefixes : List String
  pub truncated : Bool
  pub next_marker : String
  pub next_ver_id_marker : String

pub record Lister (S : Type 0) : Type 0 where
  -- `Client.ListObjects(bucket, marker, verIdMarker, prefix, delimiter, versioned, maxKeys)`
  pub client_list_objects :
      String → String → String → String → String → Bool → ℤ → S → Outcome Found × S
  -- `util.Encrypt` and `util.Decrypt`
  pub encrypt_token : String → String
  pub decrypt_token : String → Option String
  pub query_escape : String → String

-- `datatype.Object`, without the fields that are always the same
pub record ListedObject : Type 0 where
  pub key : String
  pub last_modified : ℕ
  pub etag : String
  pub size : ℕ
  pub owner : Option Credential

-- `datatype.VersionedObject`
pub record ListedVersion : Type 0 where
  pub object : ListedObject
  pub version_id : String
  pub is_delete_marker : Bool

pub record ListObjectsInfo : Type 0 where
  pub is_truncated : Bool
  pub next_marker : String
  pub objects : List ListedObject
  pub prefixes : List String

pub record VersionedListObjectsInfo : Type 0 where
  pub is_truncated : Bool
  pub next_key_marker : String
  pub next_version_id_marker : String
  pub versions : List ListedVersion
  pub prefixes : List String

-- the test on the ACL of the bucket
unfoldable pub may_list : Bucket → Credential → Bool
may_list bucket credential =
    if str_eq bucket.acl.canned_acl "public-read"
      || str_eq bucket.acl.canned_acl "public-read-write"
    then true
    else if str_eq bucket.acl.canned_acl "authenticated-read"
    then not (str_eq credential.user_id "")
    else str_eq bucket.owner_id credential.user_id

module _ {S : Type 0} (b : Backend S) (l : Lister S) where
  -- the two markers behind which a listing begins
  unfoldable pub markers_of : ListObjectsRequest → Outcome (String × String)
  markers_of request =
      if request.versioned
      then ok (request.key_marker, request.version_id_marker)
      else if request.version == 2
      then if str_eq request.continuation_token ""
        then ok (request.start_after, "")
        else (elim (l.decrypt_token request.continuation_token) [
          | none ↦ err invalid_continuation_token
          | some marker ↦ ok (marker, "")
        ])
      else ok (request.marker, "")

  -- `ListObjectsInternal`
  unfoldable pub list_objects_internal : String → ListObjectsRequest → Action S Found
  list_objects_internal bucket_name request = (λ w. (markers_of request, w)) >>= λ markers. call (
      l.client_list_objects bucket_name markers.0 markers.1 request.prefix request.delimiter
        request.versioned request.max_keys)

  -- the beginning of both listings
  unfoldable pub find_objects : Credential → String → ListObjectsRequest → Action S Found
  find_objects credential bucket_name request = do
    bucket ← get_bucket b bucket_name true
    raise_if (not (may_list bucket credential)) bucket_access_forbidden
    list_objects_internal bucket_name request

  abbrev pub encoded : ListObjectsRequest → String → String
  encoded request s = if str_eq request.encoding_type "" then s else l.query_escape s

  unfoldable pub owner_of : ListObjectsRequest → Object → Action S (Option Credential)
  owner_of request o =
      if request.fetch_owner
      then (call (b.credential_by_user_id o.owner_id) >>= λ owner. pure (some owner))
      else pure none

  unfoldable pub listed_object : ListObjectsRequest → Object → Action S ListedObject
  listed_object request o = owner_of request o >>= λ owner. pure (record {
    key = encoded request o.name;
    last_modified = o.last_modified_time;
    etag = concat "\"" (concat o.etag "\"");
    size = o.size;
    owner = owner;
  })

  -- the loop over the objects
  unfoldable pub listed_objects : ListObjectsRequest → List Object → Action S (List ListedObject)
  listed_objects request [] = pure []
  listed_objects request (o ∷ os) = listed_object request o >>= λ listed.
      listed_objects request os >>= λ rest. pure (listed ∷ rest)

  -- A marker is given only where the listing is cut. For version 2 it is enciphered, also an empty
  -- one.
  unfoldable pub next_marker_of : ListObjectsRequest → Found → String
  next_marker_of request found =
      let marker = if found.truncated then found.next_marker else "" in
      encoded request (if request.version == 2 then l.encrypt_token marker else marker)

  -- `ListObjects`
  unfoldable pub list_objects : Credential → String → ListObjectsRequest → Action S ListObjectsInfo
  list_objects credential bucket_name request = do
    found ← find_objects credential bucket_name request
    objects ← listed_objects request found.found
    pure (record {
      is_truncated = found.truncated;
      next_marker = next_marker_of request found;
      objects = objects;
      prefixes = map (encoded request) found.prefixes;
    })

  unfoldable pub listed_versions : ListObjectsRequest → List Object → Action S (List ListedVersion)
  listed_versions request [] = pure []
  listed_versions request (o ∷ os) = listed_object request o >>= λ listed.
      listed_versions request os >>= λ rest. pure (
        record {
          object = listed;
          version_id = get_version_id b o;
          is_delete_marker = o.delete_marker;
        }
        ∷ rest)

  -- `ListVersionedObjects`; the marker of the version is given with that of the key
  unfoldable pub list_versioned_objects :
      Credential → String → ListObjectsRequest → Action S VersionedListObjectsInfo
  list_versioned_objects credential bucket_name request = do
    found ← find_objects credential bucket_name request
    versions ← listed_versions request found.found
    pure (record {
      is_truncated = found.truncated;
      next_key_marker = encoded request (if found.truncated then found.next_marker else "");
      next_version_id_marker =
          if found.truncated && not (str_eq found.next_marker "")
          then found.next_ver_id_marker
          else "";
      versions = versions;
      prefixes = map (encoded request) found.prefixes;
    })
