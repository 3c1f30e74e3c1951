-- ===== src/Storage/Rows.antt =====
-- What the storage layer relies on of the objects table: which rows there are under the name of an
-- object, and how the calls of the interface change them.
use yig.Prelude.{◌≡◌, String, List, [], ◌∷◌, All}
use yig.Prelude.Int.{ℤ}
use yig.Types.{Object, Multipart}
use yig.Storage.{ok, err, no_such_key, Backend, Table}

-- The rows of a bucket under a name, in the state of the back end.
pub record Rows {S : Type 0} (b : Backend S) : Type 0 where
  pub rows : S → String → String → List Object
  -- a row is kept under its own names
  pub named :
      (s : S) (bucket name : String)
      → All (λ o. (o.bucket_name ≡ bucket) × (o.name ≡ name)) (rows s bucket name)
  -- `PutObject` of the client inserts a row
  pub put_adds :
      (o : Object) (s : S)
      → (b.client_put_object o s).0 ≡ ok tt
      → rows (b.client_put_object o s).1 o.bucket_name o.name ≡ o ∷ rows s o.bucket_name o.name
  -- `DeleteObject` of the client deletes it
  pub delete_removes :
      (o : Object) (others : List Object) (s : S)
      → (b.client_delete_object o s).0 ≡ ok tt
      → rows s o.bucket_name o.name ≡ o ∷ others
      → rows (b.client_delete_object o s).1 o.bucket_name o.name ≡ others
  -- `GetAllObject` reads them all, and ErrNoSuchKey says that there is none
  pub lists :
      (bucket name : String) (s : S) (os : List Object)
      → (b.client_get_all_object bucket name s).0 ≡ ok os
      → (rows (b.client_get_all_object bucket name s).1 bucket name ≡ os)
  pub lists_none :
      (bucket name : String) (s : S)
      → (b.client_get_all_object bucket name s).0 ≡ err no_such_key
      → (rows (b.client_get_all_object bucket name s).1 bucket name ≡ [])
  -- the other tables, the caches and the clock are apart
  pub garbage_apart :
      (o : Object) (s : S) (bucket name : String)
      → rows (b.client_put_to_garbage o s).1 bucket name ≡ rows s bucket name
  pub uploads_apart :
      (m : Multipart) (s : S) (bucket name : String)
      → rows (b.client_delete_multipart m s).1 bucket name ≡ rows s bucket name
  pub usage_apart :
      (of : String) (n : ℤ) (s : S) (bucket name : String)
      → rows (b.client_update_usage of n s) bucket name ≡ rows s bucket name
  pub cache_apart :
      (t : Table) (key : String) (s : S) (bucket name : String)
      → rows (b.cache_remove t key s) bucket name ≡ rows s bucket name
  pub data_cache_apart :
      (key : String) (s : S) (bucket name : String)
      → rows (b.data_cache_remove key s) bucket name ≡ rows s bucket name
  pub clock_apart :
      (s : S) (bucket name : String) → rows (b.now s).1 bucket name ≡ rows s bucket name
