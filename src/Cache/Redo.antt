-- ===== src/Cache/Redo.antt =====
-- The goroutines beside the metadata cache (meta/cache.go).
use yig.Prelude.{ℕ, ◌≡◌, refl, String, false, List, ◌∷◌, length, Option, [], some, ◌∙◌, none}
use yig.Storage.{Table}
use yig.Cache.Lru.{IsUnique, find-remove}
use yig.Cache.{MetaCache, Redis, is_error, redo_first, redo_failed, invalidate_local, find, message}

module _ {S : Type 0} (redis : Redis S)
    (removes : (t : Table) (key : String) (s : S) → is_error (redis.redis_remove t key s).0 ≡ false)
    (tells : (t : Table) (key : String) (s : S)
      → is_error (redis.redis_invalid t key s).0 ≡ false) where
  redo_first-failed :
      (bound : ℕ) (c : MetaCache) (s : S) (t : Table) (key : String) (rest : List (Table × String))
      → c.failed ≡ (t, key) ∷ rest
      → ((redo_first redis bound c s).0.failed ≡ rest)
        × ((redo_first redis bound c s).0.entries ≡ c.entries)
  unfolding redo_first
  redo_first-failed bound c s t key rest h = (
    rw (h, removes t key s, tells t key (redis.redis_remove t key s).1) refl,
    rw (h, removes t key s) refl,
  )

  -- While redis works, as many rounds as calls have failed do them all again, in their order, and
  -- leave the entries of the cache as they are.
  pub redo_failed_empties :
      (bound : ℕ) (c : MetaCache) (s : S) (todo : List (Table × String))
      → c.failed ≡ todo
      → ((redo_failed redis bound (length todo) c s).0.failed ≡ [])
        × ((redo_failed redis bound (length todo) c s).0.entries ≡ c.entries)
  unfolding redo_failed
  redo_failed_empties bound c s [] h = (h, refl)
  redo_failed_empties bound c s ((t, key) ∷ rest) h =
      let (left, kept) = redo_first-failed bound c s t key rest h in
      let next = redo_first redis bound c s in
      let (none_left, same) = redo_failed_empties bound next.0 next.1 rest left in
      (none_left, same ∙ kept)

-- A message of redis about a key makes the cache forget it: what was read with the mark that it will
-- be needed is gone when the message that the reading itself has sent comes behind it.
pub invalidate_local-find :
    (table_of : String → Option Table) (channel key : String) (t : Table) (c : MetaCache)
    → table_of channel ≡ some t
    → IsUnique c.entries
    → find t key (invalidate_local table_of (message channel key) c).entries ≡ none
unfolding invalidate_local
invalidate_local-find table_of channel key t c h unique =
    rw (h, invalidate_local) (find-remove t key c.entries unique)
