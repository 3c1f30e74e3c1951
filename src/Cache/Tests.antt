-- ===== src/Cache/Tests.antt =====
-- Runs of the metadata cache, and the theorems at concrete entries.
use yig.Prelude.{ℕ, ◌≡◌, ◌≤◌, refl, arith, ◌+◌, [], ◌∷◌, some, none, length}
use yig.Storage.{Value, bucket_names, no_value, Outcome, ok, user_table}
use yig.Cache.{Entry, MetaCache, Redis, find, remove, remove_oldest, set, entry}
use yig.Cache.Lru.{IsUnique, set-IsUnique-find}

abbrev old : Entry
old = entry user_table "ann" (bucket_names [])

abbrev names : Value
names = bucket_names ("b" ∷ [])

evicts : set 1 user_table "bob" names (old ∷ []) ≡ entry user_table "bob" names ∷ []
unfolding set find remove_oldest
evicts = refl

set-IsUnique-find_example :
    (IsUnique (set 1 user_table "bob" names (old ∷ [])))
    × (length (set 1 user_table "bob" names (old ∷ [])) ≤ 1)
    × (find user_table "bob" (set 1 user_table "bob" names (old ∷ [])) ≡ some names)
    × (IsUnique (remove user_table "bob" (old ∷ [])))
    × (length (remove user_table "bob" (old ∷ [])) ≤ 1)
    × (find user_table "bob" (remove user_table "bob" (old ∷ [])) ≡ none)
unfolding find
set-IsUnique-find_example =
    set-IsUnique-find 1 user_table "bob" names (old ∷ []) (omega arith) (refl, tt) (omega arith)

-- A redis that holds nothing.
abbrev empty_redis : Redis ℕ
empty_redis = record {
  redis_get = λ _ _ s. (ok no_value, s);
  redis_set = λ _ _ _ s. (ok tt, s);
  redis_remove = λ _ _ s. (ok tt, s);
  redis_invalid = λ _ _ s. (ok tt, s);
}

abbrev empty_cache : MetaCache
empty_cache = record { entries = []; hit = 0; miss = 0; failed = [] }

abbrev ask : ℕ → Outcome Value × ℕ
ask s = (ok names, s + 1)
