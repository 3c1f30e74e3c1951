-- ===== src/Cache.antt =====
-- The metadata cache of one instance (meta/cache.go): `enabledMetaCache` over redis, and the two
-- caches that stand in for it. The list of the cache holds its entries from the latest used to the
-- oldest; the map beside it is determined by the list. What the callback and redis do is a function
-- of a state `S`.
pub mod Lru
pub mod Twice
pub mod Redo
mod Tests
use yig.Prelude.{
  zero, suc, ℕ, ◌+◌, ◌≡◌, String, Bool, true, false, ◌&&◌, List, [], ◌∷◌, ◌++◌, Option, none, some,
  str_eq, if◌then◌else◌, length, ltb,
}
use yig.Storage.{
  Table, user_table, bucket_table, object_table, Value, no_value, Outcome, ok, err, panicked,
}

pub record Entry : Type 0 where
  pub table : Table
  pub key : String
  pub value : Value

abbrev pub table_eq : Table → Table → Bool
table_eq user_table user_table = true
table_eq bucket_table bucket_table = true
table_eq object_table object_table = true
table_eq _ _ = false

abbrev pub same_key : Table → String → Entry → Bool
same_key t key e = table_eq t e.table && str_eq key e.key

-- `m.cache[table][key]`
unfoldable pub find : Table → String → List Entry → Option Value
find t key [] = none
find t key (e ∷ es) = if same_key t key e then some e.value else find t key es

-- `remove`: the entry leaves the list and the map
unfoldable pub remove : Table → String → List Entry → List Entry
remove t key [] = []
remove t key (e ∷ es) = if same_key t key e then es else e ∷ remove t key es

-- `removeOldest`
unfoldable pub remove_oldest : List Entry → List Entry
remove_oldest [] = []
remove_oldest (e ∷ []) = []
remove_oldest (e ∷ f ∷ fs) = e ∷ remove_oldest (f ∷ fs)

abbrev pub entry : Table → String → Value → Entry
entry t key value = record { table = t; key = key; value = value }

-- `set`
unfoldable pub set : ℕ → Table → String → Value → List Entry → List Entry
set max_entries t key value es = elim (find t key es) [
  | some _ ↦ entry t key value ∷ remove t key es
  | none ↦
      if ltb max_entries (length es + 1)
      then remove_oldest (entry t key value ∷ es)
      else entry t key value ∷ es
]

-- What the cache asks of redis.
pub record Redis (S : Type 0) : Type 0 where
  -- `redis.Get`: an error, or a value that may be missing
  pub redis_get : Table → String → S → Outcome Value × S
  pub redis_set : Table → String → Value → S → Outcome (Unit {0}) × S
  pub redis_remove : Table → String → S → Outcome (Unit {0}) × S
  pub redis_invalid : Table → String → S → Outcome (Unit {0}) × S

pub record MetaCache : Type 0 where
  pub entries : List Entry
  pub hit : ℕ
  pub miss : ℕ
  -- `failedCacheInvalidOperation`
  pub failed : List (Table × String)

abbrev pub is_error : Outcome (Unit {0}) → Bool
is_error (ok _) = false
is_error _ = true

-- the entry goes to the channel of failed operations, if the call has failed
abbrev pub note_failure : Table → String → Outcome (Unit {0}) → MetaCache → MetaCache
note_failure t key r c = if is_error r then record c { failed = c.failed ++ (t, key) ∷ [] } else c

-- a value from redis: `err == nil && value != nil`
abbrev pub present : Outcome Value → Option Value
present (ok no_value) = none
present (ok v) = some v
present _ = none

module _ {S : Type 0} (redis : Redis S) (max_entries : ℕ) where
  -- behind `onCacheMiss`, for a value that will be needed
  unfoldable pub publish : Table → String → Value → MetaCache → S → MetaCache × S
  publish t key v c s =
      let (r, s1) = redis.redis_set t key v s in
      let (q, s2) = redis.redis_invalid t key s1 in
      let noted = note_failure t key q (note_failure t key r c) in
      (record noted { entries = set max_entries t key v noted.entries }, s2)

  -- `Get` where neither the list nor redis has the entry
  unfoldable pub fill :
      Table
      → String
      → (S → Outcome Value × S)
      → Bool
      → MetaCache
      → S
      → Outcome Value × MetaCache × S
  fill t key on_cache_miss will_need c s =
      let (r, s1) = on_cache_miss s in
      elim r [
        | ok v ↦
            let (c', s2) = if will_need then publish t key v c s1 else (c, s1) in
            (ok v, record c' { miss = c'.miss + 1 }, s2)
        | err e ↦ (err e, c, s1)
        | panicked ↦ (panicked, c, s1)
      ]

  -- `enabledMetaCache.Get`
  unfoldable pub get :
      Table
      → String
      → (S → Outcome Value × S)
      → Bool
      → MetaCache
      → S
      → Outcome Value × MetaCache × S
  get t key on_cache_miss will_need c s = elim (find t key c.entries) [
    | some v ↦
        (ok v, record c { entries = entry t key v ∷ remove t key c.entries; hit = c.hit + 1 }, s)
    | none ↦
        let (r, s1) = redis.redis_get t key s in
        elim (present r) [
          | some v ↦
              let es = if will_need then set max_entries t key v c.entries else c.entries in
              (ok v, record c { entries = es; hit = c.hit + 1 }, s1)
          | none ↦ fill t key on_cache_miss will_need c s1
        ]
  ]

  -- `enabledMetaCache.Remove`
  unfoldable pub remove_entry : Table → String → MetaCache → S → MetaCache × S
  remove_entry t key c s =
      let (r, s1) = redis.redis_remove t key s in
      let (q, s2) = redis.redis_invalid t key s1 in
      let noted = note_failure t key q (note_failure t key r c) in
      (record noted { entries = remove t key noted.entries }, s2)

  -- a round of `invalidRedisCache`: what has failed is done again, and waits again if it fails
  unfoldable pub redo_first : MetaCache → S → MetaCache × S
  redo_first c s = elim c.failed [
    | [] ↦ (c, s)
    | (t, key) ∷ rest ↦
        let (r, s1) = redis.redis_remove t key s in
        if is_error r
        then (record c { failed = rest ++ (t, key) ∷ [] }, s1)
        else (let (q, s2) = redis.redis_invalid t key s1 in
            (record c { failed = if is_error q then rest ++ (t, key) ∷ [] else rest }, s2))
  ]

  -- some rounds, with nothing that fails in between
  unfoldable pub redo_failed : ℕ → MetaCache → S → MetaCache × S
  redo_failed zero c s = (c, s)
  redo_failed (suc rounds) c s = redo_failed rounds (redo_first c s).0 (redo_first c s).1

  -- `enabledSimpleMetaCache.Get`: there is no list, and an error of `redis.Set` is dropped
  unfoldable pub get_simple :
      Table → String → (S → Outcome Value × S) → Bool → ℕ × ℕ → S → Outcome Value × (ℕ × ℕ) × S
  get_simple t key on_cache_miss will_need (hit, miss) s =
      let (r, s1) = redis.redis_get t key s in
      elim (present r) [
        | some v ↦ (ok v, (hit + 1, miss), s1)
        | none ↦
            let (q, s2) = on_cache_miss s1 in
            elim q [
              | ok v ↦
                  (ok v, (hit, miss + 1), if will_need then (redis.redis_set t key v s2).1 else s2)
              | err e ↦ (err e, (hit, miss), s2)
              | panicked ↦ (panicked, (hit, miss), s2)
            ]
      ]

-- What `invalidLocalCache` receives: a channel and a key, or an error.
pub data Received : Type 0 where
  message : String → String → Received
  nothing : Received

-- A round of `invalidLocalCache`. `table_of` is `redis.TableFromChannelName`.
unfoldable pub invalidate_local : (String → Option Table) → Received → MetaCache → MetaCache
invalidate_local table_of nothing c = c
invalidate_local table_of (message channel key) c = elim (table_of channel) [
  | none ↦ c
  | some t ↦ record c { entries = remove t key c.entries }
]

-- `disabledMetaCache.Get`
unfoldable pub get_disabled : {S : Type 0} → (S → Outcome Value × S) → S → Outcome Value × S
get_disabled on_cache_miss s = on_cache_miss s
