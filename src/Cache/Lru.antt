-- ===== src/Cache/Lru.antt =====
-- The list of the metadata cache: distinct keys, bound, look-up.
use yig.Prelude.{
  ℕ, suc, ◌+◌, ◌≡◌, ◌≤◌, ◌<◌, inl, inr, refl, ap, arith, String, true, false, List, [], ◌∷◌, none,
  some, length, ltb, Option-cases, Bool-cases, eq_refl, eq_iff, ◌&&◌,
}
use yig.Storage.{Table, Value, user_table, bucket_table, object_table}
use yig.Cache.{Entry, find, remove, remove_oldest, set, entry, same_key, table_eq}

-- Every key stands once.
abbrev pub IsUnique : List Entry → Type 0
IsUnique [] = Unit
IsUnique (e ∷ es) = (find e.table e.key es ≡ none) × IsUnique es

pub same_key_refl : (e : Entry) → same_key e.table e.key e ≡ true
same_key_refl e = rw (eq_refl e.key) (by_table e.table)
  where
    by_table : (t : Table) → (table_eq t t && true) ≡ true
    by_table user_table = refl
    by_table bucket_table = refl
    by_table object_table = refl

length-remove : (t : Table) (key : String) (es : List Entry) → length (remove t key es) ≤ length es
unfolding remove
length-remove t key [] = omega arith
length-remove t key (e ∷ es) = ground (arith, length-remove t key es)

length-remove_found :
    (t : Table) (key : String) (es : List Entry) {v : Value}
    → find t key es ≡ some v
    → length (remove t key es) + 1 ≡ length es
unfolding remove find
length-remove_found t key [] {v} h = absurd (ground arith)
length-remove_found t key (e ∷ es) {v} h = elim (Bool-cases (same_key t key e)) [
  | inl s ↦ ground (arith, s)
  | inr n ↦ ground (arith, n, length-remove_found t key es {v = v} (ground (arith, n, h)))
]

length-remove_oldest : (e : Entry) (es : List Entry) → length (remove_oldest (e ∷ es)) ≡ length es
unfolding remove_oldest
length-remove_oldest e [] = refl
length-remove_oldest e (f ∷ fs) = ap suc (length-remove_oldest f fs)

-- The list never grows beyond its bound.
length-set :
    (bound : ℕ) (t : Table) (key : String) (v : Value) (es : List Entry)
    → length es ≤ bound
    → length (set bound t key v es) ≤ bound
unfolding set
length-set bound t key v es h = elim (Option-cases (find t key es)) [
  | inl n ↦ ground (arith, n, h, length-remove_oldest (entry t key v) es)
  | inr (x, s) ↦ ground (arith, s, h, length-remove_found t key es s)
]

pub find-set :
    (bound : ℕ) (t : Table) (key : String) (v : Value) (es : List Entry)
    → 0 < bound
    → find t key (set bound t key v es) ≡ some v
unfolding set find remove_oldest
find-set bound t key v [] h = ground (arith, same_key_refl (entry t key v))
find-set bound t key v (e ∷ es) h = ground (arith, same_key_refl (entry t key v))

same_key-eq :
    (t : Table) (key : String) (e : Entry) → same_key t key e ≡ true → (t ≡ e.table) × (key ≡ e.key)
same_key-eq t key e h =
    (by_table t e.table (ground (arith, h)), (eq_iff key e.key).0 (ground (arith, h)))
  where
    by_table : (x y : Table) → table_eq x y ≡ true → x ≡ y
    by_table user_table user_table g = refl
    by_table bucket_table bucket_table g = refl
    by_table object_table object_table g = refl
    by_table user_table bucket_table g = absurd (ground arith)
    by_table user_table object_table g = absurd (ground arith)
    by_table bucket_table user_table g = absurd (ground arith)
    by_table bucket_table object_table g = absurd (ground arith)
    by_table object_table user_table g = absurd (ground arith)
    by_table object_table bucket_table g = absurd (ground arith)

find-same :
    (t : Table) (key : String) (e : Entry) (es : List Entry)
    → same_key t key e ≡ true
    → find t key es ≡ find e.table e.key es
find-same t key e es h =
    let (of_table, of_key) = same_key-eq t key e h in rw (of_table, of_key) refl

pub find-remove :
    (t : Table) (key : String) (es : List Entry) → IsUnique es → find t key (remove t key es) ≡ none
unfolding remove find
find-remove t key [] u = refl
find-remove t key (e ∷ es) u = elim (Bool-cases (same_key t key e)) [
  | inl s ↦ ground (arith, s, find-same t key e es s, u.0)
  | inr n ↦ ground (arith, n, find-remove t key es u.1)
]

find-remove-none :
    (t u : Table) (key name : String) (es : List Entry)
    → find u name es ≡ none
    → find u name (remove t key es) ≡ none
unfolding remove find
find-remove-none t u key name [] h = refl
find-remove-none t u key name (e ∷ es) h = elim (Bool-cases (same_key u name e)) [
  | inl s ↦ absurd (ground (arith, s, h))
  | inr n ↦ ground (arith, n, h, find-remove-none t u key name es (ground (arith, n, h)))
]

remove-IsUnique :
    (t : Table) (key : String) (es : List Entry) → IsUnique es → IsUnique (remove t key es)
unfolding remove
remove-IsUnique t key [] u = tt
remove-IsUnique t key (e ∷ es) u = elim (Bool-cases (same_key t key e)) [
  | inl s ↦ rw s u.1
  | inr n ↦ rw n (find-remove-none t e.table key e.key es u.0, remove-IsUnique t key es u.1)
]

find-remove_oldest-none :
    (u : Table) (name : String) (e : Entry) (es : List Entry)
    → find u name (e ∷ es) ≡ none
    → find u name (remove_oldest (e ∷ es)) ≡ none
unfolding remove_oldest find
find-remove_oldest-none u name e [] h = refl
find-remove_oldest-none u name e (f ∷ fs) h = elim (Bool-cases (same_key u name e)) [
  | inl s ↦ absurd (ground (arith, s, h))
  | inr n ↦ ground (arith, n, h, find-remove_oldest-none u name f fs (ground (arith, n, h)))
]

oldest-IsUnique : (es : List Entry) → IsUnique es → IsUnique (remove_oldest es)
unfolding remove_oldest
oldest-IsUnique [] u = tt
oldest-IsUnique (e ∷ []) u = tt
oldest-IsUnique (e ∷ f ∷ fs) u =
    (find-remove_oldest-none e.table e.key f fs u.0, oldest-IsUnique (f ∷ fs) u.1)

module _ (bound : ℕ) (t : Table) (key : String) (v : Value) (es : List Entry) where
  set_found :
      {x : Value} → find t key es ≡ some x → set bound t key v es ≡ entry t key v ∷ remove t key es
  unfolding set
  set_found h = ground arith

  set_full :
      find t key es ≡ none
      → ltb bound (length es + 1) ≡ true
      → set bound t key v es ≡ remove_oldest (entry t key v ∷ es)
  unfolding set
  set_full h full = ground arith

  set_room :
      find t key es ≡ none
      → ltb bound (length es + 1) ≡ false
      → set bound t key v es ≡ entry t key v ∷ es
  unfolding set
  set_room h free = ground arith

  set-IsUnique : IsUnique es → IsUnique (set bound t key v es)
  set-IsUnique u = elim (Option-cases (find t key es)) [
    | inl n ↦ elim (Bool-cases (ltb bound (length es + 1))) [
      | inl full ↦ rw (set_full n full) (oldest-IsUnique (entry t key v ∷ es) (n, u))
      | inr free ↦ rw (set_room n free) (n, u)
    ]
    | inr (x, s) ↦ rw (set_found s) (find-remove t key es u, remove-IsUnique t key es u)
  ]

-- A list of distinct keys within its bound stays so when an entry is set or removed; an entry that
-- is set is found with its value, if there is room for one at all, and one that is removed is not
-- found.
pub set-IsUnique-find :
    (bound : ℕ) (t : Table) (key : String) (v : Value) (es : List Entry)
    → 0 < bound
    → IsUnique es
    → length es ≤ bound
    → (IsUnique (set bound t key v es))
      × (length (set bound t key v es) ≤ bound)
      × (find t key (set bound t key v es) ≡ some v)
      × (IsUnique (remove t key es))
      × (length (remove t key es) ≤ bound)
      × (find t key (remove t key es) ≡ none)
set-IsUnique-find bound t key v es room u h = (
  set-IsUnique bound t key v es u,
  length-set bound t key v es h,
  find-set bound t key v es room,
  remove-IsUnique t key es u,
  omega (arith, length-remove t key es),
  find-remove t key es u,
)
