-- ===== src/Versions/Rows.antt =====
-- `DeleteObject` and `checkOldObject` and the objects table, on a bucket without versions.
use yig.Prelude.{
  ◌≡◌, refl, sym, ◌∙◌, arith, String, true, false, List, [], ◌∷◌, All, if◌then◌else◌, str_eq, ℕ,
  subst, ap, Bool-cases, not, ◌&&◌, concat, inl, inr,
}
use yig.Types.{Object, Credential, Bucket}
use yig.Storage.{
  Outcome, ok, err, panicked, World, Action, Backend, no_such_key, Error, ◌>>◌, ◌>>=◌, call, pure,
  raise, panic, object_table, raise_if, bucket_access_forbidden,
}
use yig.Access.{may_delete}
use yig.Storage.Steps.{>>=-ok}
use yig.Storage.Rows.{Rows}
use yig.Meta.{get_bucket, object_key}
use yig.Prelude.Int.{pos, ◌-ℤ◌}
use yig.Versions.{
  collect, remove_by_object, remove_each, remove_all_objects_entry_by_name, drop_objects,
  check_old_object, is_no_such_key,
}
use yig.Versions.Delete.{delete_by_versioning, forget_entries, delete_object, DeleteObjectResult}

known_error : (e : Error) → is_no_such_key e ≡ true → e ≡ no_such_key
known_error no_such_key h = refl
known_error c h = absurd (ground arith)

module _ {S : Type 0} (b : Backend S) (t : Rows b) where
  collect_apart :
      (o : Object) (bucket name : String) (w v : World S)
      → collect b o w ≡ (ok tt, v)
      → t.rows v.store bucket name ≡ t.rows w.store bucket name
  unfolding collect
  collect_apart o bucket name w v h =
      let s = (b.client_put_to_garbage o w.store).1 in
      let n = pos 0 -ℤ pos o.size in
      ground
        (arith, t.garbage_apart o w.store bucket name, t.usage_apart o.bucket_name n s bucket name)

  remove_by_object-rows :
      (o : Object) (others : List Object) (w v : World S)
      → remove_by_object b o w ≡ (ok tt, v)
      → t.rows w.store o.bucket_name o.name ≡ o ∷ others
      → t.rows v.store o.bucket_name o.name ≡ others
  unfolding remove_by_object
  remove_by_object-rows o others w v h e =
      let (a, u, first, last) = >>=-ok (call (b.client_delete_object o)) (λ _. collect b o) h in
      let apart = collect_apart o o.bucket_name o.name u v last in
      let gone = t.delete_removes o others w.store (ap (λ x. x.0) first) e in
      apart ∙ ap (λ x. t.rows x.1.store o.bucket_name o.name) (sym first) ∙ gone

  remove_each-rows :
      (os : List Object) (bucket name : String) (w v : World S)
      → remove_each b os w ≡ (ok tt, v)
      → t.rows w.store bucket name ≡ os
      → t.rows v.store bucket name ≡ []
  unfolding remove_each
  remove_each-rows [] bucket name w v h e = ap (λ x. t.rows x.1.store bucket name) (sym h) ∙ e
  remove_each-rows (o ∷ os) bucket name w v h e =
      let (a, u, first, last) = >>=-ok (remove_by_object b o) (λ _. remove_each b os) h in
      let (of_bucket, of_name) =
        (subst (All (λ o. (o.bucket_name ≡ bucket) × (o.name ≡ name))) e
          (t.named w.store bucket name)).0 in
      let here : t.rows w.store o.bucket_name o.name ≡ o ∷ os =
        subst (λ n. t.rows w.store n o.name ≡ o ∷ os) (sym of_bucket)
          (subst (λ n. t.rows w.store bucket n ≡ o ∷ os) (sym of_name) e) in
      let left : t.rows u.store o.bucket_name o.name ≡ os =
        remove_by_object-rows o os w u first here in
      remove_each-rows os bucket name u v last (
        subst (λ n. t.rows u.store n name ≡ os) of_bucket
          (subst (λ n. t.rows u.store o.bucket_name n ≡ os) of_name left))

  -- the end of `removeAllObjectsEntryByName`, on what the client has listed
  after_listing :
      (bucket name : String) (w v : World S) (x : Outcome (List Object))
      → (b.client_get_all_object bucket name w.store).0 ≡ x
      → ((elim x as (λ _. Action S (Unit {0})) [
        | ok os ↦ remove_each b os
        | err e ↦ if is_no_such_key e then pure tt else raise e
        | panicked ↦ panic
      ])
          (record w { store = (b.client_get_all_object bucket name w.store).1 }))
        ≡ (ok tt, v)
      → t.rows v.store bucket name ≡ []
  after_listing bucket name w v (ok os) e h =
      remove_each-rows os bucket name
        (record w { store = (b.client_get_all_object bucket name w.store).1 }) v h
        (t.lists bucket name w.store os e)
  after_listing bucket name w v (err c) e h = elim (Bool-cases (is_no_such_key c)) [
    | inl missing ↦ ground (
      arith,
      missing,
      h,
      known_error c missing,
      t.lists_none bucket name w.store (e ∙ ap err (known_error c missing)),
    )
    | inr other ↦ absurd (ground (arith, other, h))
  ]
  after_listing bucket name w v panicked e h = absurd (ground arith)

  pub remove_all_objects_entry_by_name-rows :
      (bucket name : String) (w v : World S)
      → remove_all_objects_entry_by_name b bucket name w ≡ (ok tt, v)
      → t.rows v.store bucket name ≡ []
  unfolding remove_all_objects_entry_by_name
  remove_all_objects_entry_by_name-rows bucket name w v h =
      listed ((b.client_get_all_object bucket name w.store).0) refl
    where
      listed :
          (x : Outcome (List Object))
          → (b.client_get_all_object bucket name w.store).0 ≡ x
          → t.rows v.store bucket name ≡ []
      listed x e = after_listing bucket name w v x e (ground (arith, e, h))

  pub check_old_object-rows :
      (bucket name versioning : String) (w v : World S) {n : ℕ}
      → str_eq versioning "Disabled" ≡ true
      → check_old_object b bucket name versioning w ≡ (ok n, v)
      → (t.rows v.store bucket name ≡ []) × (n ≡ 0)
  unfolding check_old_object drop_objects
  check_old_object-rows bucket name versioning w v {n} disabled h =
      let dropped : (remove_all_objects_entry_by_name b bucket name >> pure 0) w ≡ (ok n, v) =
        ground (arith, disabled, h) in
      let (a, u, first, last) =
        >>=-ok (remove_all_objects_entry_by_name b bucket name) (λ _. pure 0) dropped in
      (
        ap (λ x. t.rows x.1.store bucket name) (sym last)
            ∙ remove_all_objects_entry_by_name-rows bucket name w u first,
        ground (arith, last),
      )

  delete_by_versioning-rows :
      (bucket : Bucket) (bucket_name name version : String) (w v : World S) {r : DeleteObjectResult}
      → str_eq bucket.versioning "Disabled" ≡ true
      → delete_by_versioning b bucket bucket_name name version w ≡ (ok r, v)
      → t.rows v.store bucket_name name ≡ []
  unfolding delete_by_versioning
  delete_by_versioning-rows bucket bucket_name name version w v {r} disabled h =
      elim (Bool-cases (not (str_eq version "") && not (str_eq version "null"))) [
        | inl refused ↦ absurd (ground (arith, disabled, refused, h))
        | inr taken ↦
            let answer : DeleteObjectResult = record { delete_marker = false; version_id = "" } in
            let removed : (remove_all_objects_entry_by_name b bucket_name name >> pure answer) w
                ≡ (ok r, v) =
              ground (arith, disabled, taken, h) in
            let (a, u, first, last) =
              >>=-ok (remove_all_objects_entry_by_name b bucket_name name) (λ _. pure answer)
                removed in
            ap (λ x. t.rows x.1.store bucket_name name) (sym last)
            ∙ remove_all_objects_entry_by_name-rows bucket_name name w u first
      ]

  forget_entries-rows :
      (bucket name version : String) (w : World S)
      → t.rows (forget_entries b bucket name version w).1.store bucket name
        ≡ t.rows w.store bucket name
  unfolding forget_entries
  forget_entries-rows bucket name version w =
      let key = object_key bucket name in
      let versioned = concat key version in
      let s1 = b.cache_remove object_table key w.store in
      let s2 = b.data_cache_remove key s1 in
      let s3 = b.data_cache_remove (concat key "null") s2 in
      let s4 = b.cache_remove object_table versioned s3 in
      ground (
        arith,
        t.cache_apart object_table key w.store bucket name,
        t.data_cache_apart key s1 bucket name,
        t.data_cache_apart (concat key "null") s2 bucket name,
        t.cache_apart object_table versioned s3 bucket name,
        t.data_cache_apart versioned s4 bucket name,
      )

  -- If `DeleteObject` succeeds on a bucket without versions, no row of the object is left.
  -- The database inserts, deletes and lists rows as `Rows` says, and the other tables, the caches and
  -- the clock are apart from them.
  pub delete_object-rows :
      (bucket_name name version : String) (c : Credential) (bucket : Bucket) (w u v : World S)
      (r : DeleteObjectResult)
      → get_bucket b bucket_name true w ≡ (ok bucket, u)
      → str_eq bucket.versioning "Disabled" ≡ true
      → delete_object b bucket_name name version c w ≡ (ok r, v)
      → t.rows v.store bucket_name name ≡ []
  unfolding delete_object
  delete_object-rows bucket_name name version c bucket w u v r found disabled h =
      let forget : DeleteObjectResult → Action S DeleteObjectResult =
        λ result. forget_entries b bucket_name name version >> pure result in
      let by_bucket : Bucket → Action S DeleteObjectResult = λ x.
        raise_if (not (may_delete x c)) bucket_access_forbidden
        >> (delete_by_versioning b x bucket_name name version >>= forget) in
      let begun : by_bucket bucket u ≡ (ok r, v) =
        subst (λ x. ((λ _. x) >>= by_bucket) w ≡ (ok r, v)) found h in
      let (_, u1, e1, h1) =
        >>=-ok (raise_if (not (may_delete bucket c)) bucket_access_forbidden)
          (λ _. delete_by_versioning b bucket bucket_name name version >>= forget) begun in
      let (result, u2, e2, h2) =
        >>=-ok (delete_by_versioning b bucket bucket_name name version) forget h1 in
      let (_, u3, e3, h3) =
        >>=-ok (forget_entries b bucket_name name version) (λ _. pure result) h2 in
      ap (λ x. t.rows x.1.store bucket_name name) (sym h3)
      ∙ ap (λ x. t.rows x.1.store bucket_name name) (sym e3)
      ∙ forget_entries-rows bucket_name name version u2
      ∙ delete_by_versioning-rows bucket bucket_name name version u1 u2 disabled e2
