-- ===== src/Ceph/Write/Works.antt =====
-- A pool that works: what each part of `CephStorage.Put` does to it (storage/ceph.go).
use yig.Prelude.{
  ℕ, ◌+◌, ◌≤◌, ◌<◌, ◌≡◌, refl, String, Bool, true, false, List, [], ◌∷◌, ◌++◌, some, arith, length,
  Bool-cases, inl, inr, ◌⊎◌, ltb, leb, ltb→lt, not_ltb→le, length-append, ap, sym, ◌∙◌, subst,
  append-nil, Option,
}
use yig.Prelude.Int.{ℤ, pos}
use yig.Types.{Bytes}
use yig.Ceph.{Ended, more, eof}
use yig.Ceph.Write.{
  Rados, PutResult, stored, Progress, goes_on, drain_from, drain_pending, reap_completed, make_room,
  settle, flush, take_in, write_rest, end_put, aio_concurrent, is_negative,
}

-- What is relied on of a pool that works: a write at the end of an object is taken and extends it,
-- and no wait fails. `content` is what the pool holds for the object.
pub record Works {P C : Type 0} (rados : Rados P C) (oid : String) (content : P → Bytes)
    : Type 0 where
  pub extends :
      (bs : Bytes) (p : P)
      → content (rados.write_aio oid bs (length (content p)) p).1 ≡ content p ++ bs
  pub takes : (bs : Bytes) (p : P) → (rados.write_aio oid bs (length (content p)) p).0.0 ≡ true
  pub asked : (c : C) (p : P) → content (rados.is_complete c p).1 ≡ content p
  pub waited : (c : C) (p : P) → content (rados.wait_for c p).1 ≡ content p
  pub succeeds : (c : C) (p : P) → is_negative (rados.wait_for c p).0 ≡ false

-- Everything is stored, and the size that is returned is that of the object.
abbrev pub Stores : {P : Type 0} → (P → Bytes) → Bytes → PutResult × P → Type 0
Stores content bs r = (r.0 ≡ stored (length bs)) × (content r.1 ≡ bs)

no_bytes : (bs : Bytes) → length bs ≤ 0 → bs ≡ []
no_bytes [] h = refl
no_bytes (b ∷ bs) h = absurd (omega arith)

negative_zero : is_negative (pos 0) ≡ false
unfolding is_negative
negative_zero = refl

module _ {P C : Type 0} (rados : Rados P C) (oid : String) (content : P → Bytes)
    (works : Works rados oid content) where
  drain_from-content :
      (ret : ℤ) (cs : List C) (p : P) → content (drain_from rados ret cs p).1 ≡ content p
  unfolding drain_from
  drain_from-content ret [] p = refl
  drain_from-content ret (c ∷ cs) p =
      drain_from-content (rados.wait_for c p).0 cs (rados.wait_for c p).1 ∙ works.waited c p

  drain_from-succeeds :
      (ret : ℤ) (cs : List C) (p : P)
      → is_negative ret ≡ false
      → is_negative (drain_from rados ret cs p).0 ≡ false
  unfolding drain_from
  drain_from-succeeds ret [] p h = h
  drain_from-succeeds ret (c ∷ cs) p h =
      drain_from-succeeds (rados.wait_for c p).0 cs (rados.wait_for c p).1 (works.succeeds c p)

  -- A wait over the list leaves a list, and the content as it was.
  abbrev Waits : P → Option (List C) × P → Type 0
  Waits p r = ((cs : List C) × (r.0 ≡ some cs)) × (content r.1 ≡ content p)

  reap_completed-Waits : (cs : List C) (p : P) → Waits p (reap_completed rados cs p)
  unfolding reap_completed
  reap_completed-Waits [] p = (([], refl), refl)
  reap_completed-Waits (c ∷ cs) p =
      let p' = (rados.is_complete c p).1 in
      elim (Bool-cases (rados.is_complete c p).0) [
        | inl done ↦
            let rest = reap_completed-Waits cs (rados.wait_for c p').1 in
            rw (done, works.succeeds c p') (rest.0, rest.1 ∙ works.waited c p' ∙ works.asked c p)
        | inr busy ↦ rw busy ((c ∷ cs, refl), works.asked c p)
      ]

  make_room-Waits : (cs : List C) (p : P) → Waits p (make_room rados cs p)
  unfolding make_room
  make_room-Waits [] p = (([], refl), refl)
  make_room-Waits (c ∷ cs) p = elim (Bool-cases (leb (length (c ∷ cs)) aio_concurrent)) [
    | inl few ↦ rw few ((c ∷ cs, refl), refl)
    | inr many ↦ rw (many, works.succeeds c p) ((cs, refl), works.waited c p)
  ]

  module _ {R : Type 0} where
    -- The buffer is empty again, and its bytes are in the pool.
    abbrev pub Flushes : Progress P C R → Progress P C R → Type 0
    Flushes st st' =
        (st'.filled ≡ [])
        × (st'.offset ≡ length (content st'.pool))
        × (content st'.pool ≡ content st.pool ++ st.filled)
        × (st'.reader ≡ st.reader)

    settle-Flushes :
        (st : Progress P C R) (cs : List C) (p : P)
        → content p ≡ content st.pool ++ st.filled
        → st.offset ≡ length (content st.pool)
        → (st' : Progress P C R) × (settle rados st (some cs, p) ≡ goes_on st') × Flushes st st'
    unfolding settle
    settle-Flushes st cs p c a =
        let ((left, e), same) = make_room-Waits cs p in
        let p' : P = (make_room rados cs p).1 in
        let st' : Progress P C R = record st {
          filled = [];
          offset = st.offset + length st.filled;
          pending = left;
          pool = p';
        } in
        let all : content p' ≡ content st.pool ++ st.filled = same ∙ c in
        (st', rw (e, settle) refl, (refl, rw (all, length-append, a) refl, all, refl))

    flush-Flushes :
        (st : Progress P C R)
        → st.offset ≡ length (content st.pool)
        → (st' : Progress P C R) × (flush rados oid st ≡ goes_on st') × Flushes st st'
    unfolding flush
    flush-Flushes st a =
        let w : (Bool × C) × P = rados.write_aio oid st.filled st.offset st.pool in
        let taken : w.0.0 ≡ true = rw a (works.takes st.filled st.pool) in
        let wrote : content w.1 ≡ content st.pool ++ st.filled =
          rw a (works.extends st.filled st.pool) in
        let pending : List C = st.pending ++ w.0.1 ∷ [] in
        let ((cs, e), same) = reap_completed-Waits pending w.1 in
        let p : P = (reap_completed rados pending w.1).1 in
        let done = settle-Flushes st cs p (same ∙ wrote) a in
        rw taken (
          subst
            (λ o. (st' : Progress P C R) × (settle rados st (o, p) ≡ goes_on st') × Flushes st st')
            (sym e) done)

    -- All that is still to be stored: the pool's bytes, the buffer's and the reader's.
    abbrev pub all_of : (R → Bytes) → Progress P C R → Bytes
    all_of left st = content st.pool ++ (st.filled ++ left st.reader)

    pub take_in-goes_on :
        (window : ℕ) (st : Progress P C R) (end : Ended)
        → 0 < window
        → (end ≡ more) ⊎ (end ≡ eof)
        → st.offset ≡ length (content st.pool)
        → (st' : Progress P C R) × (take_in rados window oid st end ≡ goes_on st')
          × (st'.offset ≡ length (content st'.pool))
          × (length st'.filled < window)
          × (content st'.pool ++ st'.filled ≡ content st.pool ++ st.filled)
          × (st'.reader ≡ st.reader)
    unfolding take_in
    take_in-goes_on window st end room fine a =
        let flushed = flush-Flushes st a in
        let full = flushed.2 in
        elim (Bool-cases (ltb (length st.filled) window)) [
          | inl small ↦ elim fine [
            | inl e ↦ (st, rw (e, small) refl, a, ltb→lt _ _ small, refl, refl)
            | inr e ↦ (st, rw (e, small) refl, a, ltb→lt _ _ small, refl, refl)
          ]
          | inr big ↦
              let rest : (flushed.0.offset ≡ length (content flushed.0.pool))
                  × (length flushed.0.filled < window)
                  × (content flushed.0.pool ++ flushed.0.filled ≡ content st.pool ++ st.filled)
                  × (flushed.0.reader ≡ st.reader) =
                (full.1, rw full.0 room, rw full.0 (append-nil _ ∙ full.2), full.3) in
              elim fine [
                | inl e ↦ (flushed.0, rw (e, big) flushed.1, rest.0, rest.1, rest.2, rest.3)
                | inr e ↦ (flushed.0, rw (e, big) flushed.1, rest.0, rest.1, rest.2, rest.3)
              ]
        ]

    write_rest-content :
        (st : Progress P C R)
        → st.offset ≡ length (content st.pool)
        → content (write_rest rados oid st).1 ≡ content st.pool ++ st.filled
    unfolding write_rest
    write_rest-content st a = elim (Bool-cases (ltb 0 (length st.filled))) [
      | inl some_left ↦ rw (some_left, a) (works.extends st.filled st.pool)
      | inr none_left ↦
          rw (none_left, no_bytes st.filled (not_ltb→le _ _ none_left)) (sym (append-nil _))
    ]

    pub end_put-Stores :
        (st : Progress P C R)
        → st.offset ≡ length (content st.pool)
        → Stores content (content st.pool ++ st.filled) (end_put rados oid st)
    unfolding end_put drain_pending
    end_put-Stores st a =
        let w : List C × P = write_rest rados oid st in
        rw (drain_from-succeeds (pos 0) w.0 w.1 (negative_zero)) (
          ap stored (omega (arith, length-append (content st.pool) st.filled, a)),
          drain_from-content (pos 0) w.0 w.1 ∙ write_rest-content st a,
        )
