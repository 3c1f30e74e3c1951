-- ===== src/Ceph/Write/Pending.antt =====
-- The list of pending writes of `CephStorage.Put` (storage/ceph.go): how long it gets, and what is
-- forgotten of it.
use yig.Prelude.{
  ℕ, suc, ◌+◌, ◌-◌, ◌≤◌, ◌≡◌, refl, String, Bool, false, List, [], ◌∷◌, ◌++◌, none, some, arith,
  length, Bool-cases, inl, inr, ltb, length-append, Option, subst, ◌<◌, lt→ltb, ap,
}
use yig.Prelude.Int.{ℤ, pos}
use yig.Types.{Bytes}
use yig.Ceph.{Ended, more, eof, failed}
use yig.Ceph.Write.Works.{Works, Stores, end_put-Stores}
use yig.Ceph.Write.{
  Rados, Read, Progress, Round, goes_on, at_end, gave_up, reap_completed, make_room, settle, flush,
  take_in, put_round, aio_concurrent, error_wait_pending_front, drain_from, end_put, put_loop,
  write_rest, drain_pending, is_negative, stored,
}

-- No more than four writes are pending.
abbrev pub IsBounded : {P C R : Type 0} → Progress P C R → Type 0
IsBounded st = length st.pending ≤ aio_concurrent

module _ {P C : Type 0} (rados : Rados P C) where
  length-reap_completed :
      (cs : List C) (p : P) (left : List C)
      → (reap_completed rados cs p).0 ≡ some left
      → length left ≤ length cs
  unfolding reap_completed
  length-reap_completed [] p left e = ground arith
  length-reap_completed (c ∷ cs) p left e =
      ground (arith, length-reap_completed cs (rados.wait_for c (rados.is_complete c p).1).1 left)

  length-make_room :
      (cs : List C) (p : P) (left : List C)
      → length cs ≤ suc aio_concurrent
      → (make_room rados cs p).0 ≡ some left
      → length left ≤ aio_concurrent
  unfolding make_room
  length-make_room [] p left h e = ground arith
  length-make_room (c ∷ cs) p left h e = ground arith

module _ {P C R : Type 0} (rados : Rados P C) where
  abbrev AllBounded : Round P C R → Type 0
  AllBounded (gave_up e p) = Unit {0}
  AllBounded (goes_on st) = IsBounded st
  AllBounded (at_end st) = IsBounded st

  settle-AllBounded :
      (st : Progress P C R) (r : Option (List C) × P)
      → ((cs : List C) → r.0 ≡ some cs → length cs ≤ suc aio_concurrent)
      → AllBounded (settle rados st r)
  unfolding settle
  settle-AllBounded st (none, p) h = tt
  settle-AllBounded st (some cs, p) h =
      by_left (make_room rados cs p).0 (λ left e. length-make_room rados cs p left (h cs refl) e)
    where
      by_left :
          (o : Option (List C))
          → ((left : List C) → o ≡ some left → length left ≤ aio_concurrent)
          → AllBounded (elim o [
            | none ↦ gave_up error_wait_pending_front (make_room rados cs p).1
            | some left ↦ goes_on (record st {
              filled = [];
              offset = st.offset + length st.filled;
              pending = left;
              pool = (make_room rados cs p).1;
            })
          ])
      by_left none k = tt
      by_left (some left) k = k left refl

  flush-AllBounded :
      (oid : String) (st : Progress P C R) → IsBounded st → AllBounded (flush rados oid st)
  unfolding flush
  flush-AllBounded oid st h =
      let w : (Bool × C) × P = rados.write_aio oid st.filled st.offset st.pool in
      elim (Bool-cases w.0.0) [
        | inl taken ↦ rw taken (
            settle-AllBounded st (reap_completed rados (st.pending ++ w.0.1 ∷ []) w.1) (λ cs e.
              omega (
                arith,
                length-reap_completed rados (st.pending ++ w.0.1 ∷ []) w.1 cs e,
                length-append st.pending (w.0.1 ∷ []),
              )))
        | inr refused ↦ rw refused tt
      ]

  take_in-AllBounded :
      (window : ℕ) (oid : String) (st : Progress P C R) (end : Ended)
      → IsBounded st
      → AllBounded (take_in rados window oid st end)
  unfolding take_in
  take_in-AllBounded window oid st (failed e) h = tt
  take_in-AllBounded window oid st more h = elim (Bool-cases (ltb (length st.filled) window)) [
    | inl small ↦ rw small h
    | inr big ↦ rw big (flush-AllBounded oid st h)
  ]
  take_in-AllBounded window oid st eof h = elim (Bool-cases (ltb (length st.filled) window)) [
    | inl small ↦ rw small h
    | inr big ↦ rw big (flush-AllBounded oid st h)
  ]

  put_round-AllBounded :
      (window : ℕ) (oid : String) (read : Read R) (st : Progress P C R)
      → IsBounded st
      → AllBounded (put_round rados window oid read st)
  unfolding put_round
  put_round-AllBounded window oid read st h =
      by_bytes (read (window - length st.filled) st.reader).0.0
    where
      by_bytes :
          (bs : Bytes)
          → AllBounded (elim bs [
            | [] ↦ at_end (record st { reader = (read (window - length st.filled) st.reader).1 })
            | b ∷ rest ↦
                take_in rados window oid
                  (record st {
                    filled = st.filled ++ b ∷ rest;
                    reader = (read (window - length st.filled) st.reader).1;
                  })
                  (read (window - length st.filled) st.reader).0.1
          ])
      by_bytes [] = h
      by_bytes (b ∷ rest) =
          take_in-AllBounded window oid
            (record st {
              filled = st.filled ++ b ∷ rest;
              reader = (read (window - length st.filled) st.reader).1;
            })
            (read (window - length st.filled) st.reader).0.1 h

-- The states that the loop of a `Put` gets to, with the body and the pool left open.
pub data Reaches {P C R : Type 0} (rados : Rados P C) (window : ℕ) (oid : String) (read : Read R)
    (start : Progress P C R) : Progress P C R → Type 0 where
  here : Reaches rados window oid read start start
  round :
      {st st' : Progress P C R}
      → Reaches rados window oid read start st
      → put_round rados window oid read st ≡ goes_on st'
      → Reaches rados window oid read start st'

module _ {P C R : Type 0} (rados : Rados P C) where
  -- From a start with no pending write, no state of the loop has more than four pending writes.
  pub Reaches-IsBounded :
      (window : ℕ) (oid : String) (read : Read R) (start st : Progress P C R)
      → start.pending ≡ []
      → Reaches rados window oid read start st
      → IsBounded st
  Reaches-IsBounded window oid read start st e here = rw e (omega arith)
  Reaches-IsBounded window oid read start st e (round {st = before} r step) =
      subst (AllBounded rados) step (
        put_round-AllBounded rados window oid read before
          (Reaches-IsBounded window oid read start before e r))

module _ {P C : Type 0} (rados : Rados P C) where
  drain_from-append :
      (ret : ℤ) (cs : List C) (c : C) (p : P)
      → drain_from rados ret (cs ++ c ∷ []) p ≡ rados.wait_for c (drain_from rados ret cs p).1
  unfolding drain_from
  drain_from-append ret [] c p = refl
  drain_from-append ret (d ∷ cs) c p =
      drain_from-append (rados.wait_for d p).0 cs c (rados.wait_for d p).1

  -- The last write of a body: the completion, and the pool behind it.
  abbrev pub last_write : {R : Type 0} → String → Progress P C R → (Bool × C) × P
  last_write oid st = rados.write_aio oid st.filled st.offset st.pool

  -- Where bytes are left in the buffer, the wait for the last write alone decides: if it does not
  -- fail, the whole size is returned, whatever the waits for the other writes gave.
  pub end_put-last :
      {R : Type 0} (oid : String) (st : Progress P C R)
      → 0 < length st.filled
      → is_negative
          (rados.wait_for
            (last_write oid st).0.1
            (drain_pending rados st.pending (last_write oid st).1).1).0
        ≡ false
      → (end_put rados oid st).0 ≡ stored (length st.filled + st.offset)
  unfolding end_put write_rest drain_pending
  end_put-last oid st some_left fine =
      let w : (Bool × C) × P = last_write oid st in
      rw (lt→ltb _ _ some_left, drain_from-append (pos 0) st.pending w.0.1 w.1, fine)

-- A read that fails and gives no byte ends the loop as the end of the body does: a pool that works
-- has stored what came before, and its size is returned.
pub put_loop-cut_short :
    {P C R : Type 0} (rados : Rados P C) (oid : String) (content : P → Bytes)
    → Works rados oid content
    → (rounds window e : ℕ) (read : Read R) (st : Progress P C R)
    → st.offset ≡ length (content st.pool)
    → (read (window - length st.filled) st.reader).0 ≡ ([], failed e)
    → Stores content (content st.pool ++ st.filled) (put_loop rados (suc rounds) window oid read st)
unfolding put_loop put_round
put_loop-cut_short rados oid content works rounds window e read st a broken =
    rw (ap (λ r. r.0) broken, put_loop, put_round)
      (end_put-Stores rados oid content works
        (record st { reader = (read (window - length st.filled) st.reader).1 }) a)
