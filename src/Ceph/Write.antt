-- ===== src/Ceph/Write.antt =====
-- `CephStorage.Put` and `Remove` (storage/ceph.go). The reader of the body and librados are
-- parameters: a read gives some bytes and how it ended; a write that librados takes gives a
-- completion, which is asked whether it is done and waited for. `P` is the state of the pool and
-- `R` that of the reader.

pub mod Works
pub mod Stored
pub mod Pending
pub mod Whole
mod Tests
use yig.Prelude.{
  ℕ, zero, suc, ◌+◌, ◌-◌, ◌*◌, String, Bool, List, [], ◌∷◌, ◌++◌, Option, none, some, length, ltb,
  leb, if◌then◌else◌,
}
use yig.Prelude.Int.{ℤ, pos, ltb_ℤ}
use yig.Types.{Bytes}
use yig.Ceph.{Ended, more, eof, failed}

abbrev pub min_chunk_size : ℕ
min_chunk_size = 512 * 1024

abbrev pub aio_concurrent : ℕ
aio_concurrent = 4

abbrev pub small_file_poolname : String
small_file_poolname = "rabbit"

-- The errors of the file, and those of librados with a number.
pub data PutError : Type 0 where
  bad_poolname bad_ioctx read_failed bad_io : PutError
  error_in_completed error_wait_pending_front error_drain_pending : PutError
  rados_error : ℕ → PutError

-- `rounds_ran_out` is no result of the code: the model has stopped.
pub data PutResult : Type 0 where
  stored : ℕ → PutResult
  put_error : PutError → PutResult
  rounds_ran_out : PutResult

-- `data.Read(slice)`, by the room in the slice
abbrev pub Read : Type 0 → Type 0
Read R = ℕ → R → (Bytes × Ended) × R

pub record Rados (P C : Type 0) : Type 0 where
  -- `c.Create()` and `striper.WriteAIO`: whether the write is taken, and its completion
  pub write_aio : String → Bytes → ℕ → P → (Bool × C) × P
  pub is_complete : C → P → Bool × P
  -- `WaitForComplete`, `GetReturnValue` and `Release`
  pub wait_for : C → P → ℤ × P

-- The variables of the loop in `Put`: the bytes of `pending_data` before `slice_offset`.
pub record Progress (P C R : Type 0) : Type 0 where
  pub filled : Bytes
  pub offset : ℕ
  pub pending : List C
  pub pool : P
  pub reader : R

unfoldable pub is_negative : ℤ → Bool
is_negative r = ltb_ℤ r (pos 0)

-- What one round of the loop comes to: an error, the next round, or the end of the body.
pub data Round (P C R : Type 0) : Type 0 where
  gave_up : PutError → P → Round P C R
  goes_on : Progress P C R → Round P C R
  at_end : Progress P C R → Round P C R

module _ {P C : Type 0} (rados : Rados P C) where
  -- `drain_pending`, with the value of `ret` so far
  unfoldable pub drain_from : ℤ → List C → P → ℤ × P
  drain_from ret [] p = (ret, p)
  drain_from ret (c ∷ cs) p = let (ret', p') = rados.wait_for c p in drain_from ret' cs p'

  unfoldable pub drain_pending : List C → P → ℤ × P
  drain_pending pending p = drain_from (pos 0) pending p

  -- `for pending_has_completed(pending) { wait_pending_front }`; `none` if a wait has failed
  unfoldable pub reap_completed : List C → P → Option (List C) × P
  reap_completed [] p = (some [], p)
  reap_completed (c ∷ cs) p =
      let (done, p') = rados.is_complete c p in
      let (ret, p'') = rados.wait_for c p' in
      let rest = reap_completed cs p'' in
      if done
      then if is_negative ret then (none, (drain_pending cs p'').1) else rest
      else (some (c ∷ cs), p')

  -- `if pending.Len() > AIO_CONCURRENT { wait_pending_front }`
  unfoldable pub make_room : List C → P → Option (List C) × P
  make_room [] p = (some [], p)
  make_room (c ∷ cs) p =
      let (ret, p') = rados.wait_for c p in
      if leb (length (c ∷ cs)) aio_concurrent
      then (some (c ∷ cs), p)
      else if is_negative ret
      then (none, (drain_pending cs p').1)
      else (some cs, p')

module _ {P C R : Type 0} (rados : Rados P C) where
  -- the waits behind a write that was taken
  unfoldable pub settle : Progress P C R → Option (List C) × P → Round P C R
  settle st (none, p) = gave_up error_in_completed p
  settle st (some pending, p) =
      let (left, p') = make_room rados pending p in
      elim left [
        | none ↦ gave_up error_wait_pending_front p'
        | some cs ↦ goes_on (record st {
          filled = [];
          offset = st.offset + length st.filled;
          pending = cs;
          pool = p';
        })
      ]

  -- the part of the body behind `pending data is full now`
  unfoldable pub flush : String → Progress P C R → Round P C R
  flush oid st =
      let ((taken, c), p) = rados.write_aio oid st.filled st.offset st.pool in
      if taken
      then settle st (reap_completed rados (st.pending ++ c ∷ []) p)
      else gave_up bad_io (drain_pending rados st.pending p).1

  -- the tests behind `data.Read`, on a buffer with room for `window` bytes
  unfoldable pub take_in : ℕ → String → Progress P C R → Ended → Round P C R
  take_in window oid st (failed e) = gave_up read_failed (drain_pending rados st.pending st.pool).1
  take_in window oid st more = if ltb (length st.filled) window then goes_on st else flush oid st
  take_in window oid st eof = if ltb (length st.filled) window then goes_on st else flush oid st

  -- One round of the loop. A read of no bytes ends it, whatever the error is.
  unfoldable pub put_round : ℕ → String → Read R → Progress P C R → Round P C R
  put_round window oid read st =
      let ((bs, end), r) = read (window - length st.filled) st.reader in
      elim bs [
        | [] ↦ at_end (record st { reader = r })
        | b ∷ rest ↦
            take_in window oid (record st { filled = st.filled ++ b ∷ rest; reader = r }) end
      ]

  -- `if slice_offset > 0`: the rest is written; that it was not taken is not looked at
  unfoldable pub write_rest : String → Progress P C R → List C × P
  write_rest oid st =
      let ((taken, c), p) = rados.write_aio oid st.filled st.offset st.pool in
      if ltb 0 (length st.filled) then (st.pending ++ c ∷ [], p) else (st.pending, st.pool)

  -- what follows the loop
  unfoldable pub end_put : String → Progress P C R → PutResult × P
  end_put oid st =
      let (pending, p) = write_rest oid st in
      let (ret, p') = drain_pending rados pending p in
      if is_negative ret
      then (put_error error_drain_pending, p')
      else (stored (length st.filled + st.offset), p')

  -- the loop, with as many rounds as it is given
  unfoldable pub put_loop : ℕ → ℕ → String → Read R → Progress P C R → PutResult × P
  put_loop zero window oid read st = (rounds_ran_out, st.pool)
  put_loop (suc rounds) window oid read st = elim (put_round window oid read st) [
    | gave_up e p ↦ (put_error e, p)
    | goes_on st' ↦ put_loop rounds window oid read st'
    | at_end st' ↦ end_put oid st'
  ]
