-- ===== src/Ceph/Write/Stored.antt =====
-- What `CephStorage.Put` leaves in a pool that works (storage/ceph.go).
use yig.Prelude.{
  ℕ, zero, suc, ◌-◌, ◌≤◌, ◌<◌, ◌≡◌, refl, String, [], ◌∷◌, ◌++◌, arith, length, take, ◌⊎◌, drop,
  length-take, length-drop, ap, sym, ◌∙◌, append_assoc, append-nil,
}
use yig.Types.{Bytes}
use yig.Ceph.{Ended, more, eof}
use yig.Ceph.Copy.{take-cons-ne-nil}
use yig.Ceph.Write.{Rados, Read, Progress, goes_on, at_end, put_round, put_loop}
use yig.Ceph.Write.Works.{Works, Stores, all_of, take_in-goes_on, end_put-Stores}

-- What is relied on of the reader: it gives the bytes that are left one after the other, at least
-- one if there is one, and without an error.
pub record Gives {R : Type 0} (read : Read R) (left : R → Bytes) : Type 0 where
  pub chunk : ℕ → R → ℕ
  pub gives : (room : ℕ) (r : R) → (read room r).0.0 ≡ take (chunk room r) (left r)
  pub leaves : (room : ℕ) (r : R) → left (read room r).1 ≡ drop (chunk room r) (left r)
  pub ends : (room : ℕ) (r : R) → ((read room r).0.1 ≡ more) ⊎ ((read room r).0.1 ≡ eof)
  pub fits : (room : ℕ) (r : R) → chunk room r ≤ room
  pub proceeds : (room : ℕ) (r : R) → 0 < room → 0 < chunk room r

take-drop : (k : ℕ) (bs : Bytes) → take k bs ++ drop k bs ≡ bs
take-drop zero bs = refl
take-drop (suc k) [] = refl
take-drop (suc k) (b ∷ bs) = ap (λ r. b ∷ r) (take-drop k bs)

all_kept :
    (content filled bs rest left content' filled' left' : Bytes)
    → content' ++ filled' ≡ content ++ (filled ++ bs)
    → left' ≡ rest
    → bs ++ rest ≡ left
    → content' ++ (filled' ++ left') ≡ content ++ (filled ++ left)
all_kept content filled bs rest left content' filled' left' kept same whole =
    sym (append_assoc content' filled' left')
    ∙ ap (λ l. l ++ left') kept
    ∙ simp (append_assoc, same, whole)

module _ {P C R : Type 0} (rados : Rados P C) (oid : String) (content : P → Bytes)
    (works : Works rados oid content) (read : Read R) (left : R → Bytes)
    (gives : Gives read left) where
  -- A round without bytes means that none were left.
  round_at_end :
      (window : ℕ) (st : Progress P C R)
      → length st.filled < window
      → (read (window - length st.filled) st.reader).0.0 ≡ []
      → (left st.reader ≡ [])
        × (put_round rados window oid read st
            ≡ at_end (record st { reader = (read (window - length st.filled) st.reader).1 }))
  unfolding put_round
  round_at_end window st small e =
      let room : ℕ = window - length st.filled in
      (
        take-cons-ne-nil (gives.chunk room st.reader) (left st.reader)
            (gives.proceeds room st.reader (omega arith)) (sym (gives.gives room st.reader) ∙ e),
        rw (e, put_round) refl,
      )

  -- A round with bytes has the same bytes to store, and fewer of them to read.
  round_goes_on :
      (window : ℕ) (st : Progress P C R) (b : ℕ) (bs : Bytes)
      → length st.filled < window
      → st.offset ≡ length (content st.pool)
      → (read (window - length st.filled) st.reader).0.0 ≡ b ∷ bs
      → (st' : Progress P C R) × (put_round rados window oid read st ≡ goes_on st')
        × (st'.offset ≡ length (content st'.pool))
        × (length st'.filled < window)
        × (all_of rados oid content works left st' ≡ all_of rados oid content works left st)
        × (length (left st'.reader) < length (left st.reader))
  unfolding put_round
  round_goes_on window st b bs small a e =
      let room : ℕ = window - length st.filled in
      let r : (Bytes × Ended) × R = read room st.reader in
      let k : ℕ = gives.chunk room st.reader in
      let got : take k (left st.reader) ≡ b ∷ bs = sym (gives.gives room st.reader) ∙ e in
      let (st', goes, a', small', kept, same) =
        take_in-goes_on rados oid content works window
          (record st { filled = st.filled ++ b ∷ bs; reader = r.1 }) r.0.1 (omega arith)
          (gives.ends room st.reader) a in
      let rest : left st'.reader ≡ drop k (left st.reader) =
        ap left same ∙ gives.leaves room st.reader in
      (
        st',
        rw (e, put_round) goes,
        a',
        small',
        all_kept (content st.pool) st.filled (b ∷ bs) (drop k (left st.reader)) (left st.reader)
            (content st'.pool) st'.filled (left st'.reader) kept rest
            (ap (λ l. l ++ drop k (left st.reader)) (sym got) ∙ take-drop k (left st.reader)),
        rw rest (
            omega (
              arith,
              length-drop k (left st.reader),
              ap length got,
              length-take k (left st.reader),
            )),
      )

  -- With more rounds than bytes all is stored.
  pub put_loop-Stores :
      (rounds window : ℕ) (st : Progress P C R)
      → length st.filled < window
      → st.offset ≡ length (content st.pool)
      → length (left st.reader) < rounds
      → Stores content
          (all_of rados oid content works left st)
          (put_loop rados rounds window oid read st)
  unfolding put_loop
  put_loop-Stores zero window st small a enough = absurd (omega arith)
  put_loop-Stores (suc rounds) window st small a enough =
      by_bytes (read (window - length st.filled) st.reader).0.0 refl
        (λ st' small' a' fewer. put_loop-Stores rounds window st' small' a' (omega arith))
    where
      by_bytes :
          (bs : Bytes)
          → (read (window - length st.filled) st.reader).0.0 ≡ bs
          → ((st' : Progress P C R)
              → length st'.filled < window
              → st'.offset ≡ length (content st'.pool)
              → length (left st'.reader) < length (left st.reader)
              → Stores content
                  (all_of rados oid content works left st')
                  (put_loop rados rounds window oid read st'))
          → Stores content
              (all_of rados oid content works left st)
              (put_loop rados (suc rounds) window oid read st)
      by_bytes [] e again =
          let (none_left, ended) = round_at_end window st small e in
          let done =
            end_put-Stores rados oid content works
              (record st { reader = (read (window - length st.filled) st.reader).1 }) a in
          rw (ended, put_loop, none_left, append-nil st.filled) done
      by_bytes (b ∷ bs) e again =
          let (st', goes, a', small', same, fewer) = round_goes_on window st b bs small a e in
          rw (goes, put_loop) (rw (← same) (again st' small' a' fewer))
