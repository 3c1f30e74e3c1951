-- ===== src/Ceph/Copy.antt =====
-- What `io.CopyBuffer` writes over a downloader of storage/ceph.go.
use yig.Prelude.{
  ℕ, zero, suc, ◌+◌, ◌-◌, ◌≤◌, ◌<◌, ◌≡◌, refl, String, [], ◌∷◌, ◌++◌, none, arith, length, take,
  drop, ltb, if◌then◌else◌, length-take, take_split, drop-drop, ap, sym, ◌∙◌, take-nil, subst,
}
use native.Mathlib.Decide.{dec_lt}
use yig.Types.{Bytes}
use yig.Ceph.{Downloader, RadosRead, copy_buffer, read, account}

-- What is relied on of librados: a read does not fail, and returns the bytes of the object from the
-- offset on, at most as many as there is room for, and at least one if there is room and a byte
-- is left. `chunk` is how many it gives at a time.
pub record Serves (rados_read : RadosRead) (content : String → Bytes) : Type 0 where
  pub chunk : String → ℕ → ℕ → ℕ
  pub returns :
      (oid : String) (offset room : ℕ)
      → rados_read oid offset room
        ≡ (take (chunk oid offset room) (drop offset (content oid)), none)
  pub fits : (oid : String) (offset room : ℕ) → chunk oid offset room ≤ room
  pub proceeds : (oid : String) (offset room : ℕ) → 0 < room → 0 < chunk oid offset room

take-length : (k : ℕ) (xs : Bytes) → take k xs ≡ take (length (take k xs)) xs
take-length zero xs = refl
take-length (suc k) [] = refl
take-length (suc k) (x ∷ xs) = ap (λ r. x ∷ r) (take-length k xs)

pub take-cons-ne-nil : (k : ℕ) (xs : Bytes) → 0 < k → take k xs ≡ [] → xs ≡ []
take-cons-ne-nil zero xs h e = absurd (omega arith)
take-cons-ne-nil (suc k) [] h e = refl
take-cons-ne-nil (suc k) (x ∷ xs) h e = cc

module _ (rados_read : RadosRead) (content : String → Bytes)
    (serves : Serves rados_read content) where
  -- the room that one `Read` asks the pool for
  abbrev wants : ℕ → Downloader → ℕ
  wants n d = if ltb d.remaining n then d.remaining else n

  -- the bytes that one `Read` gets
  abbrev gets : ℕ → Downloader → Bytes
  gets n d = take (serves.chunk d.oid d.offset (wants n d)) (drop d.offset (content d.oid))

  abbrev after : Bytes → Downloader → Downloader
  after bs d = record d { offset = d.offset + length bs; remaining = d.remaining - length bs }

  copy_done :
      (rounds n : ℕ) (d : Downloader)
      → d.remaining ≡ 0
      → copy_buffer rados_read (suc rounds) n d ≡ ([], none)
  unfolding copy_buffer read account
  copy_done rounds n d e = ground arith

  copy_end :
      (rounds n : ℕ) (d : Downloader)
      → 0 < d.remaining
      → gets n d ≡ []
      → copy_buffer rados_read (suc rounds) n d ≡ ([], none)
  unfolding copy_buffer read account
  copy_end rounds n d h e = ground (arith, serves.returns d.oid d.offset (wants n d))

  copy_more :
      (rounds n : ℕ) (d : Downloader) (b : ℕ) (bs : Bytes)
      → 0 < d.remaining
      → gets n d ≡ b ∷ bs
      → copy_buffer rados_read (suc rounds) n d ≡ (
        (b ∷ bs) ++ (copy_buffer rados_read rounds n (after (b ∷ bs) d)).0,
        (copy_buffer rados_read rounds n (after (b ∷ bs) d)).1,
      )
  unfolding copy_buffer read account
  copy_more rounds n d b bs h e = ground (arith, serves.returns d.oid d.offset (wants n d))

  length-gets : (n : ℕ) (d : Downloader) → length (gets n d) ≤ d.remaining
  length-gets n d = ground (
    arith,
    length-take (serves.chunk d.oid d.offset (wants n d)) (drop d.offset (content d.oid)),
    serves.fits d.oid d.offset (wants n d),
  )

  -- What is got and what is left to get make up the slice.
  gets-append :
      (n : ℕ) (d : Downloader) (bs : Bytes)
      → gets n d ≡ bs
      → bs ++ take (d.remaining - length bs) (drop (d.offset + length bs) (content d.oid))
        ≡ take d.remaining (drop d.offset (content d.oid))
  gets-append n d bs e =
      let xs : Bytes = drop d.offset (content d.oid) in
      let small : length bs ≤ d.remaining =
        subst (λ l. length l ≤ d.remaining) e (length-gets n d) in
      let front : take (length bs) xs ≡ bs =
        subst (λ l. take (length l) xs ≡ l) e
          (sym (take-length (serves.chunk d.oid d.offset (wants n d)) xs)) in
      let back = drop-drop d.offset (length bs) (d.offset + length bs) (content d.oid) refl in
      rw (← back) (
        ap (λ l. l ++ take (d.remaining - length bs) (drop (length bs) xs)) (sym front)
        ∙ take_split (length bs) (d.remaining - length bs) d.remaining xs (omega arith))

  -- A copy that is allowed a round for each byte that remains, and one more, writes the slice.
  pub copy_buffer-slice :
      (rounds n : ℕ) (d : Downloader)
      → 0 < n
      → d.remaining < rounds
      → copy_buffer rados_read rounds n d ≡ (take d.remaining (drop d.offset (content d.oid)), none)
  copy_buffer-slice zero n d room enough = absurd (omega arith)
  copy_buffer-slice (suc rounds) n d room enough = elim (dec_lt 0 d.remaining) [
    | no empty ↦ let e : d.remaining ≡ 0 = omega arith in copy_done rounds n d e ∙ rw e
    | yes some_left ↦
        by_bytes some_left (gets n d) refl (λ bs e. copy_buffer-slice rounds n (after bs d) room)
  ]
    where
      by_bytes :
          0 < d.remaining
          → (bs : Bytes) → gets n d ≡ bs
          → ((bs : Bytes)
              → gets n d ≡ bs
              → d.remaining - length bs < rounds
              → copy_buffer rados_read rounds n (after bs d) ≡ (
                take (d.remaining - length bs) (drop (d.offset + length bs) (content d.oid)),
                none,
              ))
          → copy_buffer rados_read (suc rounds) n d
            ≡ (take d.remaining (drop d.offset (content d.oid)), none)
      by_bytes h [] e again =
          let wanted : 0 < wants n d = ground arith in
          let no_bytes =
            take-cons-ne-nil (serves.chunk d.oid d.offset (wants n d))
              (drop d.offset (content d.oid)) (serves.proceeds d.oid d.offset (wants n d) wanted)
              e in
          copy_end rounds n d h e ∙ rw no_bytes (rw take-nil)
      by_bytes h (b ∷ bs) e again =
          let ih = again (b ∷ bs) e (omega arith) in
          copy_more rounds n d b bs h e ∙ cc (ih, gets-append n d (b ∷ bs) e)
