-- ===== src/Ceph.antt =====
-- Reading from a Ceph pool (storage/ceph.go): the two downloaders, which read alike, and
-- `io.CopyBuffer` over one. The pool itself is librados, a parameter: a read of a pool returns some
-- bytes from an offset on, and an error or none.
pub mod Copy
pub mod Write
pub mod Pools
use yig.Prelude.{
  ℕ, zero, suc, ◌+◌, ◌-◌, ◌/◌, ◌*◌, String, Bool, true, false, List, [], ◌∷◌, ◌++◌, Option, none,
  some, length, ltb, ◌==◌, if◌then◌else◌,
}
use yig.Types.{Bytes}

-- `RadosDownloader` and `RadosSmallDownloader`. A length below 0 is read as 0 by `remaining <= 0`.
pub record Downloader : Type 0 where
  pub oid : String
  pub offset : ℕ
  pub remaining : ℕ

-- How a read ends: with bytes, at the end, or with an error, which is told apart by a number.
pub data Ended : Type 0 where
  more eof : Ended
  failed : ℕ → Ended

-- What librados gives back for an object, an offset and the room in the buffer.
abbrev pub RadosRead : Type 0
RadosRead = String → ℕ → ℕ → Bytes × Option ℕ

abbrev pub ended_by : Option ℕ → Ended
ended_by none = more
ended_by (some e) = failed e

module _ (rados_read : RadosRead) where
  -- the last lines of `Read`, on the count and the error of the pool
  unfoldable pub account : Downloader → Bytes × Option ℕ → Downloader × Bytes × Ended
  account d ([], e) = (d, [], eof)
  account d (b ∷ bs, e) = (
    record d { offset = d.offset + length (b ∷ bs); remaining = d.remaining - length (b ∷ bs) },
    b ∷ bs,
    ended_by e,
  )

  -- `Read(p)`, with the length of `p`
  unfoldable pub read : Downloader → ℕ → Downloader × Bytes × Ended
  read d n =
      if d.remaining == 0
      then (d, [], eof)
      else account d (rados_read d.oid d.offset (if ltb d.remaining n then d.remaining else n))

  -- `io.CopyBuffer`: what it writes, and the error that it returns. Each round reads once.
  unfoldable pub copy_buffer : ℕ → ℕ → Downloader → Bytes × Option ℕ
  copy_buffer zero n d = ([], none)
  copy_buffer (suc rounds) n d =
      let (d', bs, end) = read d n in
      elim end [
        | more ↦ let (rest, e) = copy_buffer rounds n d' in (bs ++ rest, e)
        | eof ↦ (bs, none)
        | failed e ↦ (bs, some e)
      ]

abbrev pub aes_block_size : ℕ
aes_block_size = 16

-- `startOffset / AES_BLOCK_SIZE * AES_BLOCK_SIZE`
abbrev pub aligned : ℕ → ℕ
aligned start = start / aes_block_size * aes_block_size

-- The downloader that `getReader` makes.
unfoldable pub get_reader : String → ℕ → ℕ → Downloader
get_reader oid start len = record { oid = oid; offset = start; remaining = len }

unfoldable pub get_aligned_reader : String → ℕ → ℕ → Downloader
get_aligned_reader oid start len = get_reader oid (aligned start) (len + (start - aligned start))
