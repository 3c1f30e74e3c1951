-- ===== src/Get/Cipher.antt =====
-- Reading an encrypted object of one part.
use yig.Prelude.{
  ℕ, zero, suc, ◌+◌, ◌≡◌, ◌≢◌, refl, String, true, false, none, arith, [], ◌∷◌, length, str_eq,
  take, drop, ap, ◌<◌, ◌∙◌,
}
use yig.Types.{Bytes, Object}
use yig.Ceph.{Downloader, get_reader, get_aligned_reader, aligned}
use yig.Ceph.Copy.{Serves, copy_buffer-slice}
use yig.Get.{Outside, sent, get_single, copy_decrypted, xor_stream, max_chunk_size}

-- The stream is its own inverse at every position.
abbrev pub IsInvolutive : (ℕ → ℕ → ℕ) → Type 0
IsInvolutive stream = (pos b : ℕ) → stream pos (stream pos b) ≡ b

take-xor_stream :
    (stream : ℕ → ℕ → ℕ) (n pos : ℕ) (bs : Bytes)
    → take n (xor_stream stream pos bs) ≡ xor_stream stream pos (take n bs)
unfolding xor_stream
take-xor_stream stream zero pos bs = refl
take-xor_stream stream (suc n) pos [] = refl
take-xor_stream stream (suc n) pos (b ∷ bs) =
    ap (λ r. stream pos b ∷ r) (take-xor_stream stream n (pos + 1) bs)

xor_stream_twice :
    (stream : ℕ → ℕ → ℕ) (pos : ℕ) (bs : Bytes)
    → IsInvolutive stream
    → xor_stream stream pos (xor_stream stream pos bs) ≡ bs
unfolding xor_stream
xor_stream_twice stream pos [] inv = refl
xor_stream_twice stream pos (b ∷ bs) inv = cc (inv pos b, xor_stream_twice stream (pos + 1) bs inv)

drop-xor_stream :
    (stream : ℕ → ℕ → ℕ) (n pos at_n : ℕ) (bs : Bytes)
    → at_n ≡ pos + n
    → drop n (xor_stream stream pos bs) ≡ xor_stream stream at_n (drop n bs)
unfolding xor_stream
drop-xor_stream stream zero pos at_n bs e =
    let same : pos ≡ at_n = omega arith in ap (λ k. xor_stream stream k bs) same
drop-xor_stream stream (suc n) pos at_n [] e = refl
drop-xor_stream stream (suc n) pos at_n (b ∷ bs) e =
    drop-xor_stream stream n (pos + 1) at_n bs (omega arith)

whole_blocks :
    (oid : String) (start len : ℕ)
    → aligned start ≡ start
    → get_aligned_reader oid start len ≡ record { oid = oid; offset = start; remaining = len }
unfolding get_aligned_reader get_reader
whole_blocks oid start len e = ground arith

xor_stream_one :
    (stream : ℕ → ℕ → ℕ) (pos b : ℕ) (rest : Bytes)
    → xor_stream stream 0 (take 1 (xor_stream stream pos (b ∷ rest))) ≡ stream 0 (stream pos b) ∷ []
unfolding xor_stream
xor_stream_one stream pos b rest = refl

module _ (out : Outside) (content : String → Bytes) (serves : Serves out.rados_read content)
    (o : Object) (opened : out.opens o.pool ≡ true) (known : out.has_cluster o.location ≡ true)
    (secret : str_eq o.sse_type "" ≡ false) (key : Bytes) (keyed : 0 < length key)
    (taken : out.takes_key key ≡ true) where
  abbrev stream : ℕ → ℕ → ℕ
  stream = out.mask key o.initialization_vector

  copy_decrypted-aligned :
      (d : Downloader) (n start : ℕ)
      → 0 < n
      → aligned start ≡ start
      → copy_decrypted out n d start key o.initialization_vector
        ≡ sent (xor_stream stream 0 (take d.remaining (drop d.offset (content d.oid)))) none
  unfolding copy_decrypted
  copy_decrypted-aligned d n start room e = ground (
    arith,
    copy_buffer-slice out.rados_read content serves (d.remaining + 1) n d room (omega arith),
  )

  -- A range that begins at a whole block: what is stored there goes through the stream from its
  -- position 0 on, wherever in the object the range begins.
  pub get_single-aligned :
      (start len : ℕ)
      → aligned start ≡ start
      → get_single out o start len key
        ≡ sent (xor_stream stream 0 (take len (drop start (content o.object_id)))) none
  unfolding get_single
  get_single-aligned start len e = ground (
    arith,
    copy_decrypted-aligned (get_aligned_reader o.object_id start len) max_chunk_size start
        (omega arith) e,
    whole_blocks o.object_id start len e,
  )

  -- A range from the beginning of an object that was encrypted on the way in is decrypted to its
  -- bytes.
  pub get_single_decrypts :
      (len : ℕ) (bytes : Bytes)
      → IsInvolutive stream
      → content o.object_id ≡ xor_stream stream 0 bytes
      → get_single out o 0 len key ≡ sent (take len bytes) none
  get_single_decrypts len bytes inv stored =
      get_single-aligned 0 len refl
      ∙ ap (λ bs. sent bs none)
          (rw stored (
            ap (xor_stream stream 0) (take-xor_stream stream len 0 bytes)
            ∙ xor_stream_twice stream 0 (take len bytes) inv))

  -- One byte from a later block is decrypted at the wrong place of the stream: a byte that the
  -- places tell apart does not come back.
  pub get_single_wrong_block :
      (start b : ℕ) (rest bytes : Bytes)
      → aligned start ≡ start
      → drop start bytes ≡ b ∷ rest
      → stream 0 (stream start b) ≢ b
      → content o.object_id ≡ xor_stream stream 0 bytes
      → get_single out o start 1 key ≢ sent (take 1 (drop start bytes)) none
  get_single_wrong_block start b rest bytes e cut apart stored same =
      let got : take 1 (drop start (content o.object_id))
          ≡ take 1 (xor_stream stream start (b ∷ rest)) =
        rw (stored, drop-xor_stream stream start 0 start bytes (omega arith), cut) refl in
      apart (
        cc (
          get_single-aligned start 1 e,
          ap (xor_stream stream 0) got,
          xor_stream_one stream start b rest,
          ap (take 1) cut,
          same,
        ))
