-- ===== src/Get.antt =====
-- `YigStorage.GetObject` (storage/object.go) with the helpers it calls: `generateTransWholeObjectFunc`,
-- `generateTransPartObjectFunc`, `copyEncryptedPart`, and of storage/storage.go the two wrappers of
-- readers and `alignedReader`. A function that writes to an `io.Writer` returns what it writes.
pub mod Slice
pub mod Parts
pub mod Range
pub mod Cipher
pub mod Errors
pub mod Tests
use yig.Prelude.{
  ℕ, zero, suc, ◌+◌, ◌-◌, ◌*◌, ◌^◌, String, Bool, true, false, List, [], ◌∷◌, ◌++◌, Option, none,
  some, length, drop, ltb, leb, ◌==◌, if◌then◌else◌, str_eq, lookup,
}
use yig.Index.{Found, fault, minus_one, at, search_lower_bound}
use yig.Types.{Bytes, Part, Object, SseRequest}
use yig.Ceph.{
  Downloader, Ended, more, eof, failed, RadosRead, read, copy_buffer, get_reader,
  get_aligned_reader, aligned,
}

abbrev pub min_chunk_size : ℕ
min_chunk_size = 512 * 2 ^ 10

abbrev pub max_chunk_size : ℕ
max_chunk_size = 4 * 2 ^ 20

-- What is not under the repository's control.
pub record Outside : Type 0 where
  pub rados_read : RadosRead
  -- `OpenPool` and `CreateStriper` give no error for this pool
  pub opens : String → Bool
  -- `yig.DataStorage` has this cluster
  pub has_cluster : String → Bool
  -- `aes.NewCipher` takes this key
  pub takes_key : Bytes → Bool
  -- what the AES-CTR stream of a key and an initialization vector makes of a byte at a position
  pub mask : Bytes → Bytes → ℕ → ℕ → ℕ
  -- what a buffer of the download pool holds before it is filled
  pub stale : ℕ → Bytes

pub data GetError : Type 0 where
  no_such_cluster bad_pool bad_key : GetError
  from_ceph : ℕ → GetError

-- What has been written when the call ends, and how it ends.
pub data Sent : Type 0 where
  sent : Bytes → Option GetError → Sent
  panicked : Bytes → Sent

abbrev pub prepend : Bytes → Sent → Sent
prepend bs (sent rest e) = sent (bs ++ rest) e
prepend bs (panicked rest) = panicked (bs ++ rest)

abbrev pub ceph_error : Option ℕ → Option GetError
ceph_error none = none
ceph_error (some e) = some (from_ceph e)

-- `cipher.StreamReader`: each byte goes through the stream at its position.
pub xor_stream : (ℕ → ℕ → ℕ) → ℕ → Bytes → Bytes
xor_stream stream pos [] = []
xor_stream stream pos (b ∷ bs) = stream pos b ∷ xor_stream stream (pos + 1) bs

-- `readOffset` and `readLength`
abbrev pub read_offset : Part → ℕ → ℕ
read_offset p start = if leb start p.offset then 0 else start - p.offset

abbrev pub read_length : Part → ℕ → ℕ → ℕ
read_length p start len =
    if leb (p.offset + p.size) (start + len)
    then p.offset + p.size - read_offset p start
    else start + len - (p.offset + read_offset p start)

-- what the loop does behind an unencrypted part: an error ends it with `return nil`
abbrev pub go_on : Sent → Sent → Sent
go_on (sent bs none) rest = prepend bs rest
go_on (sent bs (some e)) rest = sent bs none
go_on (panicked bs) rest = panicked bs

abbrev pub error_of : Sent → Option GetError
error_of (sent bs e) = e
error_of (panicked bs) = none

-- behind an encrypted part: an error is logged, and the loop goes on
abbrev pub go_on_anyway : Sent → Sent → Sent
go_on_anyway (sent bs e) rest = prepend bs rest
go_on_anyway (panicked bs) rest = panicked bs

abbrev pub encryption_key_for : Object → SseRequest → Bytes
encryption_key_for o sse =
    if str_eq o.sse_type "S3"
    then o.encryption_key
    else if length sse.copy_source_sse_customer_key == 0
    then sse.sse_customer_key
    else sse.copy_source_sse_customer_key

module _ (out : Outside) where
  -- The function that `generateTransPartObjectFunc` returns, and with the offset 0 that of
  -- `generateTransWholeObjectFunc`. A pool that does not open is answered by `return nil`.
  unfoldable pub trans_part : String → String → ℕ → ℕ → Sent
  trans_part pool oid start len =
      let (bs, e) =
        copy_buffer out.rados_read (len + 1) min_chunk_size (get_reader oid start len) in
      if out.opens pool then sent bs (ceph_error e) else sent [] none

  -- A copy through `alignedReader`: of the first read the bytes before the offset are dropped, a
  -- slice out of range if they are more than were read. On an error the buffer is left as it was.
  pub copy_aligned : ℕ → ℕ → Downloader → (ℕ → ℕ → ℕ) → Sent
  copy_aligned skip n d stream =
      let (d', bs, end) = read out.rados_read d n in
      let (rest, e) = copy_buffer out.rados_read (d.remaining + 1) n d' in
      elim end [
        | more ↦
            if ltb (length bs) skip
            then panicked []
            else sent (drop skip (xor_stream stream 0 bs) ++ xor_stream stream (length bs) rest)
                (ceph_error e)
        | eof ↦ sent [] none
        | failed c ↦ sent (out.stale (length bs)) (some (from_ceph c))
      ]

  -- `wrapAlignedEncryptionReader` and the copy of what it wraps.
  pub copy_decrypted : ℕ → Downloader → ℕ → Bytes → Bytes → Sent
  copy_decrypted n d start key iv =
      let (bs, e) = copy_buffer out.rados_read (d.remaining + 1) n d in
      if length key == 0
      then sent bs (ceph_error e)
      else if out.takes_key key
      then if aligned start == start
        then sent (xor_stream (out.mask key iv) 0 bs) (ceph_error e)
        else copy_aligned (start - aligned start) n d (out.mask key iv)
      else sent [] (some bad_key)

  pub copy_encrypted_part : String → Part → ℕ → ℕ → Bytes → Sent
  copy_encrypted_part pool p start len key =
      if out.opens pool
      then copy_decrypted min_chunk_size (get_aligned_reader p.object_id start len) start key
          p.initialization_vector
      else sent [] (some bad_pool)

  -- The loop over the parts from number `i` on, with the parts that are left and the value of `err`.
  pub parts_loop : ℕ → ℕ → Object → ℕ → ℕ → Bytes → Option GetError → Sent
  parts_loop zero i o start len key err = sent [] err
  parts_loop (suc left) i o start len key err = elim (lookup i o.parts) [
    | none ↦ panicked []
    | some p ↦ elim (ltb (start + len) p.offset) [
      | true ↦ sent [] err
      | false ↦ elim (out.has_cluster o.location) [
        | false ↦ sent [] (some no_such_cluster)
        | true ↦ elim (str_eq o.sse_type "") [
          | true ↦
              go_on (trans_part o.pool p.object_id (read_offset p start) (read_length p start len))
                (parts_loop left (i + 1) o start len key err)
          | false ↦
              let part =
                copy_encrypted_part o.pool p (read_offset p start) (read_length p start len) key in
              go_on_anyway part (parts_loop left (i + 1) o start len key (error_of part))
        ]
      ]
    ]
  ]

  -- a multipart object: `low` is the number of the first part to read
  pub get_parts : Object → ℕ → ℕ → Bytes → Sent
  get_parts o start len key = elim (search_lower_bound o.parts_index start) [
    | fault ↦ panicked []
    | minus_one ↦ parts_loop (length o.parts) 1 o start len key none
    | at low ↦ parts_loop (length o.parts - low) (low + 1) o start len key none
  ]

  -- An object of one part, where the data cache is disabled: `WriteFromCache` calls its
  -- `writeThrough`, and `GetAlignedReader` its `readThrough`.
  unfoldable pub get_single : Object → ℕ → ℕ → Bytes → Sent
  get_single o start len key =
      if out.has_cluster o.location
      then if str_eq o.sse_type ""
        then trans_part o.pool o.object_id start len
        else if out.opens o.pool
        then copy_decrypted max_chunk_size (get_aligned_reader o.object_id start len) start key
            o.initialization_vector
        else sent [] (some bad_pool)
      else sent [] (some no_such_cluster)

  unfoldable pub get_object : Object → ℕ → ℕ → SseRequest → Sent
  get_object o start len sse =
      if length o.parts == 0
      then get_single o start len (encryption_key_for o sse)
      else get_parts o start len (encryption_key_for o sse)
