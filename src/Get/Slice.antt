-- ===== src/Get/Slice.antt =====
-- `generateTransPartObjectFunc` over a pool that serves what is stored.
use yig.Prelude.{ℕ, ◌+◌, ◌≡◌, String, true, none, arith, take, drop}
use yig.Types.{Bytes}
use yig.Ceph.{get_reader}
use yig.Ceph.Copy.{Serves, copy_buffer-slice}
use yig.Get.{Outside, sent, trans_part, min_chunk_size}

module _ (out : Outside) (content : String → Bytes) (serves : Serves out.rados_read content) where
  pub trans_part-slice :
      (pool oid : String) (start len : ℕ)
      → out.opens pool ≡ true
      → trans_part out pool oid start len ≡ sent (take len (drop start (content oid))) none
  unfolding trans_part get_reader
  trans_part-slice pool oid start len opened =
      let copied =
        copy_buffer-slice out.rados_read content serves (len + 1) min_chunk_size
          (get_reader oid start len) (omega arith) (omega arith) in
      rw (opened, copied)
