-- ===== src/Ceph/Write/Whole.antt =====
-- `CephStorage.Put` as a whole (storage/ceph.go).
use yig.Prelude.{ℕ, ◌<◌, ◌≡◌, refl, String, true, false, [], ◌++◌, arith, length, str_eq, subst}
use yig.Types.{Bytes}
use yig.Ceph.Write.{Read, small_file_poolname, min_chunk_size, Bool, Progress, put_loop}
use yig.Ceph.Write.Works.{Works, Stores}
use yig.Ceph.Write.Stored.{Gives, put_loop-Stores}
use yig.Ceph.Pools.{Pools, put}

-- On a pool other than that of the small files, which opens and has a striper, in which the object
-- is empty, and whose writes and waits succeed, `Put` stores the whole body, which its reader gives
-- without an error, and returns its size. It needs no more rounds than bytes, and one.
pub put-Stores :
    {P : Type 0} {C : Type 0} {R : Type 0} (pools : Pools P C) (poolname oid : String)
    (content : P → Bytes)
    → Works pools.rados oid content
    → (read_all : R → Bytes × Bool) (read : Read R) (left : R → Bytes) → Gives read left
    → (rounds : ℕ) (r : R) (p : P) → str_eq poolname small_file_poolname ≡ false
    → pools.open_pool poolname ≡ true
    → pools.create_striper poolname ≡ true
    → content p ≡ []
    → length (left r) < rounds
    → Stores content (left r) (put pools rounds poolname oid read_all read r p)
unfolding put
put-Stores {P} {C} {R} pools poolname oid content works read_all read left gives rounds r p big
      opens striper empty enough =
    let start : Progress P C R = record {
      filled = [];
      offset = 0;
      pending = [];
      pool = p;
      reader = r;
    } in
    let done =
      put_loop-Stores pools.rados oid content works read left gives rounds min_chunk_size start
        (omega arith) (rw empty refl) enough in
    rw (big, opens, striper)
      (subst
        (λ bs.
          Stores content (bs ++ left r) (put_loop pools.rados rounds min_chunk_size oid read start))
        empty done)
