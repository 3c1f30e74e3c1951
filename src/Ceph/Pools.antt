-- ===== src/Ceph/Pools.antt =====
-- What the pools are for (storage/ceph.go): `Put` with its small objects, `Remove`, the names of
-- uploads, `Seek`, and the space in use.
use yig.Prelude.{
  ℕ, ◌+◌, ◌*◌, ◌^◌, ◌%◌, ◌/◌, String, Bool, [], Option, none, some, length, ◌==◌, if◌then◌else◌,
  str_eq, concat, not,
}
use yig.Types.{Bytes}
use yig.Ceph.{Downloader}
use yig.Ceph.Write.{
  Rados, PutResult, stored, put_error, PutError, bad_poolname, bad_ioctx, read_failed, rados_error,
  Read, put_loop, small_file_poolname, min_chunk_size,
}

-- The pools: whether one opens and has a striper, and what the two kinds of object are written and
-- removed by.
pub record Pools (P C : Type 0) : Type 0 where
  pub rados : Rados P C
  pub open_pool : String → Bool
  pub create_striper : String → Bool
  pub write_small_object : String → String → Bytes → P → Option ℕ × P
  pub delete_small : String → String → P → Option ℕ × P
  pub delete_striped : String → String → P → Option ℕ × P

abbrev remove_error : Option ℕ → Option PutError
remove_error none = none
remove_error (some e) = some (rados_error e)

abbrev pub result_of : {P : Type 0} → ℕ → Option ℕ × P → PutResult × P
result_of n (none, p) = (stored n, p)
result_of n (some e, p) = (put_error (rados_error e), p)

module _ {P C : Type 0} (pools : Pools P C) where
  -- `doSmallPut`, on what `ioutil.ReadAll` gives
  unfoldable pub do_small_put : String → String → Bytes × Bool → P → PutResult × P
  do_small_put poolname oid (buf, fine) p =
      if not (pools.open_pool poolname)
      then (put_error bad_poolname, p)
      else if not fine
      then (put_error read_failed, p)
      else result_of (length buf) (pools.write_small_object poolname oid buf p)

  -- `Put`; `read_all` and `read` are the two ways in which the body is read
  unfoldable pub put :
      {R : Type 0} → ℕ → String → String → (R → Bytes × Bool) → Read R → R → P → PutResult × P
  put rounds poolname oid read_all read r p =
      if str_eq poolname small_file_poolname
      then do_small_put poolname oid (read_all r) p
      else if not (pools.open_pool poolname)
      then (put_error bad_poolname, p)
      else if not (pools.create_striper poolname)
      then (put_error bad_ioctx, p)
      else put_loop pools.rados rounds min_chunk_size oid read
          (record { filled = []; offset = 0; pending = []; pool = p; reader = r })

  -- `doSmallRemove`
  unfoldable pub do_small_remove : String → String → P → Option PutError × P
  do_small_remove poolname oid p =
      if not (pools.open_pool poolname)
      then (some bad_poolname, p)
      else let (e, p') = pools.delete_small poolname oid p in (remove_error e, p')

  -- `Remove`
  unfoldable pub ceph_remove : String → String → P → Option PutError × P
  ceph_remove poolname oid p =
      if str_eq poolname small_file_poolname
      then do_small_remove poolname oid p
      else if not (pools.open_pool poolname)
      then (some bad_poolname, p)
      else if not (pools.create_striper poolname)
      then (some bad_ioctx, p)
      else let (e, p') = pools.delete_striped poolname oid p in (remove_error e, p')

-- `GetUniqUploadName`, under its lock: the name and the counter, of 64 bits.
unfoldable pub get_uniq_upload_name : (ℕ → String) → ℕ → ℕ → String × ℕ
get_uniq_upload_name decimal instance_id counter =
    let next = (counter + 1) % 2 ^ 64 in
    (concat (decimal instance_id) (concat ":" (decimal next)), next)

-- `Seek` of both downloaders; `none` is the panic of `whence` 2. Another `whence` moves nothing.
unfoldable pub seek : Downloader → ℕ → ℕ → Option Downloader
seek d offset whence =
    if whence == 0
    then some (record d { offset = offset })
    else if whence == 1
    then some (record d { offset = d.offset + offset })
    else if whence == 2
    then none
    else some d

-- `GetUsedSpacePercent`, on the two numbers; `none` is the panic of a division by 0.
unfoldable pub get_used_space_percent : ℕ → ℕ → Option ℕ
get_used_space_percent kb_used kb = if kb == 0 then none else some (kb_used * 100 % 2 ^ 64 / kb)
