-- ===== src/Ceph/Write/Tests.antt =====
-- A pool that holds one object, and bodies given in pieces.
use yig.Prelude.{
  ℕ, zero, suc, ◌≡◌, refl, true, false, [], ◌∷◌, ◌++◌, none, some, arith, take, drop, codes, inr,
}
use yig.Prelude.Int.{ℤ, pos, negsuc}
use yig.Types.{Bytes}
use yig.Ceph.{more, eof, failed}
use yig.Ceph.Write.{
  Rados, stored, Read, Progress, goes_on, put_round, end_put, put_loop, drain_pending, drain_from,
  is_negative, flush, take_in, settle, make_room, reap_completed, write_rest,
}
use yig.Ceph.Write.Works.{Works, Stores}
use yig.Ceph.Write.Stored.{Gives}
use yig.Ceph.Write.Pending.{IsBounded, here, round, Reaches-IsBounded, put_loop-cut_short}
use yig.Ceph.Write.Whole.{put-Stores}
use yig.Ceph.Pools.{
  Pools, put, do_small_put, ceph_remove, get_uniq_upload_name, get_used_space_percent, seek,
}

-- Completions are numbered; that of a write is done when it is asked for.
abbrev good : Rados Bytes ℕ
good = record {
  write_aio = λ oid bs offset p. ((true, offset), p ++ bs);
  is_complete = λ c p. (true, p);
  wait_for = λ c p. (pos 0, p);
}

-- Nothing is done before it is waited for, and the write at 0 fails.
abbrev first_fails : Rados Bytes ℕ
first_fails = record {
  write_aio = λ oid bs offset p. ((true, offset), p ++ bs);
  is_complete = λ c p. (false, p);
  wait_for = λ c p. (fails c, p);
}
  where
    fails : ℕ → ℤ
    fails zero = negsuc 4
    fails (suc n) = pos 0

abbrev good_pools : Pools Bytes ℕ
good_pools = record {
  rados = good;
  open_pool = λ name. true;
  create_striper = λ name. true;
  write_small_object = λ pool oid bs p. (none, bs);
  delete_small = λ pool oid p. (none, []);
  delete_striped = λ pool oid p. (none, []);
}

-- A body gives two bytes at a time.
abbrev by_two : Read Bytes
by_two room r = ((take 2 (take room r), more), drop 2 r)

abbrev all_at_once : Read Bytes
all_at_once room r = ((take room r, eof), drop room r)

abbrev start : Bytes → Progress Bytes ℕ Bytes
start body = record { filled = []; offset = 0; pending = []; pool = []; reader = body }

windows :
    put_loop good 20 4 "o" by_two (start (codes "0123456789")) ≡ (stored 10, codes "0123456789")
unfolding put_loop put_round take_in flush settle make_room reap_completed end_put write_rest
    drain_pending drain_from is_negative
windows = refl

write_failed : (put_loop first_fails 20 4 "o" by_two (start (codes "0123456789"))).0 ≡ stored 10
unfolding put_loop put_round take_in flush settle make_room reap_completed end_put write_rest
    drain_pending drain_from is_negative
write_failed = refl

works : Works good "o" (λ p. p)
unfolding is_negative
works = record {
  extends = λ bs p. refl;
  takes = λ bs p. refl;
  asked = λ c p. refl;
  waited = λ c p. refl;
  succeeds = λ c p. refl;
}

gives : Gives all_at_once (λ r. r)
gives = record {
  chunk = λ room r. room;
  gives = λ room r. refl;
  leaves = λ room r. refl;
  ends = λ room r. inr refl;
  fits = λ room r. omega arith;
  proceeds = λ room r h. h;
}

put-Stores_example :
    Stores
      (λ p. p)
      (codes "abc")
      (put good_pools 4 "tiger" "o" (λ r. (r, true)) all_at_once (codes "abc") [])
put-Stores_example =
    put-Stores good_pools "tiger" "o" (λ p. p) works (λ r. (r, true)) all_at_once (λ r. r) gives 4
      (codes "abc") [] refl refl refl refl (omega arith)

after_one : Progress Bytes ℕ Bytes
after_one = record (start (codes "cd")) { offset = 2; pending = 0 ∷ []; pool = codes "ab" }

one_round : put_round first_fails 2 "o" by_two (start (codes "abcd")) ≡ goes_on after_one
unfolding put_round take_in flush settle make_room reap_completed after_one
one_round = refl

Reaches-IsBounded_example : IsBounded after_one
Reaches-IsBounded_example =
    Reaches-IsBounded first_fails 2 "o" by_two (start (codes "abcd")) after_one refl
      (round here one_round)

-- The write of the first two bytes fails, and four are reported as stored.
abbrev failing : Progress Bytes ℕ Bytes
failing = record (start []) { filled = codes "cd"; offset = 2; pending = 0 ∷ []; pool = codes "ab" }

put_loop-cut_short_example :
    Stores
      (λ p. p)
      (codes "ab" ++ codes "c")
      (put_loop good 1 4 "o"
        (λ room r. (([], failed 7), r))
        (record failing { filled = codes "c" }))
put_loop-cut_short_example =
    put_loop-cut_short good "o" (λ p. p) works 0 4 7 (λ room r. (([], failed 7), r))
      (record failing { filled = codes "c" }) refl refl

small :
    put good_pools 0 "rabbit" "o" (λ r. (r, true)) all_at_once (codes "abc") []
    ≡ (stored 3, codes "abc")
unfolding put do_small_put
small = refl

removed : ceph_remove good_pools "tiger" "o" (codes "abc") ≡ (none, [])
unfolding ceph_remove
removed = refl

names : get_uniq_upload_name (λ n. "7") 3 41 ≡ ("7:7", 42)
unfolding get_uniq_upload_name
names = refl

half_full : get_used_space_percent 50 100 ≡ some 50
unfolding get_used_space_percent
half_full = refl

sought :
    seek (record { oid = "o"; offset = 4; remaining = 9 }) 5 1
    ≡ some (record { oid = "o"; offset = 9; remaining = 9 })
unfolding seek
sought = refl
