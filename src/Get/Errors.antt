-- ===== src/Get/Errors.antt =====
-- What `GetObject` makes of errors of the pool.
use yig.Prelude.{
  ◌-◌, ℕ, ◌+◌, ◌≡◌, refl, true, false, none, arith, List, [], ◌∷◌, length, str_eq, ◌<◌,
}
use yig.Types.{Bytes, Part, Object}
use yig.Get.{
  get_object, get_parts, encryption_key_for, Outside, sent, trans_part, parts_loop, get_single,
  SseRequest,
}
use yig.Index.{at, search_lower_bound}
use yig.Get.Parts.{Numbered}

module _ (out : Outside) (o : Object) (closed : out.opens o.pool ≡ false)
    (known : out.has_cluster o.location ≡ true) (plain : str_eq o.sse_type "" ≡ true) where
  get_single_closed : (start len : ℕ) (key : Bytes) → get_single out o start len key ≡ sent [] none
  unfolding get_single trans_part
  get_single_closed start len key = ground arith

  parts_loop_closed :
      (ps : List Part) (i start len : ℕ) (key : Bytes)
      → Numbered o i ps
      → parts_loop out (length ps) i o start len key none ≡ sent [] none
  unfolding parts_loop trans_part
  parts_loop_closed [] i start len key n = refl
  parts_loop_closed (p ∷ ps) i start len key n =
      ground (arith, parts_loop_closed ps (i + 1) start len key n.1)

  -- An unencrypted object of several parts whose pool does not open: whatever the range, the call
  -- writes nothing and reports no error. `ps` are the parts from the one on that the index finds.
  pub get_object_closed :
      (low : ℕ) (ps : List Part) (start len : ℕ) (sse : SseRequest)
      → 0 < length o.parts
      → search_lower_bound o.parts_index start ≡ at low
      → length o.parts - low ≡ length ps
      → Numbered o (low + 1) ps
      → get_object out o start len sse ≡ sent [] none
  unfolding get_object get_parts
  get_object_closed low ps start len sse many found size n =
      ground (arith, parts_loop_closed ps (low + 1) start len (encryption_key_for o sse) n)
