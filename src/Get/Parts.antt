-- ===== src/Get/Parts.antt =====
-- The loop of `GetObject` over the parts of an object.
use yig.Prelude.{
  ℕ, suc, ◌+◌, ◌-◌, ◌<◌, ◌≡◌, String, true, none, some, arith, take, drop, List, [], ◌∷◌, ◌++◌, ◌≤◌,
  ap, length, str_eq, lookup, sym, ◌∙◌, take_all, take-append_le, take-append_ge, drop-append_le,
  length-drop, take-nil, drop-nil, append-nil,
}
use native.Mathlib.Decide.{dec_lt}
use yig.Types.{Bytes, Part, Object}
use yig.Ceph.Copy.{Serves}
use yig.Get.{Outside, sent, parts_loop, read_offset, read_length, prepend}
use yig.Get.Slice.{trans_part-slice}

-- The parts of a list carry the numbers from `i` on.
abbrev pub Numbered : Object → ℕ → List Part → Type 0
Numbered o i [] = Unit
Numbered o i (p ∷ ps) = (lookup i o.parts ≡ some p) × Numbered o (i + 1) ps

-- Each part begins where the one before it ends, and its size is that of what is stored for it.
abbrev pub Laid : (String → Bytes) → ℕ → List Part → Type 0
Laid content from [] = Unit
Laid content from (p ∷ ps) =
    (p.offset ≡ from) × (length (content p.object_id) ≡ p.size) × Laid content (from + p.size) ps

-- The bytes of the object.
abbrev pub whole : (String → Bytes) → List Part → Bytes
whole content [] = []
whole content (p ∷ ps) = content p.object_id ++ whole content ps

-- The range does not begin behind the first of these parts.
abbrev pub Reaches : ℕ → ℕ → List Part → Type 0
Reaches start from [] = Unit
Reaches start from (p ∷ ps) = start ≤ from + p.size

read_offset-sub : (p : Part) (start : ℕ) → read_offset p start ≡ start - p.offset
read_offset-sub p start = ground arith

read_length_all :
    (p : Part) (start len : ℕ)
    → p.offset + p.size ≤ start + len
    → read_length p start len ≡ p.offset + p.size - (start - p.offset)
read_length_all p start len h = ground arith

read_length_cut :
    (p : Part) (start len : ℕ)
    → start + len < p.offset + p.size
    → read_length p start len ≡ start + len - (p.offset + (start - p.offset))
read_length_cut p start len h = ground arith

-- What the range takes of a suffix of the object that begins at `from`.
abbrev pub slice : ℕ → ℕ → ℕ → Bytes → Bytes
slice start len from bs = take (start + len - (from + (start - from))) (drop (start - from) bs)

slice_none : (start len from : ℕ) (bs : Bytes) → start + len ≤ from → slice start len from bs ≡ []
slice_none start len from bs h =
    let e : start + len - (from + (start - from)) ≡ 0 = omega arith in
    ap (λ n. take n (drop (start - from) bs)) e

-- A part that ends inside the range.
slice_all :
    (start len from size : ℕ) (c bs : Bytes)
    → length c ≡ size
    → start ≤ from + size
    → from + size ≤ start + len
    → take (from + size - (start - from)) (drop (start - from) c)
        ++ slice start len (from + size) bs
      ≡ slice start len from (c ++ bs)
slice_all start len from size c bs e r h =
    let tail : Bytes = drop (start - from) c in
    let long = length-drop (start - from) c in
    let k : ℕ = start + len - (from + size) in
    rw (take_all (from + size - (start - from)) tail (omega arith)) (
      rw (drop-append_le (start - from) c bs (omega arith)) (
        let z : start - (from + size) ≡ 0 = omega arith in
        let y : start + len - (from + size + (start - (from + size))) ≡ k = omega arith in
        ap (λ n. tail ++ take n (drop (start - (from + size)) bs)) y
        ∙ ap (λ n. tail ++ take k (drop n bs)) z
        ∙ sym (take-append_ge (start + len - (from + (start - from))) k tail bs (omega arith))))

-- A part in which the range ends.
slice_cut :
    (start len from size : ℕ) (c bs : Bytes)
    → length c ≡ size
    → start ≤ from + size
    → from ≤ start + len
    → start + len < from + size
    → take (start + len - (from + (start - from))) (drop (start - from) c)
      ≡ slice start len from (c ++ bs)
slice_cut start len from size c bs e r f h =
    let long = length-drop (start - from) c in
    rw (drop-append_le (start - from) c bs (omega arith)) (
      sym (
        take-append_le (start + len - (from + (start - from))) (drop (start - from) c) bs
          (omega arith)))

module _ (out : Outside) (content : String → Bytes) (serves : Serves out.rados_read content)
    (o : Object) (opened : out.opens o.pool ≡ true) (known : out.has_cluster o.location ≡ true)
    (plain : str_eq o.sse_type "" ≡ true) where
  module _ (left i start len : ℕ) (key : Bytes) (p : Part) (found : lookup i o.parts ≡ some p) where
    step_past :
        start + len < p.offset → parts_loop out (suc left) i o start len key none ≡ sent [] none
    unfolding parts_loop
    step_past h = ground arith

    step_part :
        p.offset ≤ start + len
        → parts_loop out (suc left) i o start len key none
          ≡ prepend
              (take (read_length p start len) (drop (read_offset p start) (content p.object_id)))
              (parts_loop out left (i + 1) o start len key none)
    unfolding parts_loop
    step_part h = ground (
      arith,
      trans_part-slice out content serves o.pool p.object_id (read_offset p start)
          (read_length p start len) opened,
    )

  pub parts_loop-slice :
      (ps : List Part) (i from start len : ℕ) (key : Bytes)
      → Numbered o i ps
      → Laid content from ps
      → Reaches start from ps
      → parts_loop out (length ps) i o start len key none
        ≡ sent (slice start len from (whole content ps)) none
  parts_loop-slice [] i from start len key n l r =
      unfold parts_loop in
      rw (drop-nil (start - from)) (rw (take-nil (start + len - (from + (start - from)))))
  parts_loop-slice (p ∷ ps) i from start len key (found, n) (at_from, long, l) r =
      elim (dec_lt (start + len) from) [
        | yes past ↦
            step_past (length ps) i start len key p found (omega arith)
            ∙ ap (λ bs. sent bs none) (sym (slice_none start len from _ (omega arith)))
        | no inside ↦
            let reached : Reaches start (from + p.size) ps = later ps in
            let ih = parts_loop-slice ps (i + 1) (from + p.size) start len key n l reached in
            step_part (length ps) i start len key p found (omega arith)
            ∙ rw ih (ap (λ bs. sent bs none) (joined (omega arith)))
      ]
    where
      later : (qs : List Part) → Reaches start (from + p.size) qs
      later [] = tt
      later (q ∷ qs) = omega arith

      joined :
          from ≤ start + len
          → take (read_length p start len) (drop (read_offset p start) (content p.object_id))
              ++ slice start len (from + p.size) (whole content ps)
            ≡ slice start len from (content p.object_id ++ whole content ps)
      joined h = elim (dec_lt (start + len) (from + p.size)) [
        | no ends ↦ rw (read_length_all p start len (omega arith)) (
            rw (read_offset-sub p start) (
              rw at_from (
                slice_all start len from p.size (content p.object_id) (whole content ps) long r
                  (omega arith))))
        | yes cut ↦ rw (slice_none start len (from + p.size) (whole content ps) (omega arith)) (
            rw append-nil (
              rw (read_length_cut p start len (omega arith)) (
                rw (read_offset-sub p start) (
                  rw at_from (
                    slice_cut start len from p.size (content p.object_id) (whole content ps) long r
                      h cut)))))
      ]
