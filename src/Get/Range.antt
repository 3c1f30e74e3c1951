-- ===== src/Get/Range.antt =====
-- `GetObject` on an unencrypted multipart object: the search for the first part, then the loop.
use yig.Prelude.{
  ℕ, zero, suc, ◌+◌, ◌-◌, ◌<◌, ◌≡◌, refl, String, true, none, arith, take, drop, List, [], ◌∷◌,
  ◌++◌, ◌≤◌, ap, length, str_eq, ◌∙◌, drop-append_ge, subst,
}
use yig.Index.{◌!◌}
use yig.Index.Lower.{Ascending, search_lower_bound-IsLast}
use yig.Types.{Bytes, Part, Object, SseRequest}
use yig.Ceph.Copy.{Serves}
use yig.Get.{Outside, sent, parts_loop, get_parts, get_object, encryption_key_for}
use yig.Get.Parts.{Numbered, Laid, whole, Reaches, slice, parts_loop-slice}

abbrev pub offsets : List Part → List ℕ
offsets [] = []
offsets (p ∷ ps) = p.offset ∷ offsets ps

abbrev pub total : List Part → ℕ
total [] = 0
total (p ∷ ps) = p.size + total ps

pub length-offsets : (ps : List Part) → length (offsets ps) ≡ length ps
length-offsets [] = refl
length-offsets (p ∷ ps) = ap suc (length-offsets ps)

-- A part that ends at or before the range.
slice_skip :
    (start len from size : ℕ) (c bs : Bytes)
    → length c ≡ size
    → from + size ≤ start
    → slice start len (from + size) bs ≡ slice start len from (c ++ bs)
slice_skip start len from size c bs e h =
    let d = drop-append_ge (start - from) (start - (from + size)) c bs (omega arith) in
    let t : start + len - (from + size + (start - (from + size)))
        ≡ start + len - (from + (start - from)) =
      omega arith in
    rw d (ap (λ n. take n (drop (start - (from + size)) bs)) t)

slice_whole : (start len : ℕ) (bs : Bytes) → slice start len 0 bs ≡ take len (drop start bs)
slice_whole start len bs =
    let a : start - 0 ≡ start = omega arith in
    let b : start + len - (0 + (start - 0)) ≡ len = omega arith in rw (b, a)

-- Offsets do not fall below the place where the parts begin.
pub offsets-ge :
    (content : String → Bytes) (ps : List Part) (from i : ℕ)
    → Laid content from ps
    → i < length ps
    → from ≤ offsets ps ! i
offsets-ge content [] from i l h = elim h [ ]
offsets-ge content (p ∷ ps) from zero l h = omega arith
offsets-ge content (p ∷ ps) from (suc i) l h =
    omega (arith, offsets-ge content ps (from + p.size) i l.2 (omega arith))

-- The part that holds the beginning of the range: the one behind it begins later.
Reaches-first :
    (content : String → Bytes) (p : Part) (ps : List Part) (from start : ℕ)
    → Laid content from (p ∷ ps)
    → start ≤ from + total (p ∷ ps)
    → (1 < length (p ∷ ps) → start < offsets (p ∷ ps) ! 1)
    → Reaches start from (p ∷ ps)
Reaches-first content p [] from start l t next = omega arith
Reaches-first content p (q ∷ ps) from start l t next = omega (arith, next (omega arith))

module _ (out : Outside) (content : String → Bytes) (serves : Serves out.rados_read content)
    (o : Object) (opened : out.opens o.pool ≡ true) (known : out.has_cluster o.location ≡ true)
    (plain : str_eq o.sse_type "" ≡ true) where
  -- Beginning with a later part gives the same slice, if the parts left out end before the range.
  seek_part :
      (low i left number from start len : ℕ) (key : Bytes) (ps : List Part)
      → low < length ps
      → left + low ≡ length ps
      → number ≡ i + low
      → Numbered o i ps
      → Laid content from ps
      → start ≤ from + total ps
      → offsets ps ! low ≤ start
      → (suc low < length ps → start < offsets ps ! suc low)
      → parts_loop out left number o start len key none
        ≡ sent (slice start len from (whole content ps)) none
  seek_part low i left number from start len key [] h a b n l t here next = elim h [ ]
  seek_part zero i left number from start len key (p ∷ ps) h a b n l t here next =
      let c : left ≡ length (p ∷ ps) = omega arith in
      let d : number ≡ i = omega arith in
      rw (c, d)
        (parts_loop-slice out content serves o opened known plain (p ∷ ps) i from start len key n l
          (Reaches-first content p ps from start l t next))
  seek_part (suc low) i left number from start len key (p ∷ ps) h a b n l t here next =
      let begun : from + p.size ≤ start =
        omega (arith, offsets-ge content ps (from + p.size) low l.2 (omega arith)) in
      seek_part low (i + 1) left number (from + p.size) start len key ps (omega arith) (omega arith)
        (omega arith) n.1 l.2 (omega arith) here (λ k. next (omega arith))
      ∙ ap (λ bs. sent bs none)
          (slice_skip start len from p.size (content p.object_id) (whole content ps) l.1 begun)

  -- A range of an unencrypted object of several parts that begins in the object is answered by
  -- exactly its bytes, without an error: parts are numbered from 1 and laid one behind the other,
  -- the index holds their offsets, which rise strictly, the pool opens, the cluster is known, and
  -- librados serves what is stored for each part.
  pub get_object-slice :
      (ps : List Part) (start len : ℕ) (sse : SseRequest)
      → 0 < length ps
      → length o.parts ≡ length ps
      → Numbered o 1 ps
      → Laid content 0 ps
      → o.parts_index.index ≡ offsets ps
      → Ascending o.parts_index.index
      → start ≤ total ps
      → get_object out o start len sse ≡ sent (take len (drop start (whole content ps))) none
  unfolding get_object get_parts
  get_object-slice ps start len sse some_part size n l e sorted inside =
      let starts : o.parts_index.index ! 0 ≤ start = rw e (first ps some_part l) in
      let long : 0 < length o.parts_index.index = rw (e, length-offsets ps) some_part in
      let (low, found, (a, b, c)) =
        search_lower_bound-IsLast o.parts_index start sorted long starts in
      let same = length-offsets ps in
      let inner : low < length (offsets ps) = rw (← e) a in
      let at_or_before : offsets ps ! low ≤ start = rw (← e) b in
      let next : (j : ℕ) → low < j → j < length (offsets ps) → start < offsets ps ! j =
        subst (λ xs. (j : ℕ) → low < j → j < length xs → start < xs ! j) e c in
      let sought =
        seek_part low 1 (length o.parts - low) (low + 1) 0 start len (encryption_key_for o sse) ps
          (omega arith) (omega arith) (omega arith) n l (omega arith) at_or_before
          (λ k. next (suc low) (omega arith) (omega arith)) in
      ground (arith, found, sought, slice_whole start len (whole content ps))
    where
      first : (qs : List Part) → 0 < length qs → Laid content 0 qs → offsets qs ! 0 ≤ start
      first [] h k = elim h [ ]
      first (q ∷ qs) h k = omega arith
