-- ===== src/Multipart/RoundTrip.antt =====
-- `CompleteMultipartUpload`, then `GetObject`.
use yig.Prelude.{
  ℕ, zero, suc, ◌+◌, ◌≡◌, ◌≤◌, ◌<◌, inl, inr, refl, sym, ◌∙◌, ap, String, true, none, List, [], ◌∷◌,
  ◌++◌, Option, some, str_eq, Map, lookup, length, arith, take, drop, subst,
}
use yig.Types.{Bytes, Part, Object, CompletePart, SseRequest}
use yig.Storage.{ok}
use yig.Index.Lower.{Ascending}
use yig.Ceph.Copy.{Serves}
use yig.Get.{Outside, get_object, sent}
use yig.Get.Parts.{Numbered, Laid, whole}
use yig.Get.Range.{offsets, offsets-ge, length-offsets, get_object-slice}
use yig.Multipart.{complete_parts}
use yig.Multipart.Offsets.{Completed, complete_parts-Completed}

-- The offsets of the `n` parts of a map from the number `i` on: what the clients keep as the index.
abbrev pub offsets_in : ℕ → ℕ → Map Part → List ℕ
offsets_in zero i m = []
offsets_in (suc n) i m = elim (lookup i m) [
  | none ↦ offsets_in n (i + 1) m
  | some p ↦ p.offset ∷ offsets_in n (i + 1) m
]

-- What is stored for them, one part behind the other.
abbrev pub bytes_in : (String → Bytes) → ℕ → ℕ → Map Part → Bytes
bytes_in content zero i m = []
bytes_in content (suc n) i m = elim (lookup i m) [
  | none ↦ bytes_in content n (i + 1) m
  | some p ↦ content p.object_id ++ bytes_in content n (i + 1) m
]

-- Each part stands under its number, and its size is that of what is stored for it.
abbrev pub Stored : (String → Bytes) → Map Part → Type 0
Stored content m =
    (k : ℕ) (p : Part)
    → lookup k m ≡ some p
    → (p.part_number ≡ k) × (length (content p.object_id) ≡ p.size)

module _ (content : String → Bytes) (before after : Map Part) (count : ℕ)
    (stored : Stored content before) where
  Completed-offsets :
      (us : List CompletePart) (ps : List Part) (i from : ℕ)
      → Completed before after count i from us ps
      → offsets_in (length us) i after ≡ offsets ps
  Completed-offsets [] [] i from c = refl
  Completed-offsets [] (p ∷ ps) i from c = elim c [ ]
  Completed-offsets (u ∷ us) [] i from c = elim c [ ]
  Completed-offsets (u ∷ us) (p ∷ ps) i from c =
      rw (offsets_in, c.1)
        (ap (λ l. p.offset ∷ l) (Completed-offsets us ps (i + 1) (from + p.size) c.3))

  Completed-bytes :
      (us : List CompletePart) (ps : List Part) (i from : ℕ)
      → Completed before after count i from us ps
      → bytes_in content (length us) i before ≡ whole content ps
  Completed-bytes [] [] i from c = refl
  Completed-bytes [] (p ∷ ps) i from c = elim c [ ]
  Completed-bytes (u ∷ us) [] i from c = elim c [ ]
  Completed-bytes (u ∷ us) (p ∷ ps) i from c =
      let (q, e, d) = c.2 in
      rw (bytes_in, e, d)
        (ap (λ l. content q.object_id ++ l) (Completed-bytes us ps (i + 1) (from + p.size) c.3))

  Completed-Numbered :
      (o : Object) (us : List CompletePart) (ps : List Part) (i from : ℕ)
      → o.parts ≡ after
      → Completed before after count i from us ps
      → Numbered o i ps
  Completed-Numbered o [] [] i from s c = tt
  Completed-Numbered o [] (p ∷ ps) i from s c = elim c [ ]
  Completed-Numbered o (u ∷ us) [] i from s c = elim c [ ]
  Completed-Numbered o (u ∷ us) (p ∷ ps) i from s c =
      (ap (lookup i) s ∙ c.1, Completed-Numbered o us ps (i + 1) (from + p.size) s c.3)

  Completed-Laid :
      (us : List CompletePart) (ps : List Part) (i from : ℕ)
      → Completed before after count i from us ps
      → Laid content from ps
  Completed-Laid [] [] i from c = tt
  Completed-Laid [] (p ∷ ps) i from c = elim c [ ]
  Completed-Laid (u ∷ us) [] i from c = elim c [ ]
  Completed-Laid (u ∷ us) (p ∷ ps) i from c =
      let (q, e, d) = c.2 in
      (
        ap (λ x. x.offset) d,
        ap (λ x. length (content x.object_id)) d ∙ (stored i q e).1 ∙ sym (ap (λ x. x.size) d),
        Completed-Laid us ps (i + 1) (from + p.size) c.3,
      )

  Completed-length :
      (us : List CompletePart) (ps : List Part) (i from : ℕ)
      → Completed before after count i from us ps
      → length ps ≡ length us
  Completed-length [] [] i from c = refl
  Completed-length [] (p ∷ ps) i from c = elim c [ ]
  Completed-length (u ∷ us) [] i from c = elim c [ ]
  Completed-length (u ∷ us) (p ∷ ps) i from c =
      ap suc (Completed-length us ps (i + 1) (from + p.size) c.3)

  -- A part that begins behind the one before it.
  Ascending-cons :
      (p : Part) (ps : List Part) (from : ℕ)
      → Laid content from (p ∷ ps)
      → (0 < length ps → 0 < p.size)
      → Ascending (offsets ps)
      → Ascending (offsets (p ∷ ps))
  Ascending-cons p ps from l big rising zero zero h k = absurd (omega arith)
  Ascending-cons p ps from l big rising (suc a) zero h k = absurd (omega arith)
  Ascending-cons p ps from l big rising zero (suc b) h k =
      let inner : b < length ps = omega (arith, length-offsets ps) in
      omega (arith, offsets-ge content ps (from + p.size) b l.2 inner, big (omega arith), l.0)
  Ascending-cons p ps from l big rising (suc a) (suc b) h k = rising a b (omega arith) (omega arith)

  -- A part with another behind it is not empty, so that the offsets rise strictly.
  Completed-Ascending :
      (us : List CompletePart) (ps : List Part) (i from : ℕ)
      → i + length us ≡ count + 1
      → Completed before after count i from us ps
      → Ascending (offsets ps)
  Completed-Ascending [] [] i from n c = λ a b h k. elim k [ ]
  Completed-Ascending [] (p ∷ ps) i from n c = elim c [ ]
  Completed-Ascending (u ∷ us) [] i from n c = elim c [ ]
  Completed-Ascending (u ∷ us) (p ∷ ps) i from n c =
      let (q, e, d) = c.2 in
      let number : p.part_number ≡ i = ap (λ x. x.part_number) d ∙ (stored i q e).0 in
      let same = Completed-length us ps (i + 1) (from + p.size) c.3 in
      Ascending-cons p ps from (Completed-Laid (u ∷ us) (p ∷ ps) i from c)
        (λ more. elim (c.0).2 [ inl big ↦ omega arith | inr last ↦ absurd (omega arith) ])
        (Completed-Ascending us ps (i + 1) (from + p.size) (omega arith) c.3)

-- If the parts of an upload pass, an object with the parts and the size that the loop leaves, which
-- holds no part that the request does not list, whose index holds the offsets, and which is not
-- encrypted, is read as the parts that were uploaded, one behind the other, and a range as its
-- slice. Each part of the upload stands under its number with the size of what is stored for it;
-- the pool opens, the cluster is known, and librados serves what is stored.
pub complete_parts-get_object :
    (out : Outside) (content : String → Bytes) (decode_hex : String → Option Bytes)
    (us : List CompletePart) (before : Map Part) {r : Map Part × ℕ × Bytes} (o : Object)
    (start len : ℕ) (sse : SseRequest)
    → Serves out.rados_read content
    → out.opens o.pool ≡ true
    → out.has_cluster o.location ≡ true
    → str_eq o.sse_type "" ≡ true
    → complete_parts decode_hex (length us) us 1 before 0 [] ≡ ok r
    → 0 < length us
    → Stored content before
    → o.parts ≡ r.0
    → o.size ≡ r.1
    → length o.parts ≡ length us
    → o.parts_index.index ≡ offsets_in (length us) 1 o.parts
    → start ≤ o.size
    → get_object out o start len sse
      ≡ sent (take len (drop start (bytes_in content (length us) 1 before))) none
complete_parts-get_object out content decode_hex us before {r} o start len sse serves opened known
      plain passed some_part stored parts size all index inside =
    let (ps, count, done, sum) = complete_parts-Completed decode_hex us before passed in
    let rising =
      Completed-Ascending content before r.0 (length us) stored us ps 1 0 (omega arith) done in
    let held : o.parts_index.index ≡ offsets ps =
      index
      ∙ ap (offsets_in (length us) 1) parts
      ∙ Completed-offsets content before r.0 (length us) stored us ps 1 0 done in
    rw (Completed-bytes content before r.0 (length us) stored us ps 1 0 done) (
      get_object-slice out content serves o opened known plain ps start len sse (omega arith)
        (omega arith)
        (Completed-Numbered content before r.0 (length us) stored o us ps 1 0 parts done)
        (Completed-Laid content before r.0 (length us) stored us ps 1 0 done) held
        (subst Ascending (sym held) rising) (omega arith))
