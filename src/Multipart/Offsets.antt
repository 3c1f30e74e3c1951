-- ===== src/Multipart/Offsets.antt =====
-- What the loop of `CompleteMultipartUpload` makes of the parts of an upload.
use yig.Prelude.{
  ℕ, suc, ◌+◌, ◌≡◌, ◌≤◌, ◌<◌, ◌⊎◌, inl, inr, refl, sym, ◌∙◌, String, true, List, [], ◌∷◌, ◌++◌,
  Option, some, str_eq, eq_iff, Map, lookup, insert, lookup-insert, Option-cases, arith, length, ap,
}
use yig.Get.Range.{total as sizes}
use yig.Types.{Bytes, Part, CompletePart}
use yig.Storage.{ok}
use yig.Multipart.{complete_parts, min_part_size}

-- The parts `ps` of the map `after` answer the request `us` from the number `i` on: numbers and
-- digests agree, all but the last have the least size, each is the part of `before` with its
-- offset set, and the offsets are the sums of the sizes.
abbrev pub Completed : Map Part → Map Part → ℕ → ℕ → ℕ → List CompletePart → List Part → Type 0
Completed before after count i total [] [] = Unit
Completed before after count i total [] (p ∷ ps) = ⊥
Completed before after count i total (u ∷ us) [] = ⊥
Completed before after count i total (u ∷ us) (p ∷ ps) =
    ((u.part_number ≡ i) × (u.etag ≡ p.etag) × ((min_part_size ≤ p.size) ⊎ (p.part_number ≡ count)))
    × (lookup i after ≡ some p)
    × ((q : Part) × (lookup i before ≡ some q) × (p ≡ record q { offset = total }))
    × Completed before after count (i + 1) (total + p.size) us ps

module _ (decode_hex : String → Option Bytes) (count : ℕ) where
  abbrev Rest :
      CompletePart → List CompletePart → ℕ → Map Part → ℕ → Bytes → Map Part × ℕ × Bytes → Type 0
  Rest u us i parts total digest r =
      (p : Part) × (digest' : Bytes) × (lookup i parts ≡ some p)
      × ((u.part_number ≡ i)
          × (str_eq p.etag u.etag ≡ true)
          × ((min_part_size ≤ p.size) ⊎ (p.part_number ≡ count)))
      × (complete_parts decode_hex count us (i + 1) (insert i (record p { offset = total }) parts)
            (total + p.size) digest'
          ≡ ok r)

  -- One round that does not fail.
  round :
      (u : CompletePart) (us : List CompletePart) (i : ℕ) (parts : Map Part) (total : ℕ)
      (digest : Bytes) {r : Map Part × ℕ × Bytes}
      → complete_parts decode_hex count (u ∷ us) i parts total digest ≡ ok r
      → Rest u us i parts total digest r
  unfolding complete_parts
  round u us i parts total digest h = elim (Option-cases (lookup i parts)) [
    | inl e ↦ absurd (ground arith)
    | inr (p, e) ↦ elim (Option-cases (decode_hex p.etag)) [
      | inl d ↦ absurd (ground arith)
      | inr (bytes, d) ↦ (p, digest ++ bytes, e, ground arith, ground arith)
    ]
  ]

  -- The entries below `i` are left alone, and those from `i` on answer the request.
  Completing : Map Part → ℕ → Map Part → ℕ → List CompletePart → Map Part × ℕ × Bytes → Type 0
  Completing before i parts total us r =
      (ps : List Part) × (length ps ≡ length us)
      × Completed before r.0 count i total us ps
      × (r.1 ≡ total + sizes ps)
      × ((k : ℕ) → k < i → lookup k r.0 ≡ lookup k parts)

  complete_parts-Completing :
      (before : Map Part) (us : List CompletePart) (i : ℕ) (parts : Map Part) (total : ℕ)
      (digest : Bytes) {r : Map Part × ℕ × Bytes}
      → ((k : ℕ) → i ≤ k → lookup k parts ≡ lookup k before)
      → complete_parts decode_hex count us i parts total digest ≡ ok r
      → Completing before i parts total us r
  unfolding complete_parts Completing
  complete_parts-Completing before [] i parts total digest same h =
      ([], refl, tt, ground arith, λ k q. ground arith)
  complete_parts-Completing before (u ∷ us) i parts total digest same h =
      let (p, digest', e, (number, etag, big), rest) = round u us i parts total digest h in
      let p' = record p { offset = total } in
      let (ps, size, done, sum, below) =
        complete_parts-Completing before us (i + 1) (insert i p' parts) (total + p.size) digest'
          (λ k q. ground (arith, lookup-insert i k p' parts, same k)) rest in
      (
        p' ∷ ps,
        ap suc size,
        (
          (number, sym ((eq_iff p.etag u.etag).0 etag), big),
          below i (omega arith) ∙ ground (arith, lookup-insert i i p' parts),
          (p, sym (same i (omega arith)) ∙ e, refl),
          done,
        ),
        omega (arith, sum),
        λ k q. ground (arith, below k, lookup-insert i k p' parts),
      )

-- If the parts of an upload pass, the request lists parts 1 to n with their digests, all but the
-- last of at least the least size; each is a part of the upload with its offset set to the sum of
-- the sizes before it, and the size of the object is the sum of all.
pub complete_parts-Completed :
    (decode_hex : String → Option Bytes) (us : List CompletePart) (before : Map Part)
    {r : Map Part × ℕ × Bytes}
    → complete_parts decode_hex (length us) us 1 before 0 [] ≡ ok r
    → (ps : List Part) × (length ps ≡ length us)
      × Completed before r.0 (length us) 1 0 us ps
      × (r.1 ≡ sizes ps)
unfolding Completing
complete_parts-Completed decode_hex us before h =
    let (ps, size, done, sum, below) =
      complete_parts-Completing decode_hex (length us) before us 1 before 0 [] (λ k q. refl) h in
    (ps, size, done, omega (arith, sum))
