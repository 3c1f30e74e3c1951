-- ===== src/Multipart/Listing.antt =====
-- The pages of `ListObjectParts`.
use yig.Prelude.{
  ℕ, zero, suc, ◌+◌, ◌-◌, ◌≡◌, ◌≤◌, ◌<◌, refl, true, false, List, [], ◌∷◌, none, some, length, take,
  get_elem?, Map, lookup, All, All-map, All-take, All-get_elem?, Option-cases, arith, subst, sym,
  ap, ◌∙◌, get_elem?-none, length-take, inl, inr,
}
use yig.Types.{Part}
use yig.Multipart.{list_parts, listed_parts, max_part_number}

-- An entry of a page: a part of the upload whose number is above the marker.
abbrev pub IsListed : Map Part → ℕ → ℕ × Part → Type 0
IsListed parts marker e = (marker < e.0) × (e.0 ≤ max_part_number) × (lookup e.0 parts ≡ some e.1)

module _ (parts : Map Part) where
  abbrev InRange : ℕ → ℕ → ℕ × Part → Type 0
  InRange i left e = (i ≤ e.0) × (e.0 < i + left) × (lookup e.0 parts ≡ some e.1)

  widen : (i left : ℕ) (e : ℕ × Part) → InRange (i + 1) left e → InRange i (suc left) e
  widen i left e h = (omega arith, omega arith, h.2)

  list_none :
      (left i room : ℕ)
      → lookup i parts ≡ none
      → list_parts (suc left) i parts room ≡ list_parts left (i + 1) parts room
  unfolding list_parts
  list_none left i room e = ground arith

  list_last :
      (left i : ℕ) (p : Part)
      → lookup i parts ≡ some p
      → list_parts (suc left) i parts 0 ≡ (i, p) ∷ []
  unfolding list_parts
  list_last left i p e = ground arith

  list_more :
      (left i room : ℕ) (p : Part)
      → lookup i parts ≡ some p
      → list_parts (suc left) i parts (suc room) ≡ (i, p) ∷ list_parts left (i + 1) parts room
  unfolding list_parts
  list_more left i room p e = ground arith

  list_end : (i room : ℕ) → list_parts 0 i parts room ≡ []
  unfolding list_parts
  list_end i room = refl

  list_parts-All : (left i room : ℕ) → All (InRange i left) (list_parts left i parts room)
  list_parts-All zero i room = rw (list_end i room) tt
  list_parts-All (suc left) i zero = elim (Option-cases (lookup i parts)) [
    | inl e ↦ rw (list_none left i 0 e) (
        All-map (InRange (i + 1) left) (InRange i (suc left)) (list_parts left (i + 1) parts 0)
          (widen i left) (list_parts-All left (i + 1) 0))
    | inr (p, e) ↦ rw (list_last left i p e) ((omega arith, omega arith, e), tt)
  ]
  list_parts-All (suc left) i (suc room) = elim (Option-cases (lookup i parts)) [
    | inl e ↦ rw (list_none left i (suc room) e) (
        All-map (InRange (i + 1) left) (InRange i (suc left))
          (list_parts left (i + 1) parts (suc room)) (widen i left)
          (list_parts-All left (i + 1) (suc room)))
    | inr (p, e) ↦ rw (list_more left i room p e) (
      (omega arith, omega arith, e),
      All-map (InRange (i + 1) left) (InRange i (suc left)) (list_parts left (i + 1) parts room)
          (widen i left) (list_parts-All left (i + 1) room),
    )
  ]

  -- The entry behind a full page has a higher number than those on it.
  list_parts_sorted :
      (left i room : ℕ) (e : ℕ × Part)
      → get_elem? (list_parts left i parts room) room ≡ some e
      → All (λ x. x.0 < e.0) (take room (list_parts left i parts room))
  list_parts_sorted left i zero e h = tt
  list_parts_sorted zero i (suc room) e h = rw (list_end i (suc room)) tt
  list_parts_sorted (suc left) i (suc room) e h = elim (Option-cases (lookup i parts)) [
    | inl n ↦ rw (list_none left i (suc room) n) (
        list_parts_sorted left (i + 1) (suc room) e
          (subst (λ l. get_elem? l (suc room) ≡ some e) (list_none left i (suc room) n) h))
    | inr (p, s) ↦
        let inner : get_elem? (list_parts left (i + 1) parts room) room ≡ some e =
          subst (λ l. get_elem? l (suc room) ≡ some e) (list_more left i room p s) h in
        let above =
          All-get_elem? (InRange (i + 1) left) (list_parts left (i + 1) parts room) room {x = e}
            (list_parts-All left (i + 1) room) inner in
        rw (list_more left i room p s)
          (omega (arith, above.0), list_parts_sorted left (i + 1) room e inner)
  ]

  list_parts-length : (left i room : ℕ) → length (list_parts left i parts room) ≤ suc room
  list_parts-length zero i room = rw (list_end i room) (omega arith)
  list_parts-length (suc left) i zero = elim (Option-cases (lookup i parts)) [
    | inl e ↦ rw (list_none left i 0 e) (list_parts-length left (i + 1) 0)
    | inr (p, e) ↦ rw (list_last left i p e) (omega arith)
  ]
  list_parts-length (suc left) i (suc room) = elim (Option-cases (lookup i parts)) [
    | inl e ↦ rw (list_none left i (suc room) e) (list_parts-length left (i + 1) (suc room))
    | inr (p, e) ↦
        rw (list_more left i room p e) (omega (arith, list_parts-length left (i + 1) room))
  ]

  abbrev all_of : ℕ → ℕ → List (ℕ × Part)
  all_of marker room = list_parts (max_part_number - marker) (marker + 1) parts room

  listed :
      (marker : ℕ) (e : ℕ × Part)
      → InRange (marker + 1) (max_part_number - marker) e
      → IsListed parts marker e
  listed marker e h = (omega (arith, h.0), omega (arith, h.0, h.1), h.2)

  listed_last :
      (marker room : ℕ) (e : ℕ × Part)
      → get_elem? (all_of marker room) room ≡ some e
      → listed_parts parts marker room ≡ record {
        parts = take room (all_of marker room);
        is_truncated = true;
        next_part_number_marker = e.0;
      }
  unfolding listed_parts
  listed_last marker room e h = ground (arith, h)

  listed_all :
      (marker room : ℕ)
      → get_elem? (all_of marker room) room ≡ none
      → listed_parts parts marker room
        ≡ record { parts = all_of marker room; is_truncated = false; next_part_number_marker = 0 }
  unfolding listed_parts
  listed_all marker room h = ground (arith, h)

  listed_parts-All :
      (marker room : ℕ) → All (IsListed parts marker) (listed_parts parts marker room).parts
  listed_parts-All marker room =
      let inside =
        All-map (InRange (marker + 1) (max_part_number - marker)) (IsListed parts marker)
          (all_of marker room) (listed marker)
          (list_parts-All (max_part_number - marker) (marker + 1) room) in
      elim (Option-cases (get_elem? (all_of marker room) room)) [
        | inl n ↦ rw (listed_all marker room n) inside
        | inr (e, s) ↦
            rw (listed_last marker room e s)
              (All-take (IsListed parts marker) room (all_of marker room) inside)
      ]

  -- A page that is cut off names as its marker a part of the upload that is not on it, and since a
  -- page begins behind its marker, the next page, of whatever length, leaves that part out as well.
  pub listed_parts_skips :
      (marker room : ℕ) {next : ℕ} (again : ℕ)
      → (listed_parts parts marker room).is_truncated ≡ true
      → (listed_parts parts marker room).next_part_number_marker ≡ next
      → ((p : Part) × (lookup next parts ≡ some p))
        × All (λ e. e.0 < next) (listed_parts parts marker room).parts
        × All (λ e. next < e.0) (listed_parts parts next again).parts
  listed_parts_skips marker room {next} again cut named =
      elim (Option-cases (get_elem? (all_of marker room) room)) [
        | inl n ↦ absurd (ground (arith, listed_all marker room n))
        | inr (e, s) ↦
            let same : e.0 ≡ next =
              sym (ap (λ l. l.next_part_number_marker) (listed_last marker room e s)) ∙ named in
            let inside =
              All-get_elem? (InRange (marker + 1) (max_part_number - marker)) (all_of marker room)
                room {x = e} (list_parts-All (max_part_number - marker) (marker + 1) room) s in
            (
              (e.1, subst (λ n. lookup n parts ≡ some e.1) same inside.2),
              rw (listed_last marker room e s) (
                  subst (λ n. All (λ x. x.0 < n) (take room (all_of marker room))) same
                    (list_parts_sorted (max_part_number - marker) (marker + 1) room e s)),
              All-map (IsListed parts next) (λ x. next < x.0) (listed_parts parts next again).parts
                  (λ x h. h.0) (listed_parts-All next again),
            )
      ]

  -- A page holds at most as many parts as asked for, each a part of the upload under its number,
  -- above the marker and at most the highest number there is.
  pub listed_parts-IsListed :
      (marker room : ℕ)
      → (length (listed_parts parts marker room).parts ≤ room)
        × All (IsListed parts marker) (listed_parts parts marker room).parts
  listed_parts-IsListed marker room = (short, listed_parts-All marker room)
    where
      short : length (listed_parts parts marker room).parts ≤ room
      short = elim (Option-cases (get_elem? (all_of marker room) room)) [
        | inl n ↦ rw (listed_all marker room n) (get_elem?-none (all_of marker room) room n)
        | inr (e, s) ↦
            rw (listed_last marker room e s) (omega (arith, length-take room (all_of marker room)))
      ]
