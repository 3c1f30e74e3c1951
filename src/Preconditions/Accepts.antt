-- ===== src/Preconditions/Accepts.antt =====
-- Which requests pass their conditions.
use yig.Prelude.{
  ℕ, ◌≡◌, ◌↔◌, ◌⊎◌, inl, inr, arith, String, Bool, true, false, Option, none, some, ltb, str_eq,
  length, Bool-cases, Option-cases,
}
use yig.Types.{Bytes}
use yig.Preconditions.{
  precondition_failed, Conditions, Refusal, check_time, is_etag_equal, check_object_preconditions,
}

-- A header with a time is missing, or is a time that the object meets.
abbrev pub MeetsTime : (String → Option ℕ) → String → (ℕ → Type 0) → Type 0
MeetsTime parse_time header Meets =
    (str_eq header "" ≡ true) ⊎ ((given : ℕ) × (parse_time header ≡ some given) × Meets given)

-- A header with an ETag is missing, or the comparison with that of the object gives this.
abbrev pub MeetsEtag : Bytes → Bytes → Bool → Type 0
MeetsEtag header etag outcome = (length header ≡ 0) ⊎ (is_etag_equal etag header ≡ outcome)

module _ (parse_time : String → Option ℕ) where
  check_time-none :
      (header : String) (refuses : ℕ → Bool) (r : Refusal)
      → check_time parse_time header refuses r ≡ none
      → MeetsTime parse_time header (λ given. refuses given ≡ false)
  unfolding check_time
  check_time-none header refuses r h = elim (Bool-cases (str_eq header "")) [
    | inl missing ↦ inl missing
    | inr there ↦ elim (Option-cases (parse_time header)) [
      | inl bad ↦ absurd (ground (arith, there, bad, h))
      | inr (given, e) ↦ elim (Bool-cases (refuses given)) [
        | inl fails ↦ absurd (ground (arith, there, e, fails, h))
        | inr meets ↦ inr (given, e, meets)
      ]
    ]
  ]

  check_time-meets :
      (header : String) (refuses : ℕ → Bool) (r : Refusal)
      → MeetsTime parse_time header (λ given. refuses given ≡ false)
      → check_time parse_time header refuses r ≡ none
  unfolding check_time
  check_time-meets header refuses r (inl missing) = ground (arith, missing)
  check_time-meets header refuses r (inr (given, e, meets)) = elim (Bool-cases (str_eq header "")) [
    | inl missing ↦ ground (arith, missing)
    | inr there ↦ ground (arith, there, e, meets)
  ]

  -- What a request asks for, of an object last modified at a time and with an ETag: not modified
  -- before one time, not modified after another, the same ETag, another ETag.
  abbrev pub Meets : Conditions → ℕ → Bytes → Type 0
  Meets h last_modified etag =
      MeetsTime parse_time h.modified_since (λ given. ltb last_modified given ≡ false)
      × MeetsTime parse_time h.unmodified_since (λ given. ltb given last_modified ≡ false)
      × MeetsEtag h.etag_match etag true
      × MeetsEtag h.etag_none_match etag false

  -- The source of a copy passes its conditions exactly if the object meets all that are given, every
  -- time that is given can be parsed, and no ETag to differ from is given together with a time to be
  -- unmodified since, and no ETag to have together with a time to be modified since.
  pub check_object_preconditions-Meets :
      (h : Conditions) (last_modified : ℕ) (etag : Bytes)
      → (check_object_preconditions parse_time h last_modified etag ≡ none) ↔ (
          Meets h last_modified etag
          × ((length h.etag_none_match ≡ 0) ⊎ (str_eq h.unmodified_since "" ≡ true))
          × ((length h.etag_match ≡ 0) ⊎ (str_eq h.modified_since "" ≡ true)))
  unfolding check_object_preconditions
  check_object_preconditions-Meets h last_modified etag = (
    λ e. (
      (
        check_time-none h.modified_since (λ given. ltb last_modified given) precondition_failed
            (ground (arith, e)),
        check_time-none h.unmodified_since (λ given. ltb given last_modified) precondition_failed
            (ground (arith, e)),
        ground (arith, e),
        ground (arith, e),
      ),
      ground (arith, e),
      ground (arith, e),
    ),
    λ m. ground (
      arith,
      check_time-meets h.modified_since (λ given. ltb last_modified given) precondition_failed
          (m.0).0,
      check_time-meets h.unmodified_since (λ given. ltb given last_modified) precondition_failed
          (m.0).1,
      (m.0).2,
      (m.0).3,
      m.1,
      m.2,
    ),
  )
