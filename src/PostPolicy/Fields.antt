-- ===== src/PostPolicy/Fields.antt =====
-- What a form has passed when its policy is checked (signature/postpolicyform.go).
use yig.Prelude.{
  ℕ, String, ◌≡◌, ◌⊎◌, ◌↔◌, inl, inr, refl, sym, ap, subst, ◌++◌, arith, Bool, true, false, List,
  [], ◌∷◌, Option, none, some, str_eq, eq_iff, if◌then◌else◌, codes, is_prefix, has_prefix,
  Bool-cases, ◌<◌, not, ltb,
}
use yig.Types.{Texts}
use yig.Errors.{
  ApiErrorCode, malformed_post_request, policy_already_expired, policy_missing_fields,
  policy_violation,
}
use yig.PostPolicy.{
  Tools, Patterns, FieldCondition, Policies, policy_at, violates, check_fields, PostPolicyForm,
  check_with, Bytes, or_empty, texts_at, parse_post_policy_form,
}

-- The one text begins the other.
abbrev pub Begins : String → String → Type 0
Begins start whole = (rest : List ℕ) × (codes whole ≡ codes start ++ rest)

prefix-Begins : (x y : List ℕ) → (is_prefix x y ≡ true) ↔ ((rest : List ℕ) × (y ≡ x ++ rest))
prefix-Begins [] y = (λ h. (y, refl), λ h. refl)
prefix-Begins (a ∷ x) [] = (λ h. absurd (ground arith), λ (rest, e). absurd (ground arith))
prefix-Begins (a ∷ x) (c ∷ y) = (
  λ h.
      let same : a ≡ c = ground arith in
      let (rest, e) = (prefix-Begins x y).0 (ground arith) in (rest, rw (same, e) refl),
  λ (rest, e).
      let same : c ≡ a = ground arith in
      let tail : y ≡ x ++ rest = ground arith in
      let begins : is_prefix x y ≡ true = (prefix-Begins x y).1 (rest, tail) in
      rw (same, begins) (ground arith),
)

-- A value obeys a condition whose operator is `eq` if it is the value of the condition, one whose
-- operator is `starts-with` if it begins with that, and any other always.
abbrev pub Obeys : FieldCondition → String → Type 0
Obeys c value =
    (c.operator ≡ "eq" → c.value ≡ value) × (c.operator ≡ "starts-with" → Begins c.value value)

kept :
    (c : FieldCondition) (value : String)
    → c.operator ≡ "starts-with"
    → violates c value ≡ false
    → is_prefix (codes c.value) (codes value) ≡ true
unfolding violates has_prefix
kept c value e h =
    let not_eq : str_eq c.operator "eq" ≡ false = rw e refl in
    let is : str_eq c.operator "starts-with" ≡ true = rw e refl in ground (arith, not_eq, is, h)

violates-Obeys : (c : FieldCondition) (value : String) → (violates c value ≡ false) ↔ Obeys c value
unfolding violates has_prefix
violates-Obeys c value = (
  λ h. (
    λ e. elim (Bool-cases (str_eq c.value value)) [
      | inl same ↦ (eq_iff c.value value).0 same
      | inr differ ↦ absurd (ground (arith, (eq_iff c.operator "eq").1 e, differ, h))
    ],
    λ e. (prefix-Begins (codes c.value) (codes value)).0 (kept c value e h),
  ),
  λ (equal, begins). elim (Bool-cases (str_eq c.operator "eq")) [
    | inl is ↦ rw (is, (eq_iff c.value value).1 (equal ((eq_iff c.operator "eq").0 is))) refl
    | inr other ↦ elim (Bool-cases (str_eq c.operator "starts-with")) [
      | inl is ↦
          rw
            (
              other,
              is,
              (prefix-Begins (codes c.value) (codes value)).1
                  (begins ((eq_iff c.operator "starts-with").0 is)),
            )
            refl
      | inr neither ↦ rw (other, neither) refl
    ]
  ],
)

-- Each field of a form is left aside, or the policy has a condition for it, which it obeys.
unfoldable pub IsCovered : Tools → Patterns → Policies → Texts → Type 0
IsCovered t p policies [] = Unit {0}
IsCovered t p policies ((name, value) ∷ rest) =
    ((t.match_string p.ignored_form name ≡ true)
      ⊎ ((c : FieldCondition) × (policy_at name policies ≡ some c) × Obeys c value))
    × IsCovered t p policies rest

abbrev condition_or : FieldCondition → Option FieldCondition → FieldCondition
condition_or c none = c
condition_or c (some d) = d

-- One field.
field_passes :
    (ignored : Bool) (found : Option FieldCondition) (value : String) (later : Option ApiErrorCode)
    → ((if ignored then later else (elim found [
      | none ↦ some policy_missing_fields
      | some c ↦ if violates c value then some policy_violation else later
    ]))
        ≡ none)
      ↔ (((ignored ≡ true) ⊎ ((c : FieldCondition) × (found ≡ some c) × Obeys c value))
          × (later ≡ none))
field_passes true found value later = (λ h. (inl refl, h), λ (x, h). h)
field_passes false none value later = (
  λ h. absurd (ground arith),
  λ (x, h). elim x [ inl e ↦ absurd (ground arith) | inr (c, e, o) ↦ absurd (ground arith) ],
)
field_passes false (some c) value later = (
  λ h. elim (Bool-cases (violates c value)) [
    | inl bad ↦ absurd (ground (arith, bad, h))
    | inr good ↦ (inr (c, refl, (violates-Obeys c value).0 good), rw good at h)
  ],
  λ (x, h). elim x [
    | inl e ↦ absurd (ground arith)
    | inr (d, e, o) ↦
        let same : d ≡ c = sym (ap (condition_or c) e) in
        let obeys : Obeys c value = subst (λ d. Obeys d value) same o in
        rw ((violates-Obeys c value).1 obeys) h
  ],
)

pub check_fields-IsCovered :
    (t : Tools) (p : Patterns) (policies : Policies) (form : Texts)
    → (check_fields t p policies form ≡ none) ↔ IsCovered t p policies form
unfolding check_fields IsCovered
check_fields-IsCovered t p policies [] = (λ h. tt, λ h. refl)
check_fields-IsCovered t p policies ((name, value) ∷ rest) =
    let later = check_fields-IsCovered t p policies rest in
    let here =
      field_passes (t.match_string p.ignored_form name) (policy_at name policies) value
        (check_fields t p policies rest) in
    (
      λ h. let (field, none_later) = here.0 h in (field, later.0 none_later),
      λ (field, covered). here.1 (field, later.1 covered),
    )

-- What a form needs besides its encoded policy.
abbrev pub IsAllowed : Tools → Patterns → Texts → Option PostPolicyForm → Type 0
IsAllowed t p form parsed =
    (policy : PostPolicyForm) × (parsed ≡ some policy)
    × (t.now < policy.expiration)
    × IsCovered t p policy.policies form

abbrev parsed_or : PostPolicyForm → Option PostPolicyForm → PostPolicyForm
parsed_or f none = f
parsed_or f (some g) = g

parsed_passes :
    (t : Tools) (p : Patterns) (form : Texts) (parsed : Option PostPolicyForm)
    → ((elim parsed [
      | none ↦ some malformed_post_request
      | some policy ↦
          if not (ltb t.now policy.expiration)
          then some policy_already_expired
          else check_fields t p policy.policies form
    ])
        ≡ none)
      ↔ IsAllowed t p form parsed
parsed_passes t p form none =
    (λ h. absurd (ground arith), λ (policy, e, valid, covered). absurd (ground arith))
parsed_passes t p form (some policy) = (
  λ h. elim (Bool-cases (ltb t.now policy.expiration)) [
    | inl valid ↦ (
      policy,
      refl,
      ground arith,
      (check_fields-IsCovered t p policy.policies form).0 (rw valid at h),
    )
    | inr expired ↦ absurd (ground (arith, expired, h))
  ],
  λ (given, e, valid, covered).
      let same : given ≡ policy = sym (ap (parsed_or policy) e) in
      let fits : (t.now < policy.expiration) × IsCovered t p policy.policies form =
        subst (λ g. (t.now < g.expiration) × IsCovered t p g.policies form) same (valid, covered) in
      let before : ltb t.now policy.expiration ≡ true = ground (arith, fits.0) in
      rw before ((check_fields-IsCovered t p policy.policies form).1 fits.1),
)

-- A form whose policy can be decoded passes exactly if the policy can be parsed, has not expired,
-- and covers each field that is not left aside: it has a condition for the field, which the value
-- obeys.
pub check_with-IsAllowed :
    (t : Tools) (p : Patterns) (form : Texts) (policy : Bytes)
    → t.decode_base64 (or_empty (texts_at form "Policy")) ≡ some policy
    → (check_with t p form ≡ none) ↔ IsAllowed t p form (parse_post_policy_form t p policy)
unfolding check_with
check_with-IsAllowed t p form policy decoded =
    subst
      (λ m.
        ((elim m [
          | none ↦ some malformed_post_request
          | some policy ↦ elim (parse_post_policy_form t p policy) [
            | none ↦ some malformed_post_request
            | some parsed ↦
                if not (ltb t.now parsed.expiration)
                then some policy_already_expired
                else check_fields t p parsed.policies form
          ]
        ])
          ≡ none)
        ↔ IsAllowed t p form (parse_post_policy_form t p policy))
      (sym decoded) (parsed_passes t p form (parse_post_policy_form t p policy))
