-- ===== src/PostPolicy.antt =====
-- The policy of an upload by a form (signature/post-policy.go, signature/postpolicyform.go). What
-- the decoder makes of the JSON, the regular expressions, base64, the parsing of a time, the clock,
-- `strings.ToLower` and `http.CanonicalHeaderKey` are fields of `Tools`.
pub mod Fields
mod Tests
use Prim.Native.Char.{code}
use Prim.Native.String
use yig.Prelude.{
  ℕ, String, Bool, false, not, List, [], ◌∷◌, Option, none, some, str_eq, if◌then◌else◌, ◌&&◌, ◌||◌,
  ◌==◌, concat, length, ltb, has_prefix,
}
use yig.Prelude.Int.{ℤ, pos}
use yig.Types.{Bytes, Texts}
use yig.Access.{texts_at}
use yig.Errors
use yig.Errors.{ApiErrorCode}

-- An `interface{}` of the decoder: a text or anything else.
pub data Json : Type 0 where
  text : String → Json
  no_text : Json

-- A condition: an object, an array, or anything else.
pub data Condition : Type 0 where
  fields : List (String × Json) → Condition
  array : List Json → Condition
  no_condition : Condition

pub record Tools : Type 0 where
  pub decode_base64 : String → Option Bytes
  -- the expiration and the conditions
  pub parse_json : Bytes → Option (String × List Condition)
  pub parse_time : String → Option ℕ
  pub now : ℕ
  -- a pattern, and a text in which it may occur
  pub match_string : String → String → Bool
  pub to_lower : String → String
  pub canonical_header_key : String → String

pub data PostPolicyType : Type 0 where
  policy_v2 policy_v4 policy_anonymous policy_unknown : PostPolicyType

-- `GetPostPolicyType`
unfoldable pub get_post_policy_type : Texts → PostPolicyType
get_post_policy_type form = elim (texts_at form "Policy") [
  | none ↦ policy_anonymous
  | some _ ↦ elim (texts_at form "Signature") [
    | some _ ↦ policy_v2
    | none ↦ elim (texts_at form "X-Amz-Algorithm") [
      | none ↦ policy_unknown
      | some algorithm ↦ if str_eq algorithm "AWS4-HMAC-SHA256" then policy_v4 else policy_unknown
    ]
  ]
]

-- The three patterns of a version: for `eq`, for `starts-with`, and for the fields left aside.
pub record Patterns : Type 0 where
  pub eq_policy : String
  pub starts_with_policy : String
  pub ignored_form : String

abbrev common_names : String
common_names = "|Content-Encoding|Expires|Key|Success_action_redirect|Redirect"

abbrev starts_with_names : String
starts_with_names =
    concat "(?i)Acl|Cache-Control|Content-Type|Content-Disposition"
      (concat common_names "|X-Amz-Meta-.+")

abbrev pub patterns_v4 : Patterns
patterns_v4 = record {
  eq_policy =
      concat "(?i)Acl|Bucket|Cache-Control|Content-Type|Content-Disposition"
        (concat common_names "|Success_action_status|X-Amz-.+|X-Amz-Meta-.+");
  starts_with_policy = starts_with_names;
  ignored_form = "(?i)X-Amz-Signature|File|Policy|X-Ignore-.+";
}

abbrev pub patterns_v2 : Patterns
patterns_v2 = record {
  eq_policy =
      concat "(?i)Acl|Bucket|Cache-Control|Content-Type|Content-Disposition"
        (concat common_names "|Success_action_status|X-Amz-Meta-.+");
  starts_with_policy = starts_with_names;
  ignored_form = "(?i)Awsaccesskeyid|Signature|File|Policy|X-Ignore-.+";
}

pub record FieldCondition : Type 0 where
  pub operator : String
  pub value : String

abbrev pub Policies : Type 0
Policies = List (String × FieldCondition)

pub record PostPolicyForm : Type 0 where
  pub expiration : ℕ
  pub policies : Policies
  pub min_length : ℤ
  pub max_length : ℤ

abbrev pub put_policy : String → FieldCondition → Policies → Policies
put_policy name c [] = (name, c) ∷ []
put_policy name c ((k, d) ∷ rest) =
    if str_eq k name then (name, c) ∷ rest else (k, d) ∷ put_policy name c rest

abbrev pub policy_at : String → Policies → Option FieldCondition
policy_at name [] = none
policy_at name ((k, c) ∷ rest) =
    let later = policy_at name rest in if str_eq k name then some c else later

-- `toString`
abbrev pub to_string : Json → String
to_string (text s) = s
to_string no_text = ""

-- `toInteger`: a number of the decoder is a `float64`, never an `int`
abbrev pub to_integer : Json → ℤ
to_integer v = pos 0

-- `strings.TrimPrefix(s, "$")`
abbrev pub trim_dollar : String → String
trim_dollar String.[] = String.[]
trim_dollar (String.◌∷◌ c s) = if code c == 36 then s else String.◌∷◌ c s

-- the `switch` on the operator
unfoldable pub violates : FieldCondition → String → Bool
violates c value =
    if str_eq c.operator "eq"
    then not (str_eq c.value value)
    else if str_eq c.operator "starts-with"
    then not (has_prefix value c.value)
    else false

abbrev pub or_empty : Option String → String
or_empty none = ""
or_empty (some s) = s

module _ (t : Tools) (p : Patterns) where
  abbrev set_policy : String → String → String → PostPolicyForm → PostPolicyForm
  set_policy name operator value form = record form {
    policies = put_policy name (record { operator = operator; value = value }) form.policies;
  }

  -- the loop over the fields of an object
  unfoldable pub add_fields : List (String × Json) → PostPolicyForm → Option PostPolicyForm
  add_fields [] form = some form
  add_fields ((k, text v) ∷ rest) form =
      let added = add_fields rest (set_policy (t.canonical_header_key k) "eq" v form) in
      if t.match_string p.eq_policy k then added else none
  add_fields ((k, no_text) ∷ rest) form = none

  -- An array whose operator is `eq` or `starts-with` in small letters. The operator is kept as it
  -- is written.
  unfoldable pub add_match : Json → Json → Json → PostPolicyForm → Option PostPolicyForm
  add_match (text operator) (text name) (text value) form =
      let match_type = t.canonical_header_key (trim_dollar name) in
      if str_eq operator "eq" && not (t.match_string p.eq_policy match_type)
      then none
      else if str_eq operator "starts-with" && not (t.match_string p.starts_with_policy match_type)
      then none
      else some (set_policy match_type operator value form)
  add_match (text operator) (text name) no_text form = none
  add_match (text operator) no_text value form = none
  add_match no_text name value form = none

  unfoldable pub add_triple : Json → Json → Json → PostPolicyForm → Option PostPolicyForm
  add_triple a b c form =
      let operator = t.to_lower (to_string a) in
      if str_eq operator "eq" || str_eq operator "starts-with"
      then add_match a b c form
      else if str_eq operator "content-length-range"
      then some (record form { min_length = to_integer b; max_length = to_integer c })
      else none

  unfoldable pub add_condition : Condition → PostPolicyForm → Option PostPolicyForm
  add_condition (fields kvs) form = add_fields kvs form
  add_condition (array (a ∷ b ∷ c ∷ [])) form = add_triple a b c form
  add_condition (array _) form = none
  add_condition no_condition form = none

  abbrev and_then :
      (PostPolicyForm → Option PostPolicyForm) → Option PostPolicyForm → Option PostPolicyForm
  and_then f none = none
  and_then f (some form) = f form

  unfoldable pub add_conditions : List Condition → PostPolicyForm → Option PostPolicyForm
  add_conditions [] form = some form
  add_conditions (c ∷ cs) form = and_then (add_conditions cs) (add_condition c form)

  -- `parsePostPolicyForm`; its caller does not tell its errors apart
  unfoldable pub parse_post_policy_form : Bytes → Option PostPolicyForm
  parse_post_policy_form policy = elim (t.parse_json policy) [
    | none ↦ none
    | some raw ↦ if length raw.1 == 0 then none else (elim (t.parse_time raw.0) [
      | none ↦ none
      | some expiration ↦ add_conditions raw.1 (record {
        expiration = expiration;
        policies = [];
        min_length = pos 0;
        max_length = pos 0;
      })
    ])
  ]

  -- the loop over the fields of the form; `none` is no error
  unfoldable pub check_fields : Policies → Texts → Option ApiErrorCode
  check_fields policies [] = none
  check_fields policies ((name, value) ∷ rest) =
      let later = check_fields policies rest in
      if t.match_string p.ignored_form name then later else (elim (policy_at name policies) [
        | none ↦ some Errors.policy_missing_fields
        | some c ↦ if violates c value then some Errors.policy_violation else later
      ])

  -- `CheckPostPolicy` with the patterns of a version
  unfoldable pub check_with : Texts → Option ApiErrorCode
  check_with form = elim (t.decode_base64 (or_empty (texts_at form "Policy"))) [
    | none ↦ some Errors.malformed_post_request
    | some policy ↦ elim (parse_post_policy_form policy) [
      | none ↦ some Errors.malformed_post_request
      | some parsed ↦
          if not (ltb t.now parsed.expiration)
          then some Errors.policy_already_expired
          else check_fields parsed.policies form
    ]
  ]

-- `CheckPostPolicy`
unfoldable pub check_post_policy : Tools → Texts → PostPolicyType → Option ApiErrorCode
check_post_policy t form policy_v2 = check_with t patterns_v2 form
check_post_policy t form policy_v4 = check_with t patterns_v4 form
check_post_policy t form policy_anonymous = none
check_post_policy t form policy_unknown = some Errors.not_implemented
