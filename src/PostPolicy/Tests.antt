-- ===== src/PostPolicy/Tests.antt =====
-- A form with a key, and a policy with one condition for it.
use yig.Prelude.{String, ◌≡◌, ◌↔◌, refl, true, [], ◌∷◌, some, none, str_eq, if◌then◌else◌}
use yig.Types.{Texts}
use yig.Errors.{policy_violation}
use yig.PostPolicy.{
  Tools, Condition, array, text, patterns_v4, policy_v4, check_with, check_post_policy,
  parse_post_policy_form,
}
use yig.PostPolicy.Fields.{IsAllowed, check_with-IsAllowed}

-- The policy has the condition that the key is `allowed`, with the operator as it is written.
abbrev tools : String → Tools
tools operator = record {
  decode_base64 = λ _. some [];
  parse_json = λ _. some ("later", array (text operator ∷ text "$key" ∷ text "allowed" ∷ []) ∷ []);
  parse_time = λ _. some 9;
  now = 5;
  match_string = λ pattern name.
      if str_eq name "Policy"
      then true
      else if str_eq pattern patterns_v4.ignored_form
      then str_eq name "Policy"
      else true;
  to_lower = λ s. if str_eq s "EQ" then "eq" else s;
  canonical_header_key = λ s. if str_eq s "key" then "Key" else s;
}

abbrev form : Texts
form = ("Policy", "e30=") ∷ ("Key", "other") ∷ []

small_letters : check_post_policy (tools "eq") form policy_v4 ≡ some policy_violation
unfolding check_post_policy check_with parse_post_policy_form yig.PostPolicy.add_conditions
    yig.PostPolicy.add_condition yig.PostPolicy.add_triple yig.PostPolicy.add_match
    yig.PostPolicy.check_fields yig.PostPolicy.violates
small_letters = refl

-- With the operator in capitals the same form passes.
capitals : check_post_policy (tools "EQ") form policy_v4 ≡ none
unfolding check_post_policy check_with parse_post_policy_form yig.PostPolicy.add_conditions
    yig.PostPolicy.add_condition yig.PostPolicy.add_triple yig.PostPolicy.add_match
    yig.PostPolicy.check_fields yig.PostPolicy.violates
capitals = refl

check_with-IsAllowed_example :
    (check_with (tools "EQ") patterns_v4 form ≡ none)
    ↔ IsAllowed (tools "EQ") patterns_v4 form (parse_post_policy_form (tools "EQ") patterns_v4 [])
check_with-IsAllowed_example = check_with-IsAllowed (tools "EQ") patterns_v4 form [] refl
