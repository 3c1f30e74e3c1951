-- ===== src/Acl.antt =====
-- Canned ACLs and policies (api/datatype/acl.go): `GetCannedAclFromPolicy`, `createGrant`,
-- `CreatePolicyFromCanned`. Names of XML elements are left out.
pub mod RoundTrip
use yig.Prelude.{String, Bool, true, false, not, List, [], ◌∷◌, ◌++◌, str_eq, if◌then◌else◌}
use yig.Types.{Acl}
use yig.Storage.{unsupported_acl, Outcome, ok, err, panicked}

pub record Owner : Type 0 where
  pub id : String
  pub display_name : String

pub record Grantee : Type 0 where
  pub xsi_type : String
  pub uri : String
  pub id : String
  pub display_name : String

pub record Grant : Type 0 where
  pub grantee : Grantee
  pub permission : String

pub record AccessControlPolicy : Type 0 where
  pub id : String
  pub display_name : String
  pub access_control_list : List Grant

abbrev pub acl_type_canon_user : String
acl_type_canon_user = "CanonicalUser"

abbrev pub acl_type_group : String
acl_type_group = "Group"

abbrev pub acl_group_type_all_users : String
acl_group_type_all_users = "http://acs.amazonaws.com/groups/global/AllUsers"

abbrev pub acl_group_type_authenticated_users : String
acl_group_type_authenticated_users = "http://acs.amazonaws.com/groups/global/AuthenticatedUsers"

abbrev pub acl_perm_read : String
acl_perm_read = "READ"

abbrev pub acl_perm_write : String
acl_perm_write = "WRITE"

abbrev pub acl_perm_full_control : String
acl_perm_full_control = "FULL_CONTROL"

-- The variables of the loop of `GetCannedAclFromPolicy`.
pub record Seen : Type 0 where
  pub acl : Acl
  pub canon_user : Bool
  pub group : Bool

-- What one grant does to them.
unfoldable pub see_grant : String → Seen → Grant → Outcome Seen
see_grant owner seen g =
    if str_eq g.grantee.xsi_type acl_type_canon_user
    then if not (str_eq g.grantee.id owner)
      then err unsupported_acl
      else if not (str_eq g.permission acl_perm_full_control)
      then err unsupported_acl
      else ok (record seen { canon_user = true })
    else if str_eq g.grantee.xsi_type acl_type_group
    then if str_eq g.grantee.uri acl_group_type_all_users
      then if not (str_eq g.permission acl_perm_read)
        then err unsupported_acl
        else ok (record seen { acl = record { canned_acl = "public-read" }; group = true })
      else if str_eq g.grantee.uri acl_group_type_authenticated_users
      then if not (str_eq g.permission acl_perm_read)
        then err unsupported_acl
        else ok (record seen { acl = record { canned_acl = "authenticated-read" }; group = true })
      else err unsupported_acl
    else err unsupported_acl

unfoldable pub see_grants : String → Seen → List Grant → Outcome Seen
see_grants owner seen [] = ok seen
see_grants owner seen (g ∷ gs) = elim (see_grant owner seen g) [
  | ok seen' ↦ see_grants owner seen' gs
  | err e ↦ err e
  | panicked ↦ panicked
]

abbrev pub nothing_seen : Seen
nothing_seen = record { acl = record { canned_acl = "" }; canon_user = false; group = false }

-- `GetCannedAclFromPolicy`
unfoldable pub get_canned_acl_from_policy : AccessControlPolicy → Outcome Acl
get_canned_acl_from_policy policy =
    elim (see_grants policy.id nothing_seen policy.access_control_list) [
      | ok seen ↦
          if not seen.canon_user
          then err unsupported_acl
          else ok (if seen.group then seen.acl else record { canned_acl = "private" })
      | err e ↦ err e
      | panicked ↦ panicked
    ]

-- `createGrant`
unfoldable pub create_grant : String → Owner → String → String → Outcome Grant
create_grant xsi_type owner perm group_type =
    if str_eq xsi_type acl_type_canon_user
    then ok (record {
      grantee = record {
        xsi_type = xsi_type;
        uri = "";
        id = owner.id;
        display_name = owner.display_name;
      };
      permission = perm;
    })
    else if str_eq xsi_type acl_type_group
    then ok (record {
      grantee = record { xsi_type = xsi_type; uri = group_type; id = ""; display_name = "" };
      permission = perm;
    })
    else err unsupported_acl

-- `policy.AccessControlList = append(...)` behind `createGrant`
abbrev pub append_grant :
    AccessControlPolicy → String → Owner → String → String → Outcome AccessControlPolicy
append_grant policy xsi_type owner perm group_type =
    elim (create_grant xsi_type owner perm group_type) [
      | ok g ↦ ok (record policy { access_control_list = policy.access_control_list ++ g ∷ [] })
      | err e ↦ err e
      | panicked ↦ panicked
    ]

abbrev pub no_owner : Owner
no_owner = record { id = ""; display_name = "" }

infixl 5 ◌>>=◌
abbrev pub ◌>>=◌ : {A B : Type 0} → Outcome A → (A → Outcome B) → Outcome B
ok a >>= f = f a
err e >>= f = err e
panicked >>= f = panicked

-- the grant of the owner of the bucket, who may be the owner of the object
unfoldable pub bucket_owner_grant :
    AccessControlPolicy → Owner → Owner → String → Outcome AccessControlPolicy
bucket_owner_grant policy owner bucket_owner perm =
    append_grant policy acl_type_canon_user bucket_owner perm "" >>= λ policy'.
    ok (if str_eq bucket_owner.id owner.id then policy else policy')

-- the `switch` of `CreatePolicyFromCanned`
unfoldable pub grant_canned :
    AccessControlPolicy → Owner → Owner → String → Outcome AccessControlPolicy
grant_canned policy owner bucket_owner canned =
    if str_eq canned "private"
    then ok policy
    else if str_eq canned "public-read"
    then append_grant policy acl_type_group no_owner acl_perm_read acl_group_type_all_users
    else if str_eq canned "public-read-write"
    then (append_grant policy acl_type_group no_owner acl_perm_read acl_group_type_all_users
        >>= λ p. append_grant p acl_type_group no_owner acl_perm_write acl_group_type_all_users)
    else if str_eq canned "authenticated-read"
    then append_grant policy acl_type_group no_owner acl_perm_read
        acl_group_type_authenticated_users
    else if str_eq canned "bucket-owner-read"
    then bucket_owner_grant policy owner bucket_owner acl_perm_read
    else if str_eq canned "bucket-owner-full-control"
    then bucket_owner_grant policy owner bucket_owner acl_perm_full_control
    else err unsupported_acl

-- `CreatePolicyFromCanned`
unfoldable pub create_policy_from_canned : Owner → Owner → Acl → Outcome AccessControlPolicy
create_policy_from_canned owner bucket_owner acl =
    append_grant
      (record { id = owner.id; display_name = owner.display_name; access_control_list = [] })
      acl_type_canon_user owner acl_perm_full_control ""
    >>= λ policy. grant_canned policy owner bucket_owner acl.canned_acl
