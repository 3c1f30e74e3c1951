-- ===== src/Acl/RoundTrip.antt =====
-- From a canned ACL to the policy that is shown, and back.
use yig.Prelude.{◌≡◌, arith, eq_refl, ◌⊎◌, inl, inr}
use yig.Types.{Acl}
use yig.Storage.{ok, err, unsupported_acl}
use yig.Acl.{
  Owner, create_policy_from_canned, get_canned_acl_from_policy, create_grant, grant_canned,
  see_grants, see_grant, ◌>>=◌,
}

-- The canned ACLs that come back from their policy.
abbrev pub IsSimple : Acl → Type 0
IsSimple acl =
    (acl ≡ record { canned_acl = "private" })
    ⊎ (acl ≡ record { canned_acl = "public-read" })
    ⊎ (acl ≡ record { canned_acl = "authenticated-read" })

-- A private, a publicly readable and an ACL that authenticated users read come back from the
-- policy that is made of them, whoever the owners are.
pub get_canned_acl-create_policy :
    (owner bucket_owner : Owner) (acl : Acl)
    → IsSimple acl
    → (create_policy_from_canned owner bucket_owner acl >>= get_canned_acl_from_policy) ≡ ok acl
unfolding create_policy_from_canned create_grant grant_canned get_canned_acl_from_policy see_grants
    see_grant
get_canned_acl-create_policy owner bucket_owner acl (inl e) =
    rw e (ground (arith, eq_refl owner.id))
get_canned_acl-create_policy owner bucket_owner acl (inr (inl e)) =
    rw e (ground (arith, eq_refl owner.id))
get_canned_acl-create_policy owner bucket_owner acl (inr (inr e)) =
    rw e (ground (arith, eq_refl owner.id))

-- The policy of a bucket that all may write is refused when it is sent back.
pub get_canned_acl_refuses_write :
    (owner bucket_owner : Owner)
    → (create_policy_from_canned owner bucket_owner (record { canned_acl = "public-read-write" })
        >>= get_canned_acl_from_policy)
      ≡ err unsupported_acl
unfolding create_policy_from_canned create_grant grant_canned get_canned_acl_from_policy see_grants
    see_grant
get_canned_acl_refuses_write owner bucket_owner = ground (arith, eq_refl owner.id)
