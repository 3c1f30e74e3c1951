-- ===== src/Buckets/Tests.antt =====
-- The theorems on buckets at a concrete back end.
use yig.Prelude.{ℕ, ◌≡◌, refl, []}
use yig.Storage.{ok, err, bucket_access_forbidden, Backend, World}
use yig.Sample.{sample, ann, private, bucket_of}
use yig.Buckets.{
  set_bucket_acl, set_bucket_lc, del_bucket_lc, set_bucket_cors, delete_bucket_cors,
  set_bucket_versioning, delete_bucket,
}
use yig.Types.{Credential}
use yig.Acl.{AccessControlPolicy}
use yig.Buckets.Guard.{not_owner_changes_nothing}

abbrev start : World ℕ
start = record { store = 5; queue = [] }

abbrev later : World ℕ
later = record { store = 6; queue = [] }

abbrev here : Backend ℕ
here = sample "Disabled" (ok tt)

abbrev policy : AccessControlPolicy
policy = record { id = "eve"; display_name = ""; access_control_list = [] }

abbrev eve : Credential
eve = record ann { user_id = "eve" }

not_owner_changes_nothing_example :
    (set_bucket_acl here "b" policy private eve start ≡ (err bucket_access_forbidden, start))
    × (set_bucket_lc here "b" [] eve start ≡ (err bucket_access_forbidden, start))
    × (del_bucket_lc here "b" eve start ≡ (err bucket_access_forbidden, start))
    × (set_bucket_cors here "b" [] eve start ≡ (err bucket_access_forbidden, start))
    × (delete_bucket_cors here "b" eve start ≡ (err bucket_access_forbidden, start))
    × (set_bucket_versioning here "b" "Enabled" eve start ≡ (err bucket_access_forbidden, start))
    × (delete_bucket here "b" eve start ≡ (err bucket_access_forbidden, start))
unfolding yig.Meta.get_bucket yig.Objects.acl_of_request
not_owner_changes_nothing_example =
    not_owner_changes_nothing here "b" eve (bucket_of "Disabled") start start start refl refl refl
      policy private private [] [] "Enabled" refl
