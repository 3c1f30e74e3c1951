-- ===== src/Pool.antt =====
-- `PickOneClusterAndPool` (storage/object.go). The clusters come in the order in which the map is
-- gone through; what the database and Ceph say of each is in the list. The random number is a
-- parameter, and so is whether 24 hours have passed since the last check of the space.
pub mod Fair
mod Tests
use yig.Prelude.{
  ℕ, zero, suc, ◌+◌, ◌*◌, ◌^◌, String, Bool, true, false, ◌&&◌, List, [], ◌∷◌, Option, none, some,
  ltb, if◌then◌else◌, ◌==◌,
}
use yig.Prelude.Int.{ℤ, pos, negsuc}

-- The weight that `GetCluster` gives, and what `GetUsedSpacePercent` gives; `none` is an error.
pub record ClusterState : Type 0 where
  pub fsid : String
  pub weight : Option ℕ
  pub used_percent : Option ℕ

abbrev pub big_file_poolname : String
big_file_poolname = "tiger"

abbrev pub small_file_poolname : String
small_file_poolname = "rabbit"

abbrev pub big_file_threshold : ℕ
big_file_threshold = 128 * 2 ^ 10

abbrev pub cluster_max_used_space_percent : ℕ
cluster_max_used_space_percent = 85

unfoldable pub pool_for : ℤ → String
pool_for (negsuc n) = big_file_poolname
pool_for (pos n) = if ltb n big_file_threshold then small_file_poolname else big_file_poolname

-- the space of a cluster, where it is checked
unfoldable pub has_space : Bool → Option ℕ → Bool
has_space false used = true
has_space true none = false
has_space true (some percent) = if ltb cluster_max_used_space_percent percent then false else true

-- the weight with which a cluster takes part: 0 if it does not
unfoldable pub share : Bool → ClusterState → ℕ
share need_check c = elim c.weight [
  | none ↦ 0
  | some w ↦ if has_space need_check c.used_percent then w else 0
]

-- `clusterWeights`
unfoldable pub cluster_weights : Bool → List ClusterState → List (String × ℕ)
cluster_weights need_check [] = []
cluster_weights need_check (c ∷ cs) =
    let rest = cluster_weights need_check cs in
    if share need_check c == 0 then rest else (c.fsid, share need_check c) ∷ rest

unfoldable pub total_weight : List (String × ℕ) → ℕ
total_weight [] = 0
total_weight (c ∷ cs) = c.1 + total_weight cs

-- the loop that adds weights up to the random number, from `n` on
unfoldable pub choose : ℕ → ℕ → List (String × ℕ) → Option String
choose random n [] = none
choose random n (c ∷ cs) = if ltb random (n + c.1) then some c.0 else choose random (n + c.1) cs

abbrev first_of : List ClusterState → Option String
first_of [] = none
first_of (c ∷ cs) = some c.fsid

-- The cluster: the first one, if none takes part.
unfoldable pub pick_cluster : Bool → ℕ → List ClusterState → Option String
pick_cluster need_check random clusters =
    let weights = cluster_weights need_check clusters in
    if total_weight weights == 0 then first_of clusters else choose random 0 weights
