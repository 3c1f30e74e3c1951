-- ===== src/Pool/Fair.antt =====
-- The random numbers that pick a cluster.
use yig.Prelude.{ℕ, ◌+◌, Bool, List, [], ◌∷◌}
use yig.Pool.{ClusterState, share}

-- The sum of the shares of some clusters.
abbrev pub shares : Bool → List ClusterState → ℕ
shares need_check [] = 0
shares need_check (c ∷ cs) = share need_check c + shares need_check cs
