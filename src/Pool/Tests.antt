-- ===== src/Pool/Tests.antt =====
-- Two clusters of the weights 2 and 3, and one that is full.
use yig.Prelude.{some}
use yig.Pool.{ClusterState}

abbrev small : ClusterState
small = record { fsid = "c1"; weight = some 2; used_percent = some 10 }

abbrev full : ClusterState
full = record { fsid = "c2"; weight = some 5; used_percent = some 90 }

abbrev large : ClusterState
large = record { fsid = "c3"; weight = some 3; used_percent = some 85 }
