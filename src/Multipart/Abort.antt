-- ===== src/Multipart/Abort.antt =====
-- `AbortMultipartUpload`, the queue and the usage.
use yig.Prelude.{List, [], ◌∷◌, Map}
use yig.Types.{Multipart, Part}
use yig.Storage.{ObjectToRecycle}
use yig.Multipart.{place_of}

-- The places in Ceph of the parts of a map.
abbrev pub places : Multipart → Map Part → List ObjectToRecycle
places m [] = []
places m ((i, p) ∷ ps) = place_of m p ∷ places m ps
