-- ===== src/Multipart/Rows.antt =====
-- `CompleteMultipartUpload` and the objects table, on a bucket without versions.
use yig.Types.{Multipart}
use yig.Storage.Rows.{Rows}
