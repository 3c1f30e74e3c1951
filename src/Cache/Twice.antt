-- ===== src/Cache/Twice.antt =====
-- Two reads of the metadata cache, one after the other.
use yig.Cache.{remove, remove}
