-- ===== src/Lib.antt =====
-- A model of the core of YIG, an object store with the S3 interface over Ceph.
--
-- A request comes in through the handlers of api/, which call the storage layer (storage/). That
-- layer keeps the metadata of buckets, objects and uploads in a database behind client.Client
-- (meta/client/client.go), reads them through a cache (meta/), and keeps the bytes in Ceph pools
-- (storage/ceph.go). What an object or a part leaves behind in Ceph goes to a queue
-- (storage/recycle.go) whose reader removes it.
--
-- Files, and the code that they are about:
--   Prelude     lists, tests, texts, maps and signed numbers that the other files share
--   Types       the records of meta/types, api/datatype and iam
--   Index       the two binary searches over the offsets of parts (meta/types/simpleindex.go)
--   HttpRange   the parser of the Range header (api/datatype/httprange.go)
--   Ceph        storage/ceph.go: the downloaders and a copy from one, Put with its pending writes
--               (Ceph.Write), the pools and Remove (Ceph.Pools)
--   Get         GetObject (storage/object.go) with the decrypting readers (storage/storage.go)
--   Storage     a run of a method: state passing with errors, panics and the queue; the interface
--               Backend, through which the package reaches the database, the caches, Ceph, the clock
--               and the random source; Storage.Rows, what it relies on of the objects table
--   Cache       the metadata cache of one instance (meta/cache.go)
--   Meta        the methods of meta.Meta
--   Access      the tests on ACLs, and the keys of encryption (storage/object.go, storage/storage.go)
--   Versions    checkOldObject, removeByObject, addDeleteMarker, DeleteObject (storage/object.go)
--   Put         PutObject (storage/object.go)
--   Copy        CopyObject (storage/object.go)
--   PostPolicy  the policy of an upload by a form (signature/post-policy.go,
--               signature/postpolicyform.go)
--   Listing     ListObjects and ListVersionedObjects (storage/bucket.go)
--   Objects     GetObjectInfo, GetObjectAcl, SetObjectAcl (storage/object.go)
--   Multipart   the methods on uploads (storage/multipart.go)
--   Buckets     the methods on buckets (storage/bucket.go)
--   Acl         canned ACLs and policies (api/datatype/acl.go)
--   Circuit     the circuit breaker of the HTTP client (circuitbreak/circuitbreak.go)
--   Recycle     the reader of the queue (storage/recycle.go)
--   Pool        PickOneClusterAndPool (storage/object.go)
--   Preconditions  the conditions of a request (api/object-handlers-common.go)
--   Names          the names of buckets and objects (api/object-utils.go)
--   Errors         the codes of the errors and the table of their answers (error/api-errors.go)
--   Api            requests and answers (api/api-response.go), with
--                  Api.Auth: how a request is signed (signature/auth-handler.go, verify-reader.go);
--                  Api.V4: the parsers of a signature of version 4 (signature/v4-parser.go);
--                  Api.Sse and Api.Queries: what is read of headers and queries (api/handler-utils.go,
--                  api/api-resources.go); Api.Handler: a run of a handler; Api.ObjectHeaders, Api.Read,
--                  Api.Write, Api.Parts, Api.Copies with Api.CopySource, Api.Uploads: the handlers of
--                  objects (api/object-handlers.go);
--                  Api.BucketHandlers, Api.BucketSettings, Api.Listings, Api.Forms: those of buckets
--                  (api/bucket-handlers.go);
--                  Api.Cors: the CORS rules (api/datatype/cors.go); Api.Filters: the filters around
--                  the router (api/generic-handlers.go)
--   Sample      small back ends for the runs at concrete inputs
--
-- A method of YigStorage is a function of the same name in snake case that takes a Backend and
-- returns an Action: from a World (the state behind the interfaces and the queue) to a result, an
-- error or a panic, and the next World. A long method is cut into named pieces where it goes on
-- behind a call; the comment above each says which part it is. A `nil` pointer that is followed is
-- the outcome `panicked`.
--
-- Sizes and offsets are natural numbers, except where the code lets them be negative. Times are
-- UnixNano numbers. Maps with integer keys are association lists in which every key stands once.
--
-- Fuel: the search loop is allowed one round more than there are offsets, since each round leaves
-- out one at least, and a copy from a downloader one round more than there are bytes left, since
-- each round reads one at least; so has the loop of Put. All other loops run over a list or a count.
--
-- A handler is a function from a World and a Response to a Reply (it goes on, has answered, or has
-- panicked) and both behind it. An error of the storage layer becomes a Fault, the value that the
-- handler sees.
--
-- The handler of a copy ends as `stuck` where `CopyObject` never returns; `GetObject`, which feeds a
-- copy through a pipe, is taken to run to its end before the copy begins.
--
-- Not modelled: the router, the checks of the signatures themselves, the XML; the implementations of
-- the client over HBase and TiDB, redis and IAM; configuration, logs and tools. librados, the
-- ciphers, digests and random numbers are parameters. A send to a full queue, which would wait, is
-- taken to succeed. The data cache is disabled in Get.
pub mod Prelude
pub mod Index
pub mod HttpRange
pub mod Types
pub mod Ceph
pub mod Get
pub mod Storage
pub mod Cache
pub mod Meta
pub mod Access
pub mod Versions
pub mod Sample
pub mod Put
pub mod Multipart
pub mod Acl
pub mod Objects
pub mod Buckets
pub mod Circuit
pub mod Recycle
pub mod Pool
pub mod Preconditions
pub mod Names
pub mod PostPolicy
pub mod Listing
pub mod Copy
pub mod Errors
pub mod Api
