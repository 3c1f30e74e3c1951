-- ===== src/Multipart.antt =====
-- Multipart uploads (storage/multipart.go): `NewMultipartUpload`, `PutObjectPart`,
-- `CopyObjectPart`, `ListObjectParts`, `AbortMultipartUpload`, `CompleteMultipartUpload`. The size
-- of a part is a natural: the handler refuses an unknown length.
pub mod Handlers
pub mod Uploads
pub mod Complete
pub mod Offsets
pub mod RoundTrip
pub mod Listing
pub mod Queue
pub mod Abort
pub mod Rows
mod Tests
mod ReadBack
mod RowTests
use yig.Prelude.{
  ℕ, zero, suc, ◌+◌, ◌-◌, ◌*◌, ◌^◌, String, Bool, true, false, ◌&&◌, not, List, [], ◌∷◌, ◌++◌,
  Option, none, some, str_eq, if◌then◌else◌, ltb, take, ◌==◌, Map, lookup, insert, get_elem?,
}
use yig.Types.{Bytes, SseRequest, Part, Multipart, MultipartMetadata, CompletePart}
use yig.Storage.{
  invalid_sse_header, not_implemented, invalid_part, part_too_small, Outcome, ok, err,
  ObjectToRecycle,
}

abbrev pub max_part_size : ℕ
max_part_size = 5 * 2 ^ 30

abbrev pub min_part_size : ℕ
min_part_size = 128 * 2 ^ 10

abbrev pub max_part_number : ℕ
max_part_number = 10000

-- The key for a part, by the encryption of its upload.
unfoldable pub part_encryption_key : MultipartMetadata → SseRequest → Outcome Bytes
part_encryption_key m sse =
    if str_eq m.sse_request.type "C"
    then if str_eq sse.type "C" then ok sse.sse_customer_key else err invalid_sse_header
    else if str_eq m.sse_request.type "S3"
    then ok m.encryption_key
    else if str_eq m.sse_request.type "KMS"
    then err not_implemented
    else ok []

-- The place of a part in Ceph.
abbrev pub place_of : Multipart → Part → ObjectToRecycle
place_of m p = record {
  location = m.metadata.location;
  pool = m.metadata.pool;
  object_id = p.object_id;
  tried_times = 0;
}

-- The loop of `CompleteMultipartUpload` from the part number `i` on, of `count`: the parts with
-- their offsets, the sum of the sizes, and what the digest has been given.
unfoldable pub complete_parts :
    (String → Option Bytes)
    → ℕ
    → List CompletePart
    → ℕ
    → Map Part
    → ℕ
    → Bytes
    → Outcome (Map Part × ℕ × Bytes)
complete_parts decode_hex count [] i parts total digest = ok (parts, total, digest)
complete_parts decode_hex count (u ∷ us) i parts total digest = elim (u.part_number == i) [
  | false ↦ err invalid_part
  | true ↦ elim (lookup i parts) [
    | none ↦ err invalid_part
    | some p ↦ elim (ltb p.size min_part_size && not (p.part_number == count)) [
      | true ↦ err (part_too_small p.size p.part_number p.etag)
      | false ↦ elim (str_eq p.etag u.etag) [
        | false ↦ err invalid_part
        | true ↦ elim (decode_hex p.etag) [
          | none ↦ err invalid_part
          | some bytes ↦
              complete_parts decode_hex count us (i + 1)
                (insert i (record p { offset = total }) parts) (total + p.size) (digest ++ bytes)
        ]
      ]
    ]
  ]
]

-- The loop of `ListObjectParts` from the number `i` on, which stops when it has one part more than
-- asked for.
unfoldable pub list_parts : ℕ → ℕ → Map Part → ℕ → List (ℕ × Part)
list_parts zero i parts room = []
list_parts (suc left) i parts room = elim (lookup i parts) [
  | none ↦ list_parts left (i + 1) parts room
  | some p ↦ elim room [
    | zero ↦ (i, p) ∷ []
    | suc room' ↦ (i, p) ∷ list_parts left (i + 1) parts room'
  ]
]

pub record ListedParts : Type 0 where
  pub parts : List (ℕ × Part)
  pub is_truncated : Bool
  pub next_part_number_marker : ℕ

-- What the answer of `ListObjectParts` says of the parts.
unfoldable pub listed_parts : Map Part → ℕ → ℕ → ListedParts
listed_parts parts marker max_parts =
    let all = list_parts (max_part_number - marker) (marker + 1) parts max_parts in
    elim (get_elem? all max_parts) [
      | none ↦ record { parts = all; is_truncated = false; next_part_number_marker = 0 }
      | some last ↦ record {
        parts = take max_parts all;
        is_truncated = true;
        next_part_number_marker = last.0;
      }
    ]

-- the sum of the sizes that `AbortMultipartUpload` collects
unfoldable pub removed_size : Map Part → ℕ
removed_size [] = 0
removed_size ((i, p) ∷ ps) = p.size + removed_size ps
