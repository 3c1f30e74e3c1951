-- ===== src/Preconditions.antt =====
-- The conditions of a request on an object (api/object-handlers-common.go): `checkPreconditions` of
-- a read, `checkObjectPreconditions` of the source of a copy, and the comparison of ETags. An ETag
-- is a list of bytes. `time.Parse` is a parameter; it gives a time in nanoseconds or an error.
pub mod Accepts
pub mod Etag
mod Tests
use yig.Prelude.{
  ℕ, String, Bool, true, false, ◌&&◌, not, List, [], ◌∷◌, ◌++◌, Option, none, some, ltb, ◌==◌,
  if◌then◌else◌, str_eq, length,
}
use yig.Types.{Bytes}

pub data Refusal : Type 0 where
  invalid_precondition precondition_failed content_not_modified : Refusal

-- The four headers; one that is missing is empty.
pub record Conditions : Type 0 where
  pub modified_since : String
  pub unmodified_since : String
  pub etag_match : Bytes
  pub etag_none_match : Bytes

abbrev pub quote_sign : ℕ
quote_sign = b'"'

-- `strings.TrimPrefix(etag, "\"")`
unfoldable pub trim_prefix : Bytes → Bytes
trim_prefix [] = []
trim_prefix (c ∷ cs) = if c == quote_sign then cs else c ∷ cs

-- `strings.TrimSuffix(etag, "\"")`
unfoldable pub trim_suffix : Bytes → Bytes
trim_suffix [] = []
trim_suffix (c ∷ []) = if c == quote_sign then [] else c ∷ []
trim_suffix (c ∷ d ∷ cs) = c ∷ trim_suffix (d ∷ cs)

unfoldable pub canonicalize_etag : Bytes → Bytes
canonicalize_etag etag = trim_suffix (trim_prefix etag)

unfoldable pub bytes_eq : Bytes → Bytes → Bool
bytes_eq [] [] = true
bytes_eq [] (b ∷ bs) = false
bytes_eq (a ∷ rest) [] = false
bytes_eq (a ∷ rest) (b ∷ bs) = (a == b) && bytes_eq rest bs

unfoldable pub is_etag_equal : Bytes → Bytes → Bool
is_etag_equal left right = bytes_eq (canonicalize_etag left) (canonicalize_etag right)

-- Go on, or return the error.
abbrev pub or_else : Option Refusal → Option Refusal → Option Refusal
or_else none next = next
or_else (some r) next = some r

module _ (parse_time : String → Option ℕ) where
  -- a header with a time, and the test on it that refuses
  unfoldable pub check_time : String → (ℕ → Bool) → Refusal → Option Refusal
  check_time header refuses r = if str_eq header "" then none else (elim (parse_time header) [
    | none ↦ some invalid_precondition
    | some given ↦ if refuses given then some r else none
  ])

  abbrev check_etag : Bytes → Bool → Refusal → Option Refusal
  check_etag header refuses r =
      if length header == 0 then none else if refuses then some r else none

  -- `checkPreconditions`, on the time and the ETag of the object
  unfoldable pub check_preconditions : Conditions → ℕ → Bytes → Option Refusal
  check_preconditions h last_modified etag =
      or_else (check_time h.modified_since (λ given. ltb last_modified given) content_not_modified)
        (or_else
          (check_time h.unmodified_since (λ given. ltb given last_modified) precondition_failed)
          (or_else
            (check_etag h.etag_match (not (is_etag_equal etag h.etag_match)) precondition_failed)
            (check_etag h.etag_none_match (is_etag_equal etag h.etag_none_match)
              content_not_modified)))

  abbrev both_given : Bool → Bool → Option Refusal
  both_given missing missing' =
      if not missing && not missing' then some invalid_precondition else none

  -- `checkObjectPreconditions`
  unfoldable pub check_object_preconditions : Conditions → ℕ → Bytes → Option Refusal
  check_object_preconditions h last_modified etag =
      or_else (check_time h.modified_since (λ given. ltb last_modified given) precondition_failed) (
        or_else
          (check_time h.unmodified_since (λ given. ltb given last_modified) precondition_failed)
          (or_else
            (check_etag h.etag_match (not (is_etag_equal etag h.etag_match)) precondition_failed)
            (or_else
              (check_etag h.etag_none_match (is_etag_equal etag h.etag_none_match)
                precondition_failed)
              (or_else (both_given (length h.etag_none_match == 0) (str_eq h.unmodified_since ""))
                (both_given (length h.etag_match == 0) (str_eq h.modified_since ""))))))
