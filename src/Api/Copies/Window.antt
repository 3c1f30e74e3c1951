-- ===== src/Api/Copies/Window.antt =====
-- The part of a source that is copied into a part of an upload (api/object-handlers.go).
use yig.Prelude.{
  ℕ, ◌+◌, ◌≤◌, ◌*◌, ◌^◌, ◌≡◌, String, refl, arith, codes, str_eq, Bool-cases, inl, inr, ◌∙◌, subst,
  length, take, drop, length-take, length-drop,
}
use yig.Prelude.Int.{ℤ, pos, negsuc, pos_part, ◌+ℤ◌, ◌-ℤ◌, ◌≤ℤ◌}
use yig.Types.{Object}
use yig.Storage.{World}
use yig.HttpRange.{HttpRange, Parsed, ok, err, parse_request_range, get_length}
use yig.HttpRange.Bounds.{IsInside}
use yig.HttpRange.Parse.{parse_request_range-IsInside}
use yig.Errors
use yig.Api.{Request, Response, get, code, Option, Bytes, ApiErrorCode, none}
use yig.Api.Handler.{pure, ◌>>◌, go, >>=-eq-go, bind_go}
use yig.Api.Copies.{
  window_of, ranged, limited_range, bounded_window, fail_if_with, Outside, Backend, SseRequest,
  Verifier, get_object, Formats, sent, Codecs, Credential, CopySource, Document, copy_window,
  open_source, parse_sse_header, fine, check_source, call_storage, copy_object_part,
}
use yig.Api.Sse.{is_max_object_size}

-- Of a range inside, the place where it begins and its length.
by_signs :
    (first last : ℤ) (size : ℕ)
    → pos 0 ≤ℤ first
    → last +ℤ pos 1 ≤ℤ pos size
    → pos 0 ≤ℤ (pos 1 +ℤ last -ℤ first)
    → pos_part first + pos_part (pos 1 +ℤ last -ℤ first) ≤ size
unfolding ◌+ℤ◌ ◌-ℤ◌
by_signs (pos a) (pos z) size h k l = ground arith
by_signs (pos a) (negsuc z) size h k l = ground arith
by_signs (negsuc a) last size h k l = absurd (omega arith)

abbrev range_header : String
range_header = "X-Amz-Copy-Source-Range"

module _ {S D : Type 0} (r : Request) (o : Object) (st st' : World S × Response D) where
  limited_range-le :
      (range : HttpRange) {window : ℕ × ℕ}
      → IsInside range o.size
      → limited_range r range st ≡ (go window, st')
      → (window.0 + window.1 ≤ o.size) × (st' ≡ st)
  unfolding limited_range get_length
  limited_range-le range inside h =
      let fits = by_signs range.offset_begin range.offset_end o.size inside.0 inside.1 (inside.2) in
      elim (Bool-cases (is_max_object_size (range.offset_end -ℤ range.offset_begin +ℤ pos 1))) [
        | inl e ↦ let k = rw e at h in cc
        | inr e ↦ let k = rw e at h in ground (arith, fits)
      ]

  window_of-le :
      {window : ℕ × ℕ}
      → window_of r o st ≡ (go window, st')
      → (window.0 + window.1 ≤ o.size) × (st' ≡ st)
  unfolding window_of
  window_of-le {window} h = elim (Bool-cases (str_eq (get r.header range_header) "")) [
    | inl e ↦ let k = rw e at h in ground arith
    | inr e ↦
        let k = rw e at h in
        by_parsed (parse_request_range (codes (get r.header range_header)) o.size) refl k
  ]
    where
      by_parsed :
          (p : Parsed HttpRange)
          → parse_request_range (codes (get r.header range_header)) o.size ≡ p
          → ranged r p st ≡ (go window, st')
          → (window.0 + window.1 ≤ o.size) × (st' ≡ st)
      by_parsed (ok range) e k = limited_range-le range (parse_request_range-IsInside _ o.size e) k
      by_parsed (err e) _ k = cc

module _ {S D : Type 0} (r : Request) (o : Object) where
  short_enough :
      (window window' : ℕ × ℕ) (st st' : World S × Response D)
      → (fail_if_with (is_max_object_size (pos window.1)) r (code Errors.entity_too_large)
            >> pure window)
          st
        ≡ (go window', st')
      → (window.1 ≤ 5 * 2 ^ 30) × (window ≡ window') × (st' ≡ st)
  unfolding is_max_object_size
  short_enough window window' st st' h = elim (Bool-cases (is_max_object_size (pos window.1))) [
    | inl e ↦ let k = rw e at h in cc
    | inr e ↦ let k = rw e at h in (ground arith, cc, cc)
  ]

  -- What is read of a source begins in it and does not go past its end, and it is not longer than
  -- an upload may be; to find it nothing is changed.
  pub bounded_window-le :
      (st st' : World S × Response D) {window : ℕ × ℕ}
      → bounded_window r o st ≡ (go window, st')
      → (window.0 + window.1 ≤ o.size) × (window.1 ≤ 5 * 2 ^ 30) × (st' ≡ st)
  unfolding bounded_window
  bounded_window-le st st' {window} h =
      let (got, s, found, rest) = >>=-eq-go (window_of r o) _ st st' h in
      let (fits, same) = window_of-le r o st s found in
      let (short, as_got, kept) = short_enough got window s st' rest in
      (
        subst (λ (w : ℕ × ℕ). w.0 + w.1 ≤ o.size) as_got fits,
        subst (λ (w : ℕ × ℕ). w.1 ≤ 5 * 2 ^ 30) as_got short,
        kept ∙ same,
      )

-- `GetObject` gives of an object exactly what is asked for.
abbrev pub Reads : Outside → Object → SseRequest → Bytes → Type 0
Reads out o sse bytes =
    (start count : ℕ)
    → start ≤ length bytes
    → get_object out o start count sse ≡ sent (take count (drop start bytes)) none

module _ {S : Type 0} (b : Backend S) (other_code : ℕ → Option ApiErrorCode) (v : Verifier)
    (f : Formats) (c : Codecs) (out : Outside) (unescape : String → Option String) (r : Request)
    (credential : Credential) (part_id : ℕ) (source : CopySource) (o : Object) (sse : SseRequest)
    (bytes : Bytes) (window : ℕ × ℕ) (st s s' : World S × Response Document) where
  -- If the object of a source is found and readable, its conditions are met, and the window is
  -- taken, then the part that is uploaded is the window: from its place as many bytes as it is
  -- long, and no fewer.
  pub copy_window-slice :
      length bytes ≡ o.size
      → Reads out o sse bytes
      → open_source b other_code v f c out unescape r credential source st ≡ (go o, s)
      → parse_sse_header f.decode_base64 f.md5_base64 r.header ≡ fine sse
      → check_source f r o s ≡ (go tt, s)
      → bounded_window r o s ≡ (go window, s')
      → (copy_window b other_code v f c out unescape r credential part_id source st
          ≡ call_storage other_code r
              (copy_object_part b r.bucket r.object
                (get r.query "uploadId")
                part_id
                window.1
                (record { content = take window.1 (drop window.0 bytes); signed = none })
                credential
                sse)
              s')
        × (length (take window.1 (drop window.0 bytes)) ≡ window.1)
  unfolding copy_window
  copy_window-slice size reads opened parsed met taken =
      let (fits, _, _) = bounded_window-le r o s s' taken in
      (
        rw
            (
              bind_go _ _ o st s opened,
              parsed,
              bind_go _ _ tt s s met,
              bind_go _ _ window s s' taken,
              reads window.0 window.1 (omega arith),
            )
            refl,
        omega (arith, length-take window.1 (drop window.0 bytes), length-drop window.0 bytes),
      )
