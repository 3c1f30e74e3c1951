-- ===== src/Api/ObjectHeaders/Moment.antt =====
-- When the status and the headers of an object are sent (api/object-handlers.go, api/api-headers.go).
use yig.Prelude.{
  ◌++◌, ℕ, ◌≡◌, refl, ◌∙◌, String, true, List, [], ◌∷◌, Option, none, some, str_eq, arith,
  Bool-cases, inl, inr, ap,
}
use yig.Prelude.Int.{pos, negsuc, ltb_ℤ}
use yig.Types.{Texts, Object}
use yig.HttpRange.{HttpRange}
use yig.Api.{Values, get, Request, Response, set_header, write_header, values_at, ℤ, write, Payload}
use yig.Api.ObjectHeaders.{
  Formats, set_get_resp_headers, set_attributes, has_cache_control, set_sse_headers, set_range,
  set_standard_headers, set_object_headers, begin_body, set_param, set_etag, get_length,
  supported_get_req_params,
}

-- What a response has sent and written.
abbrev pub Bare : Type 0 → Type 0
Bare D = Option (ℕ × Values) × List (Payload D)

abbrev pub bare : {D : Type 0} → Response D → Bare D
bare w = (w.sent, w.written)

pub sent_of : {D : Type 0} {x y : Bare D} → x ≡ y → x.0 ≡ y.0
sent_of e = ap (λ p. p.0) e

pub written_of : {D : Type 0} {x y : Bare D} → x ≡ y → x.1 ≡ y.1
written_of e = ap (λ p. p.1) e

module _ {D : Type 0} where
  set_header-bare : (key value : String) (w : Response D) → bare (set_header key value w) ≡ bare w
  unfolding set_header
  set_header-bare key value w = refl

  pub write_header-fresh :
      (status : ℕ) (w : Response D)
      → w.sent ≡ none
      → (write_header status w).sent ≡ some (status, w.header)
  unfolding write_header
  write_header-fresh status w e = rw (e, write_header) refl

  set_attributes-bare : (attrs : Texts) (w : Response D) → bare (set_attributes attrs w) ≡ bare w
  unfolding set_attributes
  set_attributes-bare [] w = refl
  set_attributes-bare ((key, val) ∷ rest) w =
      set_attributes-bare rest (set_header key val w) ∙ set_header-bare key val w

  set_param-bare :
      (names : Option (List String)) (v : List String) (w : Response D)
      → bare (set_param names v w) ≡ bare w
  unfolding set_param
  set_param-bare none v w = refl
  set_param-bare (some names) v w = refl

  set_etag-bare : (etag : String) (w : Response D) → bare (set_etag etag w) ≡ bare w
  unfolding set_etag set_header
  set_etag-bare etag w = ground arith

  set_get_resp_headers-bare :
      (query : Values) (w : Response D) → bare (set_get_resp_headers query w) ≡ bare w
  unfolding set_get_resp_headers
  set_get_resp_headers-bare [] w = refl
  set_get_resp_headers-bare ((k, v) ∷ rest) w =
      set_get_resp_headers-bare rest (set_param (values_at supported_get_req_params k) v w)
      ∙ set_param-bare (values_at supported_get_req_params k) v w

  pub set_sse_headers-bare :
      (r : Request) (o : Object) (w : Response D) → bare (set_sse_headers r o w) ≡ bare w
  unfolding set_sse_headers set_header
  set_sse_headers-bare r o w = ground arith

-- The first byte of the range.
abbrev pub begins_at : Option HttpRange → ℤ
begins_at none = pos 0
begins_at (some range) = range.offset_begin

module _ {D : Type 0} (f : Formats) where
  set_standard_headers-bare :
      (o : Object) (w : Response D) → bare (set_standard_headers f o w) ≡ bare w
  unfolding set_standard_headers
  set_standard_headers-bare o w =
      let w1 : Response D =
        set_header "Content-Type" o.content_type
          (set_header "Last-Modified" (f.format_time o.last_modified_time) w) in
      let w3 : Response D = set_attributes o.custom_attributes (set_etag o.etag w1) in
      let kept : bare w3 ≡ bare w =
        set_attributes-bare o.custom_attributes (set_etag o.etag w1)
        ∙ set_etag-bare o.etag w1
        ∙ set_header-bare "Content-Type" o.content_type _
        ∙ set_header-bare "Last-Modified" _ w in
      elim (Bool-cases (has_cache_control o.custom_attributes)) [
        | inl own ↦ rw own (set_header-bare "Content-Length" _ w3 ∙ kept)
        | inr default ↦ rw default (
            set_header-bare "Content-Length" _ _
            ∙ set_header-bare "Cache-Control" "public, max-age=30672000" w3
            ∙ kept)
      ]

  -- Without a range nothing is sent yet; with one the status is 206.
  pub set_object_headers-whole :
      (o : Object) (w : Response D) → bare (set_object_headers f o none w) ≡ bare w
  unfolding set_object_headers set_range
  set_object_headers-whole o w = set_standard_headers-bare o w

  pub set_object_headers-ranged :
      (o : Object) (range : HttpRange) (w : Response D)
      → w.sent ≡ none
      → ltb_ℤ (negsuc 0) range.offset_begin ≡ true
      → (sent_header : Values) × ((set_object_headers f o (some range) w).sent
          ≡ some (206, sent_header))
  unfolding set_object_headers set_range
  set_object_headers-ranged o range w fresh begins =
      let w2 : Response D = set_header "Content-Range" (f.format_range range) (
        set_header "Content-Length" (f.format_int (get_length range))
          (set_standard_headers f o w)) in
      (
        w2.header,
        rw begins (
            write_header-fresh 206 w2 (
              sent_of (
                set_header-bare "Content-Range" _ _
                ∙ set_header-bare "Content-Length" _ _
                ∙ set_standard_headers-bare o w)
              ∙ fresh)),
      )

  begin_body-bare :
      (r : Request) (o : Object) (hrange : Option HttpRange) (w : Response D)
      → bare (begin_body f r o hrange w) ≡ bare (set_object_headers f o hrange w)
  unfolding begin_body
  begin_body-bare r o hrange w =
      let kept = set_get_resp_headers-bare r.query (set_object_headers f o hrange w) in
      elim (Bool-cases (str_eq (get r.query "versionId") "")) [
        | inl latest ↦ rw latest kept
        | inr version ↦ rw version (set_header-bare "x-amz-version-id" _ _ ∙ kept)
      ]

  -- What is sent of an answer with a range does not depend on the parameters of the query: neither
  -- the headers that it asks for nor the version id are among the headers.
  pub begin_body-ranged :
      (r : Request) (o : Object) (range : HttpRange) (w : Response D)
      → w.sent ≡ none
      → ltb_ℤ (negsuc 0) range.offset_begin ≡ true
      → (sent_header : Values) × ((set_object_headers f o (some range) w).sent
          ≡ some (206, sent_header))
        × ((begin_body f r o (some range) w).sent ≡ some (206, sent_header))
  begin_body-ranged r o range w fresh begins =
      let (h, e) = set_object_headers-ranged o range w fresh begins in
      (h, e, sent_of (begin_body-bare r o (some range) w) ∙ e)

  -- the status of the answer
  abbrev pub IsSent : Option HttpRange → Response D → Type 0
  IsSent none w = (sent_header : Values) × (w.sent ≡ some (200, sent_header))
  IsSent (some range) w = (sent_header : Values) × (w.sent ≡ some (206, sent_header))

  write-sent :
      (p : Payload D) (w : Response D) (s : ℕ × Values)
      → w.sent ≡ some s
      → (write p w).sent ≡ some s
  unfolding write write_header
  write-sent p w s e = rw (e, write_header) e

  write-fresh :
      (p : Payload D) (w : Response D) → w.sent ≡ none → (write p w).sent ≡ some (200, w.header)
  unfolding write
  write-fresh p w e = write_header-fresh 200 w e

  -- The first write sends 200 for a whole object, and 206 for a range.
  pub write-IsSent :
      (p : Payload D) (r : Request) (o : Object) (hrange : Option HttpRange) (w : Response D)
      → w.sent ≡ none
      → ltb_ℤ (negsuc 0) (begins_at hrange) ≡ true
      → IsSent hrange (write p (begin_body f r o hrange w))
  write-IsSent p r o none w fresh begins =
      let w' : Response D = begin_body f r o none w in
      (
        w'.header,
        write-fresh p w'
            (sent_of (begin_body-bare r o none w ∙ set_object_headers-whole o w) ∙ fresh),
      )
  write-IsSent p r o (some range) w fresh begins =
      let (h, e, e') = begin_body-ranged r o range w fresh begins in
      (h, write-sent p (begin_body f r o (some range) w) (206, h) e')

  write_header-written : (status : ℕ) (w : Response D) → (write_header status w).written ≡ w.written
  unfolding write_header
  write_header-written status w = ground arith

  set_object_headers-written :
      (o : Object) (hrange : Option HttpRange) (w : Response D)
      → (set_object_headers f o hrange w).written ≡ w.written
  unfolding set_object_headers set_range
  set_object_headers-written o none w = written_of (set_standard_headers-bare o w)
  set_object_headers-written o (some range) w =
      let w2 : Response D = set_header "Content-Range" (f.format_range range) (
        set_header "Content-Length" (f.format_int (get_length range))
          (set_standard_headers f o w)) in
      elim (Bool-cases (ltb_ℤ (negsuc 0) range.offset_begin)) [
        | inl begins ↦ rw begins (
            write_header-written 206 w2
            ∙ written_of (
                set_header-bare "Content-Range" _ _
                ∙ set_header-bare "Content-Length" _ _
                ∙ set_standard_headers-bare o w))
        | inr before ↦ rw before (written_of (set_standard_headers-bare o w))
      ]

  -- A write is the last of what is written.
  pub write-written :
      (p : Payload D) (r : Request) (o : Object) (hrange : Option HttpRange) (w : Response D)
      → (write p (begin_body f r o hrange w)).written ≡ w.written ++ p ∷ []
  unfolding write
  write-written p r o hrange w =
      ap (λ l. l ++ p ∷ [])
        (write_header-written 200 (begin_body f r o hrange w)
          ∙ written_of (begin_body-bare r o hrange w)
          ∙ set_object_headers-written o hrange w)
