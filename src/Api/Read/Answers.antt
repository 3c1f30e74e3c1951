-- ===== src/Api/Read/Answers.antt =====
-- What `GetObjectHandler` answers (api/object-handlers.go).
use yig.Prelude.{◌∷◌, ◌++◌, [], ℕ, ◌≡◌, refl, ◌∙◌, Option, none, some, arith, codes, ap}
use yig.Types.{Object, SseRequest}
use yig.Storage.{Backend, World}
use yig.Errors
use yig.Errors.{ApiErrorCode, http_status_code, error_code_response}
use yig.HttpRange.{HttpRange}
use yig.Get.{Outside}
use yig.Preconditions.{check_preconditions, content_not_modified, Refusal}
use yig.Api.{
  Request, Response, write_header, write_error_response_headers, set_header, Bytes, true, raw, code,
}
use yig.Api.Auth.{Verifier}
use yig.Api.Handler.{go, answered, bind_go, bind_answered}
use yig.Api.ObjectHeaders.{Formats, refuse_conditions, begin_body, set_sse_headers}
use yig.Get.{GetError}
use yig.Api.ObjectHeaders.Moment.{
  begins_at, IsSent, write-IsSent, write-written, set_sse_headers-bare, sent_of, written_of,
}
use yig.Api.Handler.{checked, fail_if}
use yig.Api.ObjectHeaders.{set_etag}
use yig.Prelude.Int.{negsuc, ltb_ℤ}
use yig.Prelude.{not, ◌==◌, length}
use yig.Api.{write}
use yig.Api.Sse.{fine}
use yig.Api.Read.{
  open_object, range_of, validate_conditions, conditions_of, get_object_handler, send_body, sent,
  parse_sse_header, get_object, first_byte, byte_count,
}

module _ {S D : Type 0} (b : Backend S) (other_code : ℕ → Option ApiErrorCode) (v : Verifier)
    (f : Formats) (out : Outside) (r : Request) (o : Object) where
  -- The request has found the object, and nothing has been sent yet.
  abbrev pub Opens : World S × Response D → World S × Response D → Type 0
  Opens st st' = (open_object b other_code v f r st ≡ (go o, st')) × (st'.1.sent ≡ none)

  validate_refused :
      (refusal : Refusal) (st : World S × Response D)
      → check_preconditions f.parse_time
          (conditions_of r.header)
          o.last_modified_time
          (codes o.etag)
        ≡ some refusal
      → validate_conditions b other_code v f r o st
        ≡ (answered, (st.0, refuse_conditions f r o refusal st.1))
  unfolding validate_conditions
  validate_refused refusal st e = rw (e, validate_conditions) refl

  validate_met :
      (st : World S × Response D)
      → check_preconditions f.parse_time
          (conditions_of r.header)
          o.last_modified_time
          (codes o.etag)
        ≡ none
      → validate_conditions b other_code v f r o st ≡ (go tt, st)
  unfolding validate_conditions
  validate_met st e = rw (e, validate_conditions) refl

  -- The status of the answer to an object that was not modified is 500, and nothing is written.
  refuse_not_modified :
      (w : Response D)
      → w.sent ≡ none
      → ((refuse_conditions f r o content_not_modified w).sent
          ≡ some (500, (refuse_conditions f r o content_not_modified w).header))
        × ((refuse_conditions f r o content_not_modified w).written ≡ w.written)
  unfolding refuse_conditions set_etag write_error_response_headers write_header set_header
      http_status_code error_code_response
  refuse_not_modified w fresh = (ground arith, ground arith)

  pub get_object_handler-not_modified :
      (hrange : Option HttpRange) (st st' : World S × Response D)
      → Opens st st'
      → range_of b other_code v f r o st' ≡ (go hrange, st')
      → check_preconditions f.parse_time
          (conditions_of r.header)
          o.last_modified_time
          (codes o.etag)
        ≡ some content_not_modified
      → (w : Response D) × (get_object_handler b other_code v f out r st ≡ (answered, (st'.0, w)))
        × (w.sent ≡ some (500, w.header))
        × (w.written ≡ st'.1.written)
  unfolding get_object_handler
  get_object_handler-not_modified hrange st st' (opens, fresh) ranged refused =
      let answer = refuse_not_modified st'.1 fresh in
      (
        refuse_conditions f r o content_not_modified st'.1,
        bind_go (open_object b other_code v f r) _ o st st' opens
            ∙ bind_go (range_of b other_code v f r o) _ hrange st' st' ranged
            ∙ bind_answered (validate_conditions b other_code v f r o) _ st' _
                (validate_refused content_not_modified st' refused),
        answer.0,
        answer.1,
      )

  sends_bytes :
      (hrange : Option HttpRange) (c : ℕ) (bs : Bytes) (e : Option GetError)
      (st : World S × Response D)
      → send_body b other_code v f r o hrange (sent (c ∷ bs) e) st
        ≡ (answered, (st.0, write (raw (c ∷ bs)) (begin_body f r o hrange st.1)))
  unfolding send_body
  sends_bytes hrange c bs e st = refl

  -- A request that finds an object whose conditions are met, without the key of a source of a copy,
  -- for which `GetObject` writes some bytes: the answer has these bytes for its body, whatever error
  -- comes behind them, with the status 206 where a range is asked for and 200 elsewhere.
  pub get_object_handler-sends :
      (hrange : Option HttpRange) (sse : SseRequest) (c : ℕ) (bs : Bytes) (e : Option GetError)
      (st st' : World S × Response D)
      → Opens st st'
      → range_of b other_code v f r o st' ≡ (go hrange, st')
      → ltb_ℤ (negsuc 0) (begins_at hrange) ≡ true
      → check_preconditions f.parse_time
          (conditions_of r.header)
          o.last_modified_time
          (codes o.etag)
        ≡ none
      → parse_sse_header f.decode_base64 f.md5_base64 r.header ≡ fine sse
      → length sse.copy_source_sse_customer_key ≡ 0
      → get_object out o (first_byte hrange) (byte_count o hrange) sse ≡ sent (c ∷ bs) e
      → (w : Response D) × (get_object_handler b other_code v f out r st ≡ (answered, (st'.0, w)))
        × (w.written ≡ st'.1.written ++ raw (c ∷ bs) ∷ [])
        × IsSent f hrange w
  unfolding get_object_handler
  get_object_handler-sends hrange sse c bs e st st' (opens, fresh) ranged begins met headers no_key
        got =
      let w0 : Response D = set_sse_headers r o st'.1 in
      let w : Response D = write (raw (c ∷ bs)) (begin_body f r o hrange w0) in
      (
        w,
        bind_go (open_object b other_code v f r) _ o st st' opens
            ∙ bind_go (range_of b other_code v f r o) _ hrange st' st' ranged
            ∙ bind_go (validate_conditions b other_code v f r o) _ tt st' st' (validate_met st' met)
            ∙ bind_go (checked r (parse_sse_header f.decode_base64 f.md5_base64 r.header)) _ sse st'
                st' (ap (λ m. checked r m st') headers)
            ∙ bind_go
                (fail_if (not (length sse.copy_source_sse_customer_key == 0)) r
                  (code Errors.invalid_sse_header))
                _ tt st' st' (rw no_key refl)
            ∙ ap (λ s. send_body b other_code v f r o hrange s (st'.0, w0)) got
            ∙ sends_bytes hrange c bs e (st'.0, w0),
        write-written f (raw (c ∷ bs)) r o hrange w0
            ∙ ap (λ l. l ++ raw (c ∷ bs) ∷ []) (written_of (set_sse_headers-bare r o st'.1)),
        write-IsSent f (raw (c ∷ bs)) r o hrange w0
            (sent_of (set_sse_headers-bare r o st'.1) ∙ fresh) begins,
      )
