-- ===== src/Http/Server/Telemetry/Counts.antt =====
-- What is counted of a request to the server, in the telemetry of oas_handlers_gen.go.
use ms_ex.Prelude.{
  ℕ, suc, String, ◌≡◌, refl, ap, arith, Bool, not, ◌&&◌, Option, none, some, List, [], ◌∷◌, ◌++◌,
  ◌==◌, Bool-cases, inl, inr, if◌then◌else◌,
}
use ms_ex.External.{Uuid, Time, Libs}
use ms_ex.Order.Service.{World, Service}
use ms_ex.Http.Config.{Attribute}
use ms_ex.Http.Router.Prefix.{Bytes}
use ms_ex.Http.Router.{Operation, create_order, get_order, cancel_order, pay_order}
use ms_ex.Http.Server.{
  HttpLib, HttpRequest, Outcome, responds, bad_params, bad_request, internal, panicked,
}
use ms_ex.Http.Server.Telemetry.{
  Stage, encode_response, decode_params, decode_request, internal_stage, close_request, Event,
  span_started, header_written, error_counted, request_counted, duration_recorded, span_ended,
  Recorder, Labeler, Surroundings, operation_name, attrs_of, labeler_of, code_attrs, has_body,
  is_decoded, handle_error, encode_header, record_error, stopwatch, fail_at, body_of, close_body,
  observe, observe_create_order_request, observe_get_order_request, observe_pay_order_request,
  observe_cancel_order_request,
}

-- The spans that are started, with their names and attributes.
abbrev pub starts : List Event → List (String × List Attribute)
starts [] = []
starts (span_started name attrs ∷ es) = (name, attrs) ∷ starts es
starts (_ ∷ es) = starts es

abbrev pub ends : List Event → ℕ
ends [] = 0
ends (span_ended ∷ es) = suc (ends es)
ends (_ ∷ es) = ends es

-- The attributes with which a request is counted.
abbrev pub requests : List Event → List (List Attribute)
requests [] = []
requests (request_counted attrs ∷ es) = attrs ∷ requests es
requests (_ ∷ es) = requests es

abbrev pub durations : List Event → List (List Attribute)
durations [] = []
durations (duration_recorded attrs ∷ es) = attrs ∷ durations es
durations (_ ∷ es) = durations es

abbrev pub errors : List Event → ℕ
errors [] = 0
errors (error_counted attrs ∷ es) = suc (errors es)
errors (_ ∷ es) = errors es

-- The status of the last header, or 0; the newest event comes first.
abbrev pub last_header : List Event → ℕ
last_header [] = 0
last_header (header_written status ∷ es) = status
last_header (_ ∷ es) = last_header es

-- The failures of a request: of the handler or of the writing, and of closing the body.
abbrev pub failed : Surroundings → Outcome → ℕ
failed s (responds r) = if s.is_written then 0 else 1
failed s panicked = 0
failed s _ = 1

abbrev pub failures : Surroundings → Operation → Outcome → ℕ → ℕ
failures s op outcome n = if has_body op && is_decoded outcome && not s.is_closed then suc n else n

-- A span is open, `n` errors are counted, and the recorder has the status of the last header.
record Tracks (name : String) (attrs : List Attribute) (t : Recorder) (n : ℕ) : Type 0 where
  started : starts t.events ≡ (name, attrs) ∷ []
  open_span : ends t.events ≡ 0
  uncounted : requests t.events ≡ []
  untimed : durations t.events ≡ []
  counted : errors t.events ≡ n
  last : last_header t.events ≡ t.status

module _ (s : Surroundings) (op : Operation) (name : String) (attrs : List Attribute) where
  record_error-Tracks :
      (labeler : Labeler) (stage : Stage) (t : Recorder) (n : ℕ)
      → Tracks name attrs t n
      → Tracks name attrs (record_error s.new_set labeler stage t) (suc n)
  unfolding record_error
  record_error-Tracks labeler stage t n h = ground (arith, h)

  handle_error-Tracks :
      (answer : Option ℕ) (stage : Stage) (t : Recorder) (n : ℕ)
      → Tracks name attrs t n
      → Tracks name attrs (handle_error (λ stage'. answer) stage t) n
  handle_error-Tracks none stage t n h = h
  handle_error-Tracks (some status) stage t n h = ground (arith, h)

  fail_at-Tracks :
      (stage : Stage) (t : Recorder) (n : ℕ)
      → Tracks name attrs t n
      → Tracks name attrs (fail_at s op stage t) (suc n)
  unfolding fail_at
  fail_at-Tracks stage t n h =
      record_error-Tracks (labeler_of s op) stage _ n
        (handle_error-Tracks (s.error_status stage) stage t n h)

  body_of-Tracks :
      (outcome : Outcome) (t : Recorder)
      → Tracks name attrs t 0
      → Tracks name attrs (body_of s op outcome t) (failed s outcome)
  unfolding body_of
  body_of-Tracks (responds r) t h =
      let written : Tracks name attrs (encode_header r.status t) 0 = ground (arith, h) in
      elim (Bool-cases s.is_written) [
        | inl e ↦ rw (body_of, e) written
        | inr e ↦ rw (body_of, e) (fail_at-Tracks encode_response _ 0 written)
      ]
  body_of-Tracks bad_params t h = fail_at-Tracks decode_params t 0 h
  body_of-Tracks bad_request t h = fail_at-Tracks decode_request t 0 h
  body_of-Tracks (internal e) t h = fail_at-Tracks internal_stage t 0 h
  body_of-Tracks panicked t h = h

  close_body-Tracks :
      (outcome : Outcome) (t : Recorder) (n : ℕ)
      → Tracks name attrs t n
      → Tracks name attrs (close_body s op outcome t) (failures s op outcome n)
  unfolding close_body
  close_body-Tracks outcome t n h =
      elim (Bool-cases (has_body op && is_decoded outcome && not s.is_closed)) [
        | inl e ↦ rw (close_body, e) (record_error-Tracks (labeler_of s op) close_request t n h)
        | inr e ↦ rw (close_body, e) h
      ]

-- The attributes that a request ends up counted with.
abbrev pub counted_attrs : Surroundings → Operation → List Event → List Attribute
counted_attrs s op events = s.new_set (labeler_of s op).attrs ++ code_attrs (last_header events)

-- The telemetry of one request is complete.
pub record IsComplete (s : Surroundings) (op : Operation) (outcome : Outcome) (events : List Event)
    : Type 0 where
  pub started : starts events ≡ (operation_name op, attrs_of s op) ∷ []
  pub ended : ends events ≡ 1
  pub request : requests events ≡ counted_attrs s op events ∷ []
  pub duration : durations events ≡ counted_attrs s op events ∷ []
  pub counted : errors events ≡ failures s op outcome (failed s outcome)

stopwatch-IsComplete :
    (s : Surroundings) (op : Operation) (outcome : Outcome) (t : Recorder)
    → Tracks (operation_name op) (attrs_of s op) t (failures s op outcome (failed s outcome))
    → IsComplete s op outcome (span_ended ∷ (stopwatch s.new_set (labeler_of s op) t).events)
unfolding stopwatch
stopwatch-IsComplete s op outcome t h = elim (Bool-cases (t.status == 0)) [
  | inl e ↦
      rw (stopwatch, e)
        (record {
          started = h.started;
          ended = ap suc h.open_span;
          request = rw (h.uncounted, h.last, e) refl;
          duration = rw (h.untimed, h.last, e) refl;
          counted = h.counted;
        })
  | inr e ↦
      rw (stopwatch, e)
        (record {
          started = h.started;
          ended = ap suc h.open_span;
          request = rw (h.uncounted, h.last, e) refl;
          duration = rw (h.untimed, h.last, e) refl;
          counted = h.counted;
        })
]

observe-IsComplete :
    (s : Surroundings) (op : Operation) (outcome : Outcome)
    → IsComplete s op outcome (observe s op outcome)
unfolding observe
observe-IsComplete s op outcome =
    let name = operation_name op in
    let attrs = attrs_of s op in
    let t : Recorder = record { status = 0; events = span_started name attrs ∷ [] } in
    let opened : Tracks name attrs t 0 = record {
      started = refl;
      open_span = refl;
      uncounted = refl;
      untimed = refl;
      counted = refl;
      last = refl;
    } in
    stopwatch-IsComplete s op outcome (close_body s op outcome (body_of s op outcome t)) (
      close_body-Tracks s op name attrs outcome _ _
        (body_of-Tracks s op name attrs outcome t opened))

-- What the handler does and what it tells agree.
abbrev pub Observed : {W : Type 0} → Surroundings → Operation → Outcome × List Event × W → Type 0
Observed s op (outcome, events, w) = IsComplete s op outcome events

module _ {R : Type 0} (s : Surroundings) (x : HttpLib) (L : Libs) (svc : Service R) where
  -- For each of the four handlers, whatever the request, the stored orders and the services'
  -- answers, a panic included: one span is started and one is ended; the request and its duration
  -- are recorded once, with the status of the last header that was written, if any was; and an
  -- error is counted once for a failure of the decoding, of the service or of the writing, and once
  -- more if the request's body was decoded and cannot be closed.
  pub observe_requests-IsComplete :
      (arg : Bytes) (escaped : Bool) (r : HttpRequest) (id : Uuid) (now : Time) (w : World R)
      → Observed s create_order (observe_create_order_request s x L svc id now r w)
        × (Observed s get_order (observe_get_order_request s x L svc arg escaped w)
            × (Observed s pay_order (observe_pay_order_request s x L svc arg escaped r w)
                × Observed s cancel_order (observe_cancel_order_request s x L svc arg escaped w)))
  unfolding observe_create_order_request observe_get_order_request observe_pay_order_request
      observe_cancel_order_request
  observe_requests-IsComplete arg escaped r id now w = (
    observe-IsComplete s create_order _,
    (
      observe-IsComplete s get_order _,
      (observe-IsComplete s pay_order _, observe-IsComplete s cancel_order _),
    ),
  )
