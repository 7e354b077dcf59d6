-- ===== src/Http/Server/Telemetry.antt =====
-- What the handlers of shared/pkg/openapi/order/v1/oas_handlers_gen.go tell OpenTelemetry of a
-- request, with codeRecorder, and with the Labeler of oas_labeler_gen.go.
pub mod Counts
use ms_ex.Prelude.{
  ℕ, String, Bool, true, false, not, ◌&&◌, ◌||◌, Option, none, some, List, [], ◌∷◌, ◌++◌, ltb, leb,
  ◌==◌, if◌then◌else◌,
}
use ms_ex.External.{Uuid, Time, Libs}
use ms_ex.Order.Service.{World, Service}
use ms_ex.Http.Config.{Attribute, operation_id, request_method, route, response_status_code}
use ms_ex.Http.Router.Prefix.{Bytes}
use ms_ex.Http.Router.{Operation, create_order, get_order, cancel_order, pay_order}
use ms_ex.Http.Server.{
  HttpLib, HttpRequest, Outcome, responds, bad_params, bad_request, internal, panicked,
  handle_get_order_request, handle_create_order_request, handle_pay_order_request,
  handle_cancel_order_request,
}

-- The stages that recordError is called with.
pub data Stage : Type 0 where
  decode_params decode_request internal_stage encode_response close_request : Stage

-- The calls of the span, of the instruments and of the ResponseWriter's WriteHeader. A status of the
-- span has the text of an HTTP status, or a stage.
pub data Event : Type 0 where
  span_started : String → List Attribute → Event
  header_written : ℕ → Event
  status_ok status_error : ℕ → Event
  status_error_at : Stage → Event
  error_recorded : Stage → Event
  error_counted : List Attribute → Event
  span_attributes : List Attribute → Event
  request_counted duration_recorded : List Attribute → Event
  span_ended : Event

-- codeRecorder's status, and the events so far, the newest first.
pub record Recorder : Type 0 where
  pub status : ℕ
  pub events : List Event

abbrev pub emit : Event → Recorder → Recorder
emit e t = record t { events = e ∷ t.events }

-- (*codeRecorder).WriteHeader
abbrev pub write_header : ℕ → Recorder → Recorder
write_header status t = emit (header_written status) (record t { status = status })

-- The names ...Operation.
abbrev pub operation_name : Operation → String
operation_name cancel_order = "CancelOrder"
operation_name create_order = "CreateOrder"
operation_name get_order = "GetOrder"
operation_name pay_order = "PayOrder"

-- otelAttrs, without the configuration's.
abbrev pub otel_attrs : Operation → List Attribute
otel_attrs cancel_order =
    operation_id "cancelOrder"
    ∷ request_method "POST"
    ∷ route "/api/v1/orders/{order_uuid}/cancel"
    ∷ []
otel_attrs create_order =
    operation_id "createOrder" ∷ request_method "POST" ∷ route "/api/v1/orders" ∷ []
otel_attrs get_order =
    operation_id "getOrder" ∷ request_method "GET" ∷ route "/api/v1/orders/{order_uuid}" ∷ []
otel_attrs pay_order =
    operation_id "payOrder" ∷ request_method "POST" ∷ route "/api/v1/orders/{order_uuid}/pay" ∷ []

-- Labeler
pub record Labeler : Type 0 where
  pub attrs : List Attribute

-- (*Labeler).Add
abbrev pub add : List Attribute → Labeler → Labeler
add attrs l = record { attrs = l.attrs ++ attrs }

-- The attribute of a status, if one was written.
abbrev pub code_attrs : ℕ → List Attribute
code_attrs code = if code == 0 then [] else response_status_code code ∷ []

-- `code < 100 || code >= 500`
abbrev pub marks_span : ℕ → Bool
marks_span code = ltb code 100 || leb 500 code

-- `new_set` is attribute.NewSet with ToSlice.
module _ (new_set : List Attribute → List Attribute) (labeler : Labeler) where
  -- recordError
  unfoldable pub record_error : Stage → Recorder → Recorder
  record_error stage t =
      let t₁ = emit (error_recorded stage) t in
      let t₂ = if marks_span t.status then emit (status_error_at stage) t₁ else t₁ in
      emit (error_counted (new_set labeler.attrs ++ code_attrs t.status)) t₂

  -- The deferred function of the stopwatch.
  unfoldable pub stopwatch : Recorder → Recorder
  stopwatch t =
      let attrs = new_set labeler.attrs ++ code_attrs t.status in
      let t₁ = if t.status == 0 then t else emit (span_attributes (code_attrs t.status)) t in
      emit (duration_recorded attrs) (emit (request_counted attrs) t₁)

-- s.cfg.ErrorHandler, by the status that it writes at a stage, if it writes one.
abbrev pub handle_error : (Stage → Option ℕ) → Stage → Recorder → Recorder
handle_error error_status stage t = elim (error_status stage) [
  | none ↦ t
  | some status ↦ write_header status t
]

-- The header that a response is written with, and the span's status.
abbrev pub encode_header : ℕ → Recorder → Recorder
encode_header status t =
    emit (if ltb status 300 then status_ok status else status_error status) (write_header status t)

-- Whether a body was decoded, which is closed at the end.
abbrev pub has_body : Operation → Bool
has_body cancel_order = false
has_body create_order = true
has_body get_order = false
has_body pay_order = true

abbrev pub is_decoded : Outcome → Bool
is_decoded bad_params = false
is_decoded bad_request = false
is_decoded _ = true

-- What the world around a handler brings: the Labeler as the handler of the program leaves it, the
-- error handler, and whether the body of the response can be written and that of the request closed.
pub record Surroundings : Type 0 where
  pub new_set : List Attribute → List Attribute
  pub attributes : List Attribute
  pub labels : List Attribute
  pub error_status : Stage → Option ℕ
  pub is_written : Bool
  pub is_closed : Bool

module _ (s : Surroundings) (op : Operation) where
  abbrev pub attrs_of : List Attribute
  attrs_of = otel_attrs op ++ s.attributes

  abbrev pub labeler_of : Labeler
  labeler_of = add s.labels (record { attrs = attrs_of })

  -- The error handler, and the deferred recordError, which is the first to run.
  unfoldable pub fail_at : Stage → Recorder → Recorder
  unfolding record_error
  fail_at stage t = record_error s.new_set labeler_of stage (handle_error s.error_status stage t)

  -- The body of a handler, by its outcome; a panic leaves it at once.
  unfoldable pub body_of : Outcome → Recorder → Recorder
  unfolding fail_at
  body_of (responds r) t =
      let t₁ = encode_header r.status t in if s.is_written then t₁ else fail_at encode_response t₁
  body_of bad_params t = fail_at decode_params t
  body_of bad_request t = fail_at decode_request t
  body_of (internal e) t = fail_at internal_stage t
  body_of panicked t = t

  -- The deferred call of `close`.
  unfoldable pub close_body : Outcome → Recorder → Recorder
  unfolding record_error
  close_body outcome t =
      if has_body op && is_decoded outcome && not s.is_closed
      then record_error s.new_set labeler_of close_request t
      else t

  -- A handler as a whole: the span is started, and the deferred functions run in reverse order.
  unfoldable pub observe : Outcome → List Event
  unfolding body_of close_body stopwatch
  observe outcome =
      let t : Recorder = record {
        status = 0;
        events = span_started (operation_name op) attrs_of ∷ [];
      } in
      let t₁ = stopwatch s.new_set labeler_of (close_body outcome (body_of outcome t)) in
      span_ended ∷ t₁.events

-- The handlers with their telemetry.
module _ {R : Type 0} (s : Surroundings) (x : HttpLib) (L : Libs) (svc : Service R) where
  abbrev observed : Operation → Outcome × World R → Outcome × List Event × World R
  observed op (outcome, w) = (outcome, observe s op outcome, w)

  unfoldable pub observe_cancel_order_request :
      Bytes → Bool → World R → Outcome × List Event × World R
  unfolding handle_cancel_order_request observe
  observe_cancel_order_request arg escaped w =
      observed cancel_order (handle_cancel_order_request x L svc arg escaped w)

  unfoldable pub observe_create_order_request :
      Uuid → Time → HttpRequest → World R → Outcome × List Event × World R
  unfolding handle_create_order_request observe
  observe_create_order_request id now r w =
      observed create_order (handle_create_order_request x L svc id now r w)

  unfoldable pub observe_get_order_request : Bytes → Bool → World R → Outcome × List Event × World R
  unfolding handle_get_order_request observe
  observe_get_order_request arg escaped w =
      observed get_order (handle_get_order_request x L svc arg escaped w)

  unfoldable pub observe_pay_order_request :
      Bytes → Bool → HttpRequest → World R → Outcome × List Event × World R
  unfolding handle_pay_order_request observe
  observe_pay_order_request arg escaped r w =
      observed pay_order (handle_pay_order_request x L svc arg escaped r w)
