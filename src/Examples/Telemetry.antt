-- ===== src/Examples/Telemetry.antt =====
-- The theorems on missing fields, on options and on telemetry of the HTTP layer at concrete inputs.
use ms_ex.Prelude.{
  ℕ, ◌+◌, ◌*◌, ◌^◌, pos, ◌≡◌, refl, true, false, none, some, List, [], ◌∷◌, map, arith,
}
use ms_ex.Http.Schemas.{CreateOrderRequest}
use ms_ex.Http.Router.{create_order, get_order, pay_order, cancel_order}
use ms_ex.Http.Router.Prefix.{bytes}
use ms_ex.Http.Json.{str, JsonObject}
use ms_ex.Http.Json.Enums.{status_of}
use ms_ex.Http.Json.Failures.{missed_loop, ones_count, field_name}
use ms_ex.Http.Json.Failures.Bits.{set_bits, left_over, missed_loop-set_bits}
use ms_ex.Http.Json.Dto as Dto
use ms_ex.Http.Json.Dto.Required.{decode-absent}
use ms_ex.Http.Json.Requests.{
  Reading, read_create, create_field, create_fields, reported, names_of_create, decode_create,
}
use ms_ex.Http.Json.Requests.Required.{decode_create-absent}
use ms_ex.Http.Config.{
  OtelLib, ServerOption, server_otel, with_tracer_provider, with_path_prefix, with_error_handler,
  with_middleware, with_max_multipart_memory, added, new_server_config,
}
use ms_ex.Http.Config.Options.{new_server_config-settings}
use ms_ex.Http.Responses.{
  decode_get_order_response, decode_create_order_response, decode_pay_order_response,
  decode_cancel_order_response,
}
use ms_ex.Http.Server.{HttpRequest}
use ms_ex.Http.Server.Telemetry.{
  Surroundings, observe_create_order_request, observe_get_order_request, observe_pay_order_request,
  observe_cancel_order_request,
}
use ms_ex.Http.Server.Telemetry.Counts.{Observed, observe_requests-IsComplete}
use ms_ex.Http.Client.Telemetry.{
  observe_send_create_order, observe_send_get_order, observe_send_pay_order,
  observe_send_cancel_order,
}
use ms_ex.Http.Client.Stages.{Exchanged, observe_send-Exchanged}
use ms_ex.Examples.Data.{libs, answering, json, by_card, request_of, one_pending}
use ms_ex.Examples.Web.{web, browser, home, transport}

-- A body with no engine.
abbrev only_hull : JsonObject
only_hull = ("hull_uuid", str "x.") ∷ ("comment", str "fast") ∷ []

abbrev hull_read : Reading CreateOrderRequest
hull_read = record { value = record read_create.value { hull_uuid = 1 }; required = 1 }

reads_hull : create_fields json only_hull read_create ≡ some hull_read
unfolding create_fields create_field
reads_hull = refl

decode_create-absent_example :
    (reported names_of_create 0b00000011 hull_read ≡ "engine_uuid" ∷ [])
    × (decode_create json only_hull ≡ none)
decode_create-absent_example = decode_create-absent json only_hull hull_read reads_hull

-- An order with its status alone.
abbrev only_status : JsonObject
only_status = ("status", str "PAID") ∷ []

abbrev status_read : Dto.Decoding
status_read = record { dto = record Dto.zero_dto { status = "PAID" }; required0 = 0; required1 = 1 }

reads_status : Dto.decode_fields json only_status Dto.start ≡ some status_read
unfolding Dto.decode_fields Dto.decode_field status_of
reads_status = refl

decode-absent_example :
    (Dto.dto_failures status_read
      ≡ "order_uuid" ∷ "hull_uuid" ∷ "engine_uuid" ∷ "total_price" ∷ "created_at" ∷ [])
    × (Dto.decode json only_status ≡ none)
decode-absent_example = decode-absent json only_status status_read reads_status

missed_loop-set_bits_example :
    (missed_loop ("code" ∷ "message" ∷ []) 0 (ones_count 8 3) 3
      ≡ map (λ (k : ℕ). field_name ("code" ∷ "message" ∷ []) (0 + k)) (set_bits 8 0 3))
    × (left_over (ones_count 8 3) 3 ≡ 0)
missed_loop-set_bits_example = missed_loop-set_bits ("code" ∷ "message" ∷ []) 0 3 (omega arith)

abbrev otel : OtelLib
otel = record {
  global_tracer_provider = 1;
  global_meter_provider = 2;
  provided_tracer = λ p. p + 100;
  provided_meter = λ p. p + 200;
  instrument = λ i m. m;
  http_not_found = 3;
  default_error_handler = 4;
  http_client = 5;
  chain_middlewares = λ ms. 6;
}

abbrev options : List ServerOption
options =
    server_otel (with_tracer_provider (some 7))
    ∷ with_path_prefix "/old"
    ∷ with_middleware (8 ∷ 9 ∷ [])
    ∷ with_max_multipart_memory (pos 0)
    ∷ with_error_handler none
    ∷ with_path_prefix "/new"
    ∷ server_otel (with_tracer_provider none)
    ∷ []

new_server_config-settings_example : new_server_config otel options ≡ record {
  otel = record {
    tracer_provider = some 7;
    tracer = some 107;
    meter_provider = some 2;
    meter = some 202;
    attributes = [];
  };
  not_found = 3;
  method_not_allowed = none;
  error_handler = 4;
  prefix = "/new";
  middleware = some 6;
  max_multipart_memory = pos (32 * 2 ^ 20);
}
new_server_config-settings_example = new_server_config-settings otel options

-- An error handler that answers with 400 to what cannot be decoded; the response cannot be written.
abbrev surroundings : Surroundings
surroundings = record {
  new_set = λ attrs. attrs;
  attributes = added "service" "order" ∷ [];
  labels = [];
  error_status = λ stage. some 400;
  is_written = false;
  is_closed = true;
}

abbrev posted : HttpRequest
posted = record {
  media_type = some "application/json";
  content_length = pos 24;
  body = some (bytes "{}");
}

observe_requests-IsComplete_example :
    Observed surroundings create_order
      (observe_create_order_request surroundings web libs answering 9 5 posted one_pending)
    × (Observed surroundings get_order
          (observe_get_order_request surroundings web libs answering (bytes "7") false one_pending)
        × (Observed surroundings pay_order (
              observe_pay_order_request surroundings web libs answering
                (bytes "7")
                false
                posted
                one_pending)
            × Observed surroundings cancel_order (
                observe_cancel_order_request surroundings web libs answering
                  (bytes "7")
                  false
                  one_pending)))
observe_requests-IsComplete_example =
    observe_requests-IsComplete surroundings web libs answering (bytes "7") false posted 9 5
      one_pending

observe_send-Exchanged_example :
    Exchanged [] create_order transport
      (decode_create_order_response web)
      one_pending
      (observe_send_create_order [] web browser transport home (request_of 1) one_pending)
    × (Exchanged [] get_order transport
          (decode_get_order_response web)
          one_pending
          (observe_send_get_order [] web browser transport home 7 one_pending)
        × (Exchanged [] pay_order transport
              (decode_pay_order_response web)
              one_pending
              (observe_send_pay_order [] web browser transport home by_card 7 one_pending)
            × Exchanged [] cancel_order transport
                (decode_cancel_order_response web)
                one_pending
                (observe_send_cancel_order [] web browser transport home 7 one_pending)))
observe_send-Exchanged_example =
    observe_send-Exchanged [] web browser transport home (request_of 1) by_card 7 one_pending
