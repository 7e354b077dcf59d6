-- ===== src/Http/Client/Telemetry.antt =====
-- What the calls of shared/pkg/openapi/order/v1/oas_client_gen.go tell OpenTelemetry.
use ms_ex.Prelude.{String, Option, List, [], ◌∷◌, ◌++◌}
use ms_ex.External.{Uuid}
use ms_ex.Http.Schemas.{
  CreateOrderRequest, PayOrderRequest, GetOrderRes, CreateOrderRes, PayOrderRes, CancelOrderRes,
}
use ms_ex.Http.Config.{Attribute, operation_id, request_method, url_template}
use ms_ex.Http.Router.{Operation, create_order, get_order, cancel_order, pay_order}
use ms_ex.Http.Router.{Url}
use ms_ex.Http.Server.{HttpLib}
use ms_ex.Http.Server.Dispatch.{HttpCall}
use ms_ex.Http.Responses.{HttpResponse}
use ms_ex.Http.Server.Telemetry.{operation_name}
use ms_ex.Http.Client.{
  ClientLib, ClientStage, Sent, received, failed_at, send_create_order, send_get_order,
  send_pay_order, send_cancel_order,
}

-- The calls of the span and of the instruments.
pub data ClientEvent : Type 0 where
  request_counted duration_recorded error_counted : List Attribute → ClientEvent
  span_started : String → List Attribute → ClientEvent
  error_recorded status_error : ClientStage → ClientEvent
  span_ended : ClientEvent

-- otelAttrs, without the configuration's.
abbrev pub otel_attrs : Operation → List Attribute
otel_attrs cancel_order =
    operation_id "cancelOrder"
    ∷ request_method "POST"
    ∷ url_template "/api/v1/orders/{order_uuid}/cancel"
    ∷ []
otel_attrs create_order =
    operation_id "createOrder" ∷ request_method "POST" ∷ url_template "/api/v1/orders" ∷ []
otel_attrs get_order =
    operation_id "getOrder" ∷ request_method "GET" ∷ url_template "/api/v1/orders/{order_uuid}" ∷ []
otel_attrs pay_order =
    operation_id "payOrder"
    ∷ request_method "POST"
    ∷ url_template "/api/v1/orders/{order_uuid}/pay"
    ∷ []

module _ (attributes : List Attribute) (op : Operation) where
  -- The deferred function that looks at `err`.
  abbrev report : {A : Type 0} → Sent A → List ClientEvent
  report (received v) = []
  report (failed_at stage) =
      error_recorded stage ∷ status_error stage ∷ error_counted (otel_attrs op ++ attributes) ∷ []

  -- The events of a call, in order; the deferred functions run in reverse order.
  unfoldable pub observe_sent : {A : Type 0} → Sent A → List ClientEvent
  observe_sent sent =
      let attrs = otel_attrs op ++ attributes in
      request_counted attrs
      ∷ span_started (operation_name op) attrs
      ∷ (report sent ++ (span_ended ∷ duration_recorded attrs ∷ []))

-- The calls with their telemetry.
module _ {S : Type 0} (attributes : List Attribute) (x : HttpLib) (c : ClientLib)
    (do_request : HttpCall → S → Option HttpResponse × S) (server_url : Url) where
  abbrev observed : {A : Type 0} → Operation → Sent A × S → Sent A × List ClientEvent × S
  observed op (sent, w) = (sent, observe_sent attributes op sent, w)

  unfoldable pub observe_send_cancel_order : Uuid → S → Sent CancelOrderRes × List ClientEvent × S
  unfolding send_cancel_order observe_sent
  observe_send_cancel_order id w =
      observed cancel_order (send_cancel_order x c do_request server_url id w)

  unfoldable pub observe_send_create_order :
      CreateOrderRequest → S → Sent CreateOrderRes × List ClientEvent × S
  unfolding send_create_order observe_sent
  observe_send_create_order req w =
      observed create_order (send_create_order x c do_request server_url req w)

  unfoldable pub observe_send_get_order : Uuid → S → Sent GetOrderRes × List ClientEvent × S
  unfolding send_get_order observe_sent
  observe_send_get_order id w = observed get_order (send_get_order x c do_request server_url id w)

  unfoldable pub observe_send_pay_order :
      PayOrderRequest → Uuid → S → Sent PayOrderRes × List ClientEvent × S
  unfolding send_pay_order observe_sent
  observe_send_pay_order req id w =
      observed pay_order (send_pay_order x c do_request server_url req id w)
