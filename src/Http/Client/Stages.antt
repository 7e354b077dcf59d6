-- ===== src/Http/Client/Stages.antt =====
-- How far the calls of oas_client_gen.go come, and what they tell OpenTelemetry.
use ms_ex.Prelude.{◌≡◌, refl, Option, none, some, List, [], ◌∷◌, ◌++◌, ◌⊎◌, inl, inr, Option-cases}
use ms_ex.External.{Uuid}
use ms_ex.Http.Schemas.{CreateOrderRequest, PayOrderRequest}
use ms_ex.Http.Config.{Attribute}
use ms_ex.Http.Router.{Operation, create_order, get_order, cancel_order, pay_order, Url}
use ms_ex.Http.Server.{HttpLib}
use ms_ex.Http.Server.Dispatch.{HttpCall}
use ms_ex.Http.Server.Telemetry.{operation_name}
use ms_ex.Http.Responses.{
  HttpResponse, decode_get_order_response, decode_create_order_response, decode_pay_order_response,
  decode_cancel_order_response,
}
use ms_ex.Http.Client.{
  ClientLib, ClientStage, build_url, encode_request, send_request, decode_response, Sent, received,
  failed_at, at_stage, ◌>>=◌, exchange, send_create_order, send_get_order, send_pay_order,
  send_cancel_order,
}
use ms_ex.Http.Client.Telemetry.{
  ClientEvent, request_counted, duration_recorded, error_counted, span_started, error_recorded,
  status_error, span_ended, otel_attrs, observe_sent, observe_send_create_order,
  observe_send_get_order, observe_send_pay_order, observe_send_cancel_order,
}

module _ (attributes : List Attribute) (op : Operation) where
  -- The events of a call that gets its result.
  abbrev pub received_events : List ClientEvent
  received_events =
      let attrs = otel_attrs op ++ attributes in
      request_counted attrs
      ∷ span_started (operation_name op) attrs
      ∷ span_ended
      ∷ duration_recorded attrs
      ∷ []

  -- The events of a call that fails.
  abbrev pub failed_events : ClientStage → List ClientEvent
  failed_events stage =
      let attrs = otel_attrs op ++ attributes in
      request_counted attrs
      ∷ span_started (operation_name op) attrs
      ∷ error_recorded stage
      ∷ status_error stage
      ∷ error_counted attrs
      ∷ span_ended
      ∷ duration_recorded attrs
      ∷ []

-- The ways in which a call ends, by the requests that it sends: none, or one.
pub data Exchanged {A S : Type 0} (attributes : List Attribute) (op : Operation)
    (do_request : HttpCall → S → Option HttpResponse × S) (decode : HttpResponse → Option A) (w : S)
    (p : Sent A × List ClientEvent × S) : Type 0 where
  unsent :
      (stage : ClientStage)
      → (stage ≡ build_url) ⊎ (stage ≡ encode_request)
      → p ≡ (failed_at stage, failed_events attributes op stage, w)
      → Exchanged attributes op do_request decode w p
  unanswered :
      (r : HttpCall)
      → (do_request r w).0 ≡ none
      → p ≡ (failed_at send_request, failed_events attributes op send_request, (do_request r w).1)
      → Exchanged attributes op do_request decode w p
  unread :
      (r : HttpCall) (resp : HttpResponse)
      → (do_request r w).0 ≡ some resp
      → decode resp ≡ none
      → p ≡ (
        failed_at decode_response,
        failed_events attributes op decode_response,
        (do_request r w).1,
      )
      → Exchanged attributes op do_request decode w p
  answered :
      (r : HttpCall) (resp : HttpResponse) (res : A)
      → (do_request r w).0 ≡ some resp
      → decode resp ≡ some res
      → p ≡ (received res, received_events attributes op, (do_request r w).1)
      → Exchanged attributes op do_request decode w p

-- A request that is made, or an error of one of the two first stages.
data IsMade : Sent HttpCall → Type 0 where
  made : (r : HttpCall) → IsMade (received r)
  unmade :
      (stage : ClientStage)
      → (stage ≡ build_url) ⊎ (stage ≡ encode_request)
      → IsMade (failed_at stage)

at_stage-IsMade :
    (stage : ClientStage) (r : Option HttpCall)
    → (stage ≡ build_url) ⊎ (stage ≡ encode_request)
    → IsMade (at_stage stage r)
at_stage-IsMade stage none h = unmade stage h
at_stage-IsMade stage (some r) h = made r

then-IsMade :
    {A : Type 0} (stage : ClientStage) (v : Option A) (f : A → Sent HttpCall)
    → (stage ≡ build_url) ⊎ (stage ≡ encode_request)
    → ((a : A) → IsMade (f a))
    → IsMade (at_stage stage v >>= f)
then-IsMade stage none f h next = unmade stage h
then-IsMade stage (some a) f h next = next a

received-IsMade :
    (m : Sent HttpCall) (f : HttpCall → HttpCall) → IsMade m → IsMade (m >>= λ r. received (f r))
received-IsMade (received r) f h = made (f r)
received-IsMade (failed_at stage) f (unmade s h) = unmade s h

module _ {S : Type 0} (attributes : List Attribute) (x : HttpLib) (c : ClientLib)
    (do_request : HttpCall → S → Option HttpResponse × S) (server_url : Url) where
  abbrev observed : {A : Type 0} → Operation → Sent A × S → Sent A × List ClientEvent × S
  observed op (sent, w) = (sent, observe_sent attributes op sent, w)

  exchange-Exchanged :
      {A : Type 0} (op : Operation) (decode : HttpResponse → Option A) (m : Sent HttpCall) (w : S)
      → IsMade m
      → Exchanged attributes op do_request decode w
          (observed op (exchange x c do_request server_url decode m w))
  unfolding exchange observe_sent
  exchange-Exchanged op decode (failed_at stage) w (unmade s h) = unsent s h refl
  exchange-Exchanged op decode (received r) w h = elim (Option-cases (do_request r w).0) [
    | inl e ↦ unanswered r e (rw e refl)
    | inr (resp, e) ↦ elim (Option-cases (decode resp)) [
      | inl f ↦ unread r resp e f (rw (e, f) refl)
      | inr (res, f) ↦ answered r resp res e f (rw (e, f) refl)
    ]
  ]

  -- Each of the client's four calls ends in one of four ways: with an error at the stage BuildURL
  -- or EncodeRequest, where nothing is sent; with an error at SendRequest, where one request is
  -- sent and has no answer; with an error at DecodeResponse, where it has an answer that cannot be
  -- decoded; or with the decoded answer. The state is what that one request makes of it, and the
  -- request and its duration are always recorded once, the error, with its stage, exactly if there
  -- is one.
  pub observe_send-Exchanged :
      (create : CreateOrderRequest) (pay : PayOrderRequest) (id : Uuid) (w : S)
      → Exchanged attributes create_order do_request
          (decode_create_order_response x)
          w
          (observe_send_create_order attributes x c do_request server_url create w)
        × (Exchanged attributes get_order do_request
              (decode_get_order_response x)
              w
              (observe_send_get_order attributes x c do_request server_url id w)
            × (Exchanged attributes pay_order do_request
                  (decode_pay_order_response x)
                  w
                  (observe_send_pay_order attributes x c do_request server_url pay id w)
                × Exchanged attributes cancel_order do_request
                    (decode_cancel_order_response x)
                    w
                    (observe_send_cancel_order attributes x c do_request server_url id w)))
  unfolding observe_send_create_order observe_send_get_order observe_send_pay_order
      observe_send_cancel_order send_create_order send_get_order send_pay_order send_cancel_order
  observe_send-Exchanged create pay id w = (
    exchange-Exchanged create_order (decode_create_order_response x) _ w
        (received-IsMade _ _ (at_stage-IsMade encode_request _ (inr refl))),
    (
      exchange-Exchanged get_order (decode_get_order_response x) _ w (
          then-IsMade build_url (c.encode_path id) _ (inl refl)
            (λ encoded. at_stage-IsMade encode_request _ (inr refl))),
      (
        exchange-Exchanged pay_order (decode_pay_order_response x) _ w (
            then-IsMade build_url (c.encode_path id) _ (inl refl)
              (λ encoded. received-IsMade _ _ (at_stage-IsMade encode_request _ (inr refl)))),
        exchange-Exchanged cancel_order (decode_cancel_order_response x) _ w (
            then-IsMade build_url (c.encode_path id) _ (inl refl)
              (λ encoded. at_stage-IsMade encode_request _ (inr refl))),
      ),
    ),
  )
