-- ===== src/Http/Server/Dispatch.antt =====
-- ServeHTTP of shared/pkg/openapi/order/v1/oas_router_gen.go as a whole: the path is routed, and the
-- handler runs. notAllowed is that of oas_cfg_gen.go, with no handler of it configured.
use ms_ex.Prelude.{
  ℕ, String, ◌≡◌, refl, Bool, Option, none, some, List, [], ◌∷◌, ◌++◌, str_eq, if◌then◌else◌,
}
use ms_ex.External.{Uuid, Time, Libs}
use ms_ex.Order.Service.{World, Service}
use ms_ex.Http.Router.Prefix.{Bytes}
use ms_ex.Http.Router.Routes.{Matches, creates, gets, cancels, pays}
use ms_ex.Http.Router.Paths.{
  serve_elem_creates, serve_elem_gets, serve_elem_cancels, serve_elem_pays,
}
use ms_ex.Http.Router.{
  NotAllowedParams, allows, allows_json, Route, Url, Served, handle_create_order, handle_get_order,
  handle_cancel_order, handle_pay_order, not_allowed, not_found, serve_elem, serve_http,
}
use ms_ex.Http.Server.{
  HttpLib, HttpRequest, Outcome, handle_get_order_request, handle_cancel_order_request,
  handle_create_order_request, handle_pay_order_request,
}

-- The headers that are set, in order, and the status; there is no body.
pub record Refusal : Type 0 where
  pub headers : List (String × String)
  pub status : ℕ

-- m[k] on a map from strings to strings.
unfoldable find_header : List (String × String) → String → Option String
find_header [] name = none
find_header ((k, v) ∷ rest) name = if str_eq k name then some v else find_header rest name

abbrev set_if : String → String → List (String × String)
set_if name v = if str_eq v "" then [] else (name, v) ∷ []

abbrev set_found : Option String → List (String × String)
set_found none = []
set_found (some v) = ("Access-Control-Allow-Headers", v) ∷ []

-- The headers that notAllowed sets for OPTIONS behind the first; `requested` is the header
-- Access-Control-Request-Method, and `to_upper` is strings.ToUpper.
unfoldable pub preflight_headers :
    (String → String) → String → NotAllowedParams → List (String × String)
unfolding find_header
preflight_headers to_upper requested params =
    (if str_eq requested ""
      then []
      else set_found (find_header params.allowed_headers (to_upper requested)))
    ++ (set_if "Accept-Post" params.accept_post ++ set_if "Accept-Patch" params.accept_patch)

-- notAllowed
unfoldable pub refuse : (String → String) → String → String → NotAllowedParams → Refusal
unfolding preflight_headers
refuse to_upper method requested params =
    if str_eq method "OPTIONS"
    then record {
      headers =
          ("Access-Control-Allow-Methods", params.allowed_methods)
          ∷ preflight_headers to_upper requested params;
      status = 204;
    }
    else record { headers = ("Allow", params.allowed_methods) ∷ []; status = 405 }

-- A request as the server reads it.
pub record HttpCall : Type 0 where
  pub method : String
  pub url : Url
  pub requested_method : String
  pub request : HttpRequest

-- How ServeHTTP ends.
pub data Answer : Type 0 where
  handled : Outcome → Answer
  refused : Refusal → Answer
  absent : Answer

module _ {R : Type 0} (x : HttpLib) (to_upper : String → String) (L : Libs) (svc : Service R) where
  unfoldable pub dispatch : Uuid → Time → HttpCall → Served → World R → Answer × World R
  unfolding refuse
  dispatch id now call (handle_create_order escaped) w =
      let (a, w') = handle_create_order_request x L svc id now call.request w in (handled a, w')
  dispatch id now call (handle_get_order arg escaped) w =
      let (a, w') = handle_get_order_request x L svc arg escaped w in (handled a, w')
  dispatch id now call (handle_cancel_order arg escaped) w =
      let (a, w') = handle_cancel_order_request x L svc arg escaped w in (handled a, w')
  dispatch id now call (handle_pay_order arg escaped) w =
      let (a, w') = handle_pay_order_request x L svc arg escaped call.request w in (handled a, w')
  dispatch id now call (not_allowed params) w =
      (refused (refuse to_upper call.method call.requested_method params), w)
  dispatch id now call not_found w = (absent, w)

  -- ServeHTTP, for an order server with the prefix `prefix`.
  unfoldable pub serve : Bytes → Uuid → Time → HttpCall → World R → Answer × World R
  unfolding dispatch
  serve prefix id now call w =
      dispatch id now call (serve_http x.escapes prefix call.method call.url) w

-- A preflight request is answered with the method, and with what a call by it may carry.
abbrev pub IsPreflight : (String → String) → String → String → Served → Type 0
IsPreflight to_upper requested method served =
    (params : NotAllowedParams) × (served ≡ not_allowed params)
    × (refuse to_upper "OPTIONS" requested params ≡ record {
      headers =
          ("Access-Control-Allow-Methods", method) ∷ preflight_headers to_upper requested params;
      status = 204;
    })

-- On every path of the API's description, a request with the method OPTIONS is not handled but
-- refused, with the status 204 and with the method of that path as the first header set.
pub serve_elem-IsPreflight :
    (to_upper : String → String) (requested method : String) (escaped : Bool) (elem : Bytes)
    (route : Route)
    → Matches method elem route
    → IsPreflight to_upper requested method (serve_elem "OPTIONS" escaped elem)
unfolding refuse
serve_elem-IsPreflight to_upper requested method escaped elem route (creates m e r) =
    (allows_json, rw e (serve_elem_creates "OPTIONS" escaped), rw m refl)
serve_elem-IsPreflight to_upper requested method escaped elem route (gets arg h m e r) =
    (allows "GET", rw e (serve_elem_gets "OPTIONS" escaped arg h), rw m refl)
serve_elem-IsPreflight to_upper requested method escaped elem route (cancels arg h m e r) =
    (allows "POST", rw e (serve_elem_cancels "OPTIONS" escaped arg h), rw m refl)
serve_elem-IsPreflight to_upper requested method escaped elem route (pays arg h m e r) =
    (allows_json, rw e (serve_elem_pays "OPTIONS" escaped arg h), rw m refl)
