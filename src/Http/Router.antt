-- ===== src/Http/Router.antt =====
-- shared/pkg/openapi/order/v1/oas_router_gen.go: ServeHTTP up to the call of an operation's handler,
-- and FindPath. Paths are bytes.
pub mod Prefix
pub mod Routes
pub mod Paths
use Prim.Native.Char.{code}
use ms_ex.Prelude.{
  ℕ, String, Bool, true, false, Option, none, some, List, [], ◌∷◌, ◌==◌, str_eq, if◌then◌else◌,
  ◌||◌,
}
use ms_ex.Http.Router.Prefix.{Bytes, bytes, case_prefix, index_slash}

-- r.URL: Path and RawPath, "" where there is none.
pub record Url : Type 0 where
  pub path : Bytes
  pub raw_path : Bytes

-- uri.NormalizeEscapedPath and url.PathUnescape, `none` where they report failure.
pub record Escapes : Type 0 where
  pub normalize_escaped_path : Bytes → Option Bytes
  pub path_unescape : Bytes → Option Bytes

-- notAllowedParams of oas_cfg_gen.go; a nil map is an empty one.
pub record NotAllowedParams : Type 0 where
  pub allowed_methods : String
  pub allowed_headers : List (String × String)
  pub accept_post : String
  pub accept_patch : String

abbrev pub allows : String → NotAllowedParams
allows methods = record {
  allowed_methods = methods;
  allowed_headers = [];
  accept_post = "";
  accept_patch = "";
}

-- With rn4AllowedHeaders, rn6AllowedHeaders.
abbrev pub allows_json : NotAllowedParams
allows_json = record {
  allowed_methods = "POST";
  allowed_headers = ("POST", "Content-Type") ∷ [];
  accept_post = "application/json";
  accept_patch = "";
}

-- What ServeHTTP calls: a handler with its path argument and whether the path is escaped, or
-- notAllowed with its parameters, or notFound.
pub data Served : Type 0 where
  handle_create_order : Bool → Served
  handle_get_order handle_cancel_order handle_pay_order : Bytes → Bool → Served
  not_allowed : NotAllowedParams → Served
  not_found : Served

-- strings.ContainsRune(elem, '%')
unfoldable pub contains_percent : Bytes → Bool
contains_percent [] = false
contains_percent (b ∷ bs) = b == b'%' || contains_percent bs

-- s.cutPrefix: `prefix` is the configured one.
unfoldable pub cut_prefix : Bytes → Bytes → Option Bytes
cut_prefix [] path = some path
cut_prefix (b ∷ bs) path = Prefix.strip_prefix (b ∷ bs) path

-- The leaves "/cancel" and "/pay", from the byte behind the slash on.
unfoldable pub serve_action : String → Bytes → Bool → Bytes → Served
serve_action method arg escaped elem = elim (case_prefix b'c' (bytes "cancel") elem) [
  | some [] ↦
      if str_eq method "POST" then handle_cancel_order arg escaped else not_allowed (allows "POST")
  | some (_ ∷ _) ↦ not_found
  | none ↦ elim (case_prefix b'p' (bytes "pay") elem) [
    | some [] ↦
        if str_eq method "POST" then handle_pay_order arg escaped else not_allowed allows_json
    | some (_ ∷ _) ↦ not_found
    | none ↦ not_found
  ]
]

-- Behind the order's id.
unfoldable pub serve_order : String → Bytes → Bool → Bytes → Served
unfolding serve_action
serve_order method arg escaped [] =
    if str_eq method "GET" then handle_get_order arg escaped else not_allowed (allows "GET")
serve_order method arg escaped (b ∷ bs) = elim (case_prefix b'/' (bytes "/") (b ∷ bs)) [
  | none ↦ not_found
  | some elem ↦ serve_action method arg escaped elem
]

-- Behind "/api/v1/orders".
unfoldable pub serve_orders : String → Bool → Bytes → Served
unfolding serve_order
serve_orders method escaped [] =
    if str_eq method "POST" then handle_create_order escaped else not_allowed allows_json
serve_orders method escaped (b ∷ bs) = elim (case_prefix b'/' (bytes "/") (b ∷ bs)) [
  | none ↦ not_found
  | some elem ↦ let (arg, rest) = index_slash elem in serve_order method arg escaped rest
]

abbrev pub orders_path : Bytes
orders_path = bytes "/api/v1/orders"

-- The switch, on the path without the configured prefix.
unfoldable pub serve_elem : String → Bool → Bytes → Served
unfolding serve_orders
serve_elem method escaped elem = elim (case_prefix b'/' orders_path elem) [
  | none ↦ not_found
  | some rest ↦ serve_orders method escaped rest
]

-- The path to route on, and whether it is escaped.
unfoldable pub request_elem : Escapes → Url → Bytes × Bool
unfolding contains_percent
request_elem x url = choose url.raw_path
  where
    normalized : Option Bytes → Bytes × Bool
    normalized none = (url.path, false)
    normalized (some elem) = (elem, contains_percent elem)

    choose : Bytes → Bytes × Bool
    choose [] = (url.path, false)
    choose (b ∷ bs) = normalized (x.normalize_escaped_path (b ∷ bs))

unfoldable pub serve_http : Escapes → Bytes → String → Url → Served
unfolding request_elem cut_prefix serve_elem
serve_http x prefix method url =
    let (elem, escaped) = request_elem x url in
    elim (cut_prefix prefix elem) [ none ↦ not_found | some rest ↦ serve_elem method escaped rest ]

pub data Operation : Type 0 where
  create_order get_order cancel_order pay_order : Operation

-- The Route that FindPath fills in: the operation with its names, and the arguments.
pub record Route : Type 0 where
  pub operation : Operation
  pub args : List Bytes

unfoldable pub find_action : String → Bytes → Bytes → Option Route
find_action method arg elem = elim (case_prefix b'c' (bytes "cancel") elem) [
  | some [] ↦
      if str_eq method "POST"
      then some (record { operation = cancel_order; args = arg ∷ [] })
      else none
  | some (_ ∷ _) ↦ none
  | none ↦ elim (case_prefix b'p' (bytes "pay") elem) [
    | some [] ↦
        if str_eq method "POST"
        then some (record { operation = pay_order; args = arg ∷ [] })
        else none
    | some (_ ∷ _) ↦ none
    | none ↦ none
  ]
]

unfoldable pub find_order : String → Bytes → Bytes → Option Route
unfolding find_action
find_order method arg [] =
    if str_eq method "GET" then some (record { operation = get_order; args = arg ∷ [] }) else none
find_order method arg (b ∷ bs) = elim (case_prefix b'/' (bytes "/") (b ∷ bs)) [
  | none ↦ none
  | some elem ↦ find_action method arg elem
]

unfoldable pub find_orders : String → Bytes → Option Route
unfolding find_order
find_orders method [] =
    if str_eq method "POST" then some (record { operation = create_order; args = [] }) else none
find_orders method (b ∷ bs) = elim (case_prefix b'/' (bytes "/") (b ∷ bs)) [
  | none ↦ none
  | some elem ↦ let (arg, rest) = index_slash elem in find_order method arg rest
]

unfoldable pub find_elem : String → Bytes → Option Route
unfolding find_orders
find_elem method elem = elim (case_prefix b'/' orders_path elem) [
  | none ↦ none
  | some rest ↦ find_orders method rest
]

-- The deferred unescaping of the arguments, where the URL has a RawPath.
unfoldable pub unescape_args : Escapes → List Bytes → List Bytes
unescape_args x [] = []
unescape_args x (arg ∷ args) =
    elim (x.path_unescape arg) [ none ↦ arg | some unescaped ↦ unescaped ] ∷ unescape_args x args

unfoldable pub find_path : Escapes → Bytes → String → Url → Option Route
unfolding request_elem cut_prefix find_elem unescape_args
find_path x prefix method url =
    finish url.raw_path (elim (cut_prefix prefix (request_elem x url).0) [
      | none ↦ none
      | some rest ↦ find_elem method rest
    ])
  where
    finish : Bytes → Option Route → Option Route
    finish raw none = none
    finish [] (some route) = some route
    finish (b ∷ bs) (some route) = some (record route { args = unescape_args x route.args })
