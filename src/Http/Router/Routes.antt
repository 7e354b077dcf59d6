-- ===== src/Http/Router/Routes.antt =====
-- The paths that the generated router accepts, against the paths of the API's description.
use ms_ex.Prelude.{
  String, ◌≡◌, ◌≢◌, ◌↔◌, refl, sym, ap, subst, ◌∙◌, Bool, Option, none, some, [], ◌∷◌, ◌++◌, arith,
  ◌⊎◌, inl, inr, str_eq_iff, Option-cases,
}
use mathlib.Core.List.{append-nil}
use ms_ex.Http.Router.Prefix.{
  Bytes, bytes, NoSlash, case_prefix, case_prefix-some, index_slash, index_slash-append,
  index_slash_split,
}
use ms_ex.Http.Router.{
  NotAllowedParams, Served, handle_create_order, handle_get_order, handle_cancel_order,
  handle_pay_order, not_allowed, not_found, serve_elem, create_order, get_order, cancel_order,
  pay_order, Route, orders_path, find_action, find_order, find_orders, find_elem,
}

-- The paths of the description: /api/v1/orders, then /{order_uuid}, then /cancel or /pay, each with
-- its method. An id is what stands between two slashes, also if it is empty.
pub data Matches (method : String) (elem : Bytes) (route : Route) : Type 0 where
  creates :
      method ≡ "POST"
      → elem ≡ orders_path
      → route ≡ record { operation = create_order; args = [] }
      → Matches method elem route
  gets :
      (arg : Bytes)
      → NoSlash arg
      → method ≡ "GET"
      → elem ≡ orders_path ++ (b'/' ∷ arg)
      → route ≡ record { operation = get_order; args = arg ∷ [] }
      → Matches method elem route
  cancels :
      (arg : Bytes)
      → NoSlash arg
      → method ≡ "POST"
      → elem ≡ orders_path ++ (b'/' ∷ (arg ++ bytes "/cancel"))
      → route ≡ record { operation = cancel_order; args = arg ∷ [] }
      → Matches method elem route
  pays :
      (arg : Bytes)
      → NoSlash arg
      → method ≡ "POST"
      → elem ≡ orders_path ++ (b'/' ∷ (arg ++ bytes "/pay"))
      → route ≡ record { operation = pay_order; args = arg ∷ [] }
      → Matches method elem route

find_elem_complete :
    (method : String) (elem : Bytes) {route : Route}
    → Matches method elem route
    → find_elem method elem ≡ some route
unfolding find_elem case_prefix
find_elem_complete method elem (creates m e r) = rw (m, e, r) refl
find_elem_complete method elem (gets arg h m e r) =
    rw (m, e, r, ap index_slash (sym (append-nil arg)) ∙ index_slash-append arg [] h (inl refl))
      refl
find_elem_complete method elem (cancels arg h m e r) =
    rw (m, e, r, index_slash-append arg (bytes "/cancel") h (inr (bytes "cancel", refl))) refl
find_elem_complete method elem (pays arg h m e r) =
    rw (m, e, r, index_slash-append arg (bytes "/pay") h (inr (bytes "pay", refl))) refl

-- What ServeHTTP serves, as a route.
abbrev pub served_route : Served → Option Route
served_route (handle_create_order escaped) = some (record { operation = create_order; args = [] })
served_route (handle_get_order arg escaped) =
    some (record { operation = get_order; args = arg ∷ [] })
served_route (handle_cancel_order arg escaped) =
    some (record { operation = cancel_order; args = arg ∷ [] })
served_route (handle_pay_order arg escaped) =
    some (record { operation = pay_order; args = arg ∷ [] })
served_route (not_allowed params) = none
served_route not_found = none

-- Behind the prefix, ServeHTTP calls a handler exactly where FindPath finds the route of that
-- handler, and with the argument of that route.
pub served_route-serve_elem :
    (method : String) (escaped : Bool) (elem : Bytes)
    → served_route (serve_elem method escaped elem) ≡ find_elem method elem
unfolding serve_elem find_elem
served_route-serve_elem method escaped elem = ground arith

-- The last step of a path: the action behind the id.
record ActionFound (method : String) (arg elem : Bytes) (route : Route) : Type 0 where
  posted : method ≡ "POST"
  which :
      ((elem ≡ bytes "cancel") × (route ≡ record { operation = cancel_order; args = arg ∷ [] }))
      ⊎ ((elem ≡ bytes "pay") × (route ≡ record { operation = pay_order; args = arg ∷ [] }))

find_action_sound :
    (method : String) (arg elem : Bytes) {route : Route}
    → find_action method arg elem ≡ some route
    → ActionFound method arg elem route
unfolding find_action
find_action_sound method arg elem {route} h = record {
  posted = ground (arith, h, str_eq_iff method "POST");
  which = ground (
    arith,
    h,
    case_prefix-some b'c' (bytes "cancel") elem {rest = []},
    case_prefix-some b'p' (bytes "pay") elem {rest = []},
  );
}

find_order_sound :
    (method : String) (arg rest : Bytes) {route : Route}
    → NoSlash arg
    → find_order method arg rest ≡ some route
    → Matches method (orders_path ++ (b'/' ∷ (arg ++ rest))) route
unfolding find_order
find_order_sound method arg [] no_slash h =
    gets arg no_slash (ground (arith, h, str_eq_iff method "GET"))
      (ap (λ x. orders_path ++ (b'/' ∷ x)) (append-nil arg)) (ground (arith, h))
find_order_sound method arg (b ∷ bs) {route} no_slash h =
    elim (Option-cases (case_prefix b'/' (bytes "/") (b ∷ bs))) [
      | inl miss ↦ cc (rw (miss, find_order) at h)
      | inr (elem, hit) ↦
          acted elem (case_prefix-some b'/' (bytes "/") (b ∷ bs) hit)
            (find_action_sound method arg elem (subst Found hit h))
    ]
  where
    Found : Option Bytes → Type 0
    Found o = elim o [ none ↦ none | some elem ↦ find_action method arg elem ] ≡ some route

    acted :
        (elem : Bytes)
        → b ∷ bs ≡ bytes "/" ++ elem
        → ActionFound method arg elem route
        → Matches method (orders_path ++ (b'/' ∷ (arg ++ b ∷ bs))) route
    acted elem e a = elim a.which [
      | inl (e', r) ↦
          cancels arg no_slash a.posted
            (ap (λ x. orders_path ++ (b'/' ∷ (arg ++ x))) (e ∙ ap (λ x. b'/' ∷ x) e')) r
      | inr (e', r) ↦
          pays arg no_slash a.posted
            (ap (λ x. orders_path ++ (b'/' ∷ (arg ++ x))) (e ∙ ap (λ x. b'/' ∷ x) e')) r
    ]

find_orders_sound :
    (method : String) (rest : Bytes) {route : Route}
    → find_orders method rest ≡ some route
    → Matches method (orders_path ++ rest) route
unfolding find_orders
find_orders_sound method [] h =
    creates (ground (arith, h, str_eq_iff method "POST")) refl (ground (arith, h))
find_orders_sound method (b ∷ bs) {route} h =
    elim (Option-cases (case_prefix b'/' (bytes "/") (b ∷ bs))) [
      | inl miss ↦ cc (rw (miss, find_orders) at h)
      | inr (elem, hit) ↦
          let e = case_prefix-some b'/' (bytes "/") (b ∷ bs) hit in
          let (split, no_slash, at) = index_slash_split elem in
          subst (λ x. Matches method (orders_path ++ x) route) (sym (e ∙ ap (λ x. b'/' ∷ x) split))
            (find_order_sound method (index_slash elem).0 (index_slash elem).1 no_slash
              (subst Found hit h))
    ]
  where
    Found : Option Bytes → Type 0
    Found o =
        elim o [
          | none ↦ none
          | some elem ↦ find_order method (index_slash elem).0 (index_slash elem).1
        ]
        ≡ some route

find_elem_sound :
    (method : String) (elem : Bytes) {route : Route}
    → find_elem method elem ≡ some route
    → Matches method elem route
unfolding find_elem
find_elem_sound method elem {route} h = elim (Option-cases (case_prefix b'/' orders_path elem)) [
  | inl miss ↦ cc (rw (miss, find_elem) at h)
  | inr (rest, hit) ↦
      subst (λ x. Matches method x route) (sym (case_prefix-some b'/' orders_path elem hit))
        (find_orders_sound method rest (subst Found hit h))
]
  where
    Found : Option Bytes → Type 0
    Found o = elim o [ none ↦ none | some rest ↦ find_orders method rest ] ≡ some route

-- Behind the prefix, FindPath finds a route for a method and a path exactly if it is one of the
-- four operations of the API's description with that method and that path, and the argument is then
-- what stands between the slashes.
pub find_elem_iff :
    (method : String) (elem : Bytes) (route : Route)
    → (find_elem method elem ≡ some route) ↔ Matches method elem route
find_elem_iff method elem route = (find_elem_sound method elem, find_elem_complete method elem)

allowed_found :
    (method : String) (params : NotAllowedParams) (escaped : Bool) (elem : Bytes)
    → serve_elem method escaped elem ≡ not_allowed params
    → (method ≢ params.allowed_methods) × (find_elem params.allowed_methods elem ≢ none)
unfolding serve_elem find_elem
allowed_found method params escaped elem h = (
  λ e. ground (arith, h, e, str_eq_iff method "GET", str_eq_iff method "POST"),
  λ e. ground (
    arith,
    h,
    e,
    str_eq_iff params.allowed_methods "GET",
    str_eq_iff params.allowed_methods "POST",
  ),
)

-- If ServeHTTP answers that the method is not allowed, the method it names is not the one that was
-- used, and is one that the API's description has for that path.
pub not_allowed_methods :
    (method : String) (params : NotAllowedParams) (escaped : Bool) (elem : Bytes)
    → serve_elem method escaped elem ≡ not_allowed params
    → (method ≢ params.allowed_methods)
      × ((route : Route) × Matches params.allowed_methods elem route)
not_allowed_methods method params escaped elem h =
    let (other, found) = allowed_found method params escaped elem h in
    elim (Option-cases (find_elem params.allowed_methods elem)) [
      | inl missing ↦ absurd (found missing)
      | inr (route, hit) ↦ (other, (route, find_elem_sound params.allowed_methods elem hit))
    ]
