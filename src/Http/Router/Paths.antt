-- ===== src/Http/Router/Paths.antt =====
-- What oas_router_gen.go serves on each path of the API's description, whatever the method.
use ms_ex.Prelude.{
  String, ◌≡◌, refl, sym, ap, ◌∙◌, Bool, ◌∷◌, ◌++◌, [], inl, inr, str_eq, if◌then◌else◌,
}
use mathlib.Core.List.{append-nil}
use ms_ex.Http.Router.Prefix.{Bytes, bytes, NoSlash, case_prefix, index_slash, index_slash-append}
use ms_ex.Http.Router.{
  handle_create_order, handle_get_order, handle_cancel_order, handle_pay_order, not_allowed, allows,
  allows_json, serve_elem, orders_path,
}

pub serve_elem_creates :
    (method : String) (escaped : Bool)
    → serve_elem method escaped orders_path
      ≡ (if str_eq method "POST" then handle_create_order escaped else not_allowed allows_json)
unfolding serve_elem case_prefix
serve_elem_creates method escaped = refl

module _ (method : String) (escaped : Bool) (arg : Bytes) (no_slash : NoSlash arg) where
  pub serve_elem_gets :
      serve_elem method escaped (orders_path ++ (b'/' ∷ arg))
      ≡ (if str_eq method "GET" then handle_get_order arg escaped else not_allowed (allows "GET"))
  unfolding serve_elem case_prefix
  serve_elem_gets =
      rw (ap index_slash (sym (append-nil arg)) ∙ index_slash-append arg [] no_slash (inl refl))
        refl

  pub serve_elem_cancels :
      serve_elem method escaped (orders_path ++ (b'/' ∷ (arg ++ bytes "/cancel"))) ≡ (
        if str_eq method "POST"
        then handle_cancel_order arg escaped
        else not_allowed (allows "POST"))
  unfolding serve_elem case_prefix
  serve_elem_cancels =
      rw (index_slash-append arg (bytes "/cancel") no_slash (inr (bytes "cancel", refl))) refl

  pub serve_elem_pays :
      serve_elem method escaped (orders_path ++ (b'/' ∷ (arg ++ bytes "/pay")))
      ≡ (if str_eq method "POST" then handle_pay_order arg escaped else not_allowed allows_json)
  unfolding serve_elem case_prefix
  serve_elem_pays =
      rw (index_slash-append arg (bytes "/pay") no_slash (inr (bytes "pay", refl))) refl
