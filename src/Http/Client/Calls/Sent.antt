-- ===== src/Http/Client/Calls/Sent.antt =====
-- The requests that the client (oas_client_gen.go) makes, and what oas_router_gen.go serves for them.
use ms_ex.Prelude.{String, ◌≡◌, refl, ◌∙◌, true, false, some, List, inr, ◌⊎◌, All}
use ms_ex.Http.Router.Prefix.{Bytes, bytes}
use ms_ex.Http.Router.{Url, Served, serve_elem, serve_http}
use ms_ex.Http.Json.{JsonObject}
use ms_ex.Http.Server.{HttpLib}
use ms_ex.Http.Server.Dispatch.{HttpCall}
use ms_ex.Http.Client.{ClientLib}
use ms_ex.Http.Client.Calls.{
  ClientLaws, serve_http-serve_elem, IsPlain, is_plain_all, is_plain_all-IsPlain, join,
}

pub IsPlain-bytes : (text : String) → is_plain_all (bytes text) ≡ true → IsPlain (bytes text)
IsPlain-bytes text h = is_plain_all-IsPlain (bytes text) h

module _ (x : HttpLib) (c : ClientLib) (prefix : Bytes) (server_url : Url)
    (laws : ClientLaws x c prefix server_url) where
  -- The client's request for a path of plain parts reaches what the router serves there.
  pub requested :
      (method : String) (parts : List Bytes) (served : Served)
      → (method ≡ "GET") ⊎ (method ≡ "POST")
      → All IsPlain parts
      → serve_elem method false (join parts) ≡ served
      → (r : HttpCall) × (c.new_request method (c.add_path_parts server_url parts) ≡ some r)
        × (serve_http x.escapes prefix r.method r.url ≡ served)
  requested method parts served known plain serves =
      let (r, made, m, u) = laws.requested method (c.add_path_parts server_url parts) known in
      (
        r,
        made,
        rw (m, u)
            (serve_http-serve_elem x prefix (join parts) method _ (laws.joined parts plain)
              ∙ serves),
      )

  -- The same, for a POST with a body.
  pub posts :
      (parts : List Bytes) (served : Served) (fields : JsonObject)
      → All IsPlain parts
      → serve_elem "POST" false (join parts) ≡ served
      → (r : HttpCall) × (c.new_request "POST" (c.add_path_parts server_url parts) ≡ some r)
        × (serve_http x.escapes prefix
              (c.set_body r (c.encode_object fields) "application/json").method
              (c.set_body r (c.encode_object fields) "application/json").url
            ≡ served)
  posts parts served fields plain serves =
      let (r, made, routed) = requested "POST" parts served (inr refl) plain serves in
      (
        r,
        made,
        rw (laws.body_method r (c.encode_object fields), laws.body_url r (c.encode_object fields))
            routed,
      )
