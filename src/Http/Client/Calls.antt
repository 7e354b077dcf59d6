-- ===== src/Http/Client/Calls.antt =====
-- A call of the client (oas_client_gen.go) that reaches the server (oas_router_gen.go and
-- oas_handlers_gen.go).
pub mod Sendable
pub mod Handled
pub mod Sent
pub mod Replies
pub mod Stored
use ms_ex.Prelude.{
  ℕ, String, pos, ◌≡◌, refl, arith, ap, ◌∙◌, true, false, Bool, Option, none, some, List, [], ◌∷◌,
  ◌++◌, ◌⊎◌, All, length, leb, ◌&&◌, ◌||◌, ◌==◌,
}
use ms_ex.External.{Uuid, Time, Libs}
use ms_ex.Order.Service.{World, Service}
use ms_ex.Http.Router.Prefix.{Bytes, bytes, NoSlash, strip_prefix-append}
use ms_ex.Http.Router.{Served, not_found, Url, request_elem, cut_prefix, serve_elem, serve_http}
use ms_ex.Http.Json.{JsonObject}
use ms_ex.Http.Encoders.{Response}
use ms_ex.Http.Server.{HttpLib, nonempty, responds, decode_order_uuid}
use ms_ex.Http.Server.Dispatch.{HttpCall, Answer, handled, serve}
use ms_ex.Http.Responses.{HttpResponse}
use ms_ex.Http.Responses.RoundTrip.{Delivered}
use ms_ex.Http.Client.{ClientLib}

-- The bytes that need no escaping in a path here: digits, letters, '-' and '/'.
abbrev pub is_plain : ℕ → Bool
is_plain b =
    leb b'0' b && leb b b'9'
    || leb b'a' b && leb b b'z'
    || leb b'A' b && leb b b'Z'
    || b == b'-'
    || b == b'/'

abbrev pub IsPlain : Bytes → Type 0
IsPlain = All (λ b. is_plain b ≡ true)

abbrev pub is_plain_all : Bytes → Bool
is_plain_all [] = true
is_plain_all (b ∷ bs) = is_plain b && is_plain_all bs

pub is_plain_all-IsPlain : (bs : Bytes) → is_plain_all bs ≡ true → IsPlain bs
is_plain_all-IsPlain [] h = tt
is_plain_all-IsPlain (b ∷ bs) h = (ground (arith, h), is_plain_all-IsPlain bs (ground (arith, h)))

abbrev pub join : List Bytes → Bytes
join [] = []
join (part ∷ parts) = part ++ join parts

-- The request that the server reads is the one that the client made: its method, its URL and its
-- body. Paths of plain bytes are joined and need no escaping; `prefix` is the path of the client's
-- server URL.
pub record ClientLaws (x : HttpLib) (c : ClientLib) (prefix : Bytes) (server_url : Url)
    : Type 0 where
  pub requested :
      (method : String) (url : Url)
      → (method ≡ "GET") ⊎ (method ≡ "POST")
      → (r : HttpCall) × (c.new_request method url ≡ some r) × (r.method ≡ method) × (r.url ≡ url)
  pub body_method :
      (r : HttpCall) (bs : Bytes) → (c.set_body r bs "application/json").method ≡ r.method
  pub body_url : (r : HttpCall) (bs : Bytes) → (c.set_body r bs "application/json").url ≡ r.url
  pub body_type :
      (r : HttpCall) (bs : Bytes)
      → (c.set_body r bs "application/json").request.media_type ≡ some "application/json"
  pub body_length :
      (r : HttpCall) (bs : Bytes)
      → (c.set_body r bs "application/json").request.content_length ≡ pos (length bs)
  pub body_read :
      (r : HttpCall) (bs : Bytes) → (c.set_body r bs "application/json").request.body ≡ some bs
  pub joined :
      (parts : List Bytes)
      → All IsPlain parts
      → request_elem x.escapes (c.add_path_parts server_url parts) ≡ (prefix ++ join parts, false)

-- The path argument that an id is written as is read as it.
pub record IsReadId (x : HttpLib) (c : ClientLib) (id : Uuid) (encoded : Bytes) : Type 0 where
  pub written : c.encode_path id ≡ some encoded
  pub plain : IsPlain encoded
  pub no_slash : NoSlash encoded
  pub some_byte : nonempty encoded ≡ some encoded
  pub read : x.to_uuid encoded ≡ some id

-- The bytes that an object is written as are read as it; they are not empty.
pub record IsReadObject (x : HttpLib) (c : ClientLib) (fields : JsonObject) : Type 0 where
  pub some_byte : nonempty (c.encode_object fields) ≡ some (c.encode_object fields)
  pub read : x.parse_object (c.encode_object fields) ≡ some fields

-- The client gets the response that the server wrote.
pub record Delivers (x : HttpLib) (deliver : Answer → Option HttpResponse) (r : Response)
    : Type 0 where
  pub resp : HttpResponse
  pub received : deliver (handled (responds r)) ≡ some resp
  pub same : Delivered x r resp

cut_prefix-append : (prefix rest : Bytes) → cut_prefix prefix (prefix ++ rest) ≡ some rest
unfolding cut_prefix
cut_prefix-append [] rest = refl
cut_prefix-append (b ∷ prefix) rest = strip_prefix-append (b ∷ prefix) rest

pub serve_http-serve_elem :
    (x : HttpLib) (prefix elem : Bytes) (method : String) (url : Url)
    → request_elem x.escapes url ≡ (prefix ++ elem, false)
    → serve_http x.escapes prefix method url ≡ serve_elem method false elem
unfolding serve_http
serve_http-serve_elem x prefix elem method url h =
    ap (λ p. served p.1 (cut_prefix prefix p.0)) h
    ∙ ap (served false) (cut_prefix-append prefix elem)
  where
    served : Bool → Option Bytes → Served
    served escaped none = not_found
    served escaped (some rest) = serve_elem method escaped rest

pub decode_order_uuid_read :
    (x : HttpLib) (c : ClientLib) (id : Uuid) (encoded : Bytes)
    → IsReadId x c id encoded
    → decode_order_uuid x encoded false ≡ some id
unfolding decode_order_uuid
decode_order_uuid_read x c id encoded h = rw (h.some_byte, h.read) refl

-- A transport that hands each request to the server, and its answer back to the client.
unfoldable pub over_server :
    {R : Type 0}
    → HttpLib
    → (String → String)
    → Libs
    → Service R
    → Bytes
    → Uuid
    → Time
    → (Answer → Option HttpResponse)
    → HttpCall
    → World R
    → Option HttpResponse × World R
over_server x to_upper L svc prefix id now deliver call w =
    let (a, w') = serve x to_upper L svc prefix id now call w in (deliver a, w')
