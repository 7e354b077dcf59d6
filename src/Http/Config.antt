-- ===== src/Http/Config.antt =====
-- shared/pkg/openapi/order/v1/oas_cfg_gen.go, with NewServer of oas_server_gen.go: the options of the
-- server and of the client, and the instruments of the two.
pub mod Instruments
pub mod Options
use ms_ex.Prelude.{
  ℕ, String, ℤ, pos, Bool, leb_ℤ, ◌*◌, ◌^◌, Option, none, some, List, [], ◌∷◌, ◌==◌, if◌then◌else◌,
}
use ms_ex.Http.Router.Prefix.{Bytes}
use ms_ex.Http.Router.{Url}
use ms_ex.Http.Json.{◌>>=◌}

-- A value of a package outside, such as a provider of tracers, a handler or a middleware: only which
-- one it is matters here.
abbrev pub Outside : Type 0
Outside = ℕ

-- attribute.KeyValue: what the generated code makes, and what the program adds.
pub data Attribute : Type 0 where
  operation_id request_method route url_template : String → Attribute
  response_status_code : ℕ → Attribute
  added : String → String → Attribute

-- otelConfig
pub record OtelConfig : Type 0 where
  pub tracer_provider : Option Outside
  pub tracer : Option Outside
  pub meter_provider : Option Outside
  pub meter : Option Outside
  pub attributes : List Attribute

-- The functions of otelogen that make an instrument.
pub data Instrument : Type 0 where
  server_request_count_counter server_errors_count_counter server_duration_histogram : Instrument
  client_request_count_counter client_errors_count_counter client_duration_histogram : Instrument

-- What initOTEL, newServerConfig and newClientConfig call or name in the packages outside;
-- `instrument` makes an instrument from a meter, or reports an error.
pub record OtelLib : Type 0 where
  pub global_tracer_provider : Outside
  pub global_meter_provider : Outside
  pub provided_tracer : Outside → Outside
  pub provided_meter : Outside → Outside
  pub instrument : Instrument → Option Outside → Option Outside
  pub http_not_found : Outside
  pub default_error_handler : Outside
  pub http_client : Outside
  pub chain_middlewares : List Outside → Outside

abbrev pub or_else : {A : Type 0} → Option A → A → A
or_else none default = default
or_else (some v) default = v

-- `if v != nil { field = v }`
abbrev pub if_not_nil : {A : Type 0} → Option A → Option A → Option A
if_not_nil none field = field
if_not_nil (some v) field = some v

-- initOTEL
unfoldable pub init_otel : OtelLib → OtelConfig → OtelConfig
init_otel L cfg =
    let tracers = or_else cfg.tracer_provider L.global_tracer_provider in
    let meters = or_else cfg.meter_provider L.global_meter_provider in
    record cfg {
      tracer_provider = some tracers;
      meter_provider = some meters;
      tracer = some (L.provided_tracer tracers);
      meter = some (L.provided_meter meters);
    }

-- serverConfig
pub record ServerConfig : Type 0 where
  pub otel : OtelConfig
  pub not_found : Outside
  pub method_not_allowed : Option Outside
  pub error_handler : Outside
  pub prefix : String
  pub middleware : Option Outside
  pub max_multipart_memory : ℤ

-- clientConfig
pub record ClientConfig : Type 0 where
  pub otel : OtelConfig
  pub client : Outside

-- The results of the functions With..., with their arguments: Option, ServerOption and ClientOption.
-- `none` is the argument nil.
pub data OtelOption : Type 0 where
  with_tracer_provider : Option Outside → OtelOption
  with_meter_provider : Option Outside → OtelOption
  with_attributes : List Attribute → OtelOption

pub data ServerOption : Type 0 where
  server_otel : OtelOption → ServerOption
  with_not_found : Option Outside → ServerOption
  with_method_not_allowed : Option Outside → ServerOption
  with_error_handler : Option Outside → ServerOption
  with_path_prefix : String → ServerOption
  with_middleware : List Outside → ServerOption
  with_max_multipart_memory : ℤ → ServerOption

pub data ClientOption : Type 0 where
  client_otel : OtelOption → ClientOption
  with_client : Option Outside → ClientOption

-- otelOptionFunc on the options that the server and the client share
unfoldable pub apply_otel : OtelOption → OtelConfig → OtelConfig
apply_otel (with_tracer_provider v) cfg = record cfg {
  tracer_provider = if_not_nil v cfg.tracer_provider;
}
apply_otel (with_meter_provider v) cfg = record cfg {
  meter_provider = if_not_nil v cfg.meter_provider;
}
apply_otel (with_attributes attributes) cfg = record cfg { attributes = attributes }

-- The switch of WithMiddleware.
abbrev pub chained : OtelLib → List Outside → Option Outside
chained L [] = none
chained L (m ∷ []) = some m
chained L (m ∷ m' ∷ ms) = some (L.chain_middlewares (m ∷ m' ∷ ms))

-- applyServer
unfoldable pub apply_server : OtelLib → ServerOption → ServerConfig → ServerConfig
unfolding apply_otel
apply_server L (server_otel option) cfg = record cfg { otel = apply_otel option cfg.otel }
apply_server L (with_not_found v) cfg = record cfg { not_found = or_else v cfg.not_found }
apply_server L (with_method_not_allowed v) cfg = record cfg {
  method_not_allowed = if_not_nil v cfg.method_not_allowed;
}
apply_server L (with_error_handler v) cfg = record cfg {
  error_handler = or_else v cfg.error_handler;
}
apply_server L (with_path_prefix v) cfg = record cfg { prefix = v }
apply_server L (with_middleware ms) cfg = record cfg { middleware = chained L ms }
apply_server L (with_max_multipart_memory max) cfg = record cfg {
  max_multipart_memory = if leb_ℤ max (pos 0) then cfg.max_multipart_memory else max;
}

-- applyClient
unfoldable pub apply_client : ClientOption → ClientConfig → ClientConfig
unfolding apply_otel
apply_client (client_otel option) cfg = record cfg { otel = apply_otel option cfg.otel }
apply_client (with_client v) cfg = record cfg { client = or_else v cfg.client }

abbrev pub zero_otel : OtelConfig
zero_otel = record {
  tracer_provider = none;
  tracer = none;
  meter_provider = none;
  meter = none;
  attributes = [];
}

-- The configuration that newServerConfig starts from: 32 << 20 bytes are 32 MB.
abbrev pub default_server : OtelLib → ServerConfig
default_server L = record {
  otel = zero_otel;
  not_found = L.http_not_found;
  method_not_allowed = none;
  error_handler = L.default_error_handler;
  prefix = "";
  middleware = none;
  max_multipart_memory = pos (32 * 2 ^ 20);
}

abbrev pub default_client : OtelLib → ClientConfig
default_client L = record { otel = zero_otel; client = L.http_client }

-- The loop over the options.
unfoldable pub apply_servers : OtelLib → List ServerOption → ServerConfig → ServerConfig
unfolding apply_server
apply_servers L [] cfg = cfg
apply_servers L (option ∷ options) cfg = apply_servers L options (apply_server L option cfg)

unfoldable pub apply_clients : List ClientOption → ClientConfig → ClientConfig
unfolding apply_client
apply_clients [] cfg = cfg
apply_clients (option ∷ options) cfg = apply_clients options (apply_client option cfg)

-- newServerConfig
unfoldable pub new_server_config : OtelLib → List ServerOption → ServerConfig
unfolding apply_servers init_otel
new_server_config L options =
    let cfg = apply_servers L options (default_server L) in
    record cfg { otel = init_otel L cfg.otel }

-- newClientConfig
unfoldable pub new_client_config : OtelLib → List ClientOption → ClientConfig
unfolding apply_clients init_otel
new_client_config L options =
    let cfg = apply_clients options (default_client L) in record cfg { otel = init_otel L cfg.otel }
