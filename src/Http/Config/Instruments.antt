-- ===== src/Http/Config/Instruments.antt =====
-- The servers and clients that oas_server_gen.go and oas_client_gen.go make of a configuration
-- (oas_cfg_gen.go), with their instruments.
use ms_ex.Prelude.{ℕ, Option, some, List, [], ◌∷◌, ◌==◌, if◌then◌else◌}
use ms_ex.Http.Router.Prefix.{Bytes}
use ms_ex.Http.Router.{Url}
use ms_ex.Http.Json.{◌>>=◌}
use ms_ex.Http.Config.{
  Outside, OtelLib, server_request_count_counter, server_errors_count_counter,
  server_duration_histogram, client_request_count_counter, client_errors_count_counter,
  client_duration_histogram, ServerOption, ClientOption, ServerConfig, ClientConfig,
  new_server_config, new_client_config, or_else,
}

-- The instruments of a baseServer and of a baseClient, with the configuration.
pub record Base (C : Type 0) : Type 0 where
  pub cfg : C
  pub requests : Outside
  pub errors : Outside
  pub duration : Outside

-- (serverConfig).baseServer; `none` is an error.
unfoldable pub base_server : OtelLib → ServerConfig → Option (Base ServerConfig)
base_server L cfg = L.instrument server_request_count_counter cfg.otel.meter >>= λ requests.
    L.instrument server_errors_count_counter cfg.otel.meter >>= λ errors.
    L.instrument server_duration_histogram cfg.otel.meter >>= λ duration.
    some (record { cfg = cfg; requests = requests; errors = errors; duration = duration })

-- (clientConfig).baseClient; `none` is an error.
unfoldable pub base_client : OtelLib → ClientConfig → Option (Base ClientConfig)
base_client L cfg = L.instrument client_request_count_counter cfg.otel.meter >>= λ requests.
    L.instrument client_errors_count_counter cfg.otel.meter >>= λ errors.
    L.instrument client_duration_histogram cfg.otel.meter >>= λ duration.
    some (record { cfg = cfg; requests = requests; errors = errors; duration = duration })

-- NewServer, without the handler that it stores.
unfoldable pub new_server : OtelLib → List ServerOption → Option (Base ServerConfig)
unfolding new_server_config base_server
new_server L options = base_server L (new_server_config L options)

-- strings.TrimRight(bs, "/")
unfoldable trim_right : Bytes → Bytes
trim_right [] = []
trim_right (b ∷ bs) = keep b (trim_right bs)
  where
    keep : ℕ → Bytes → Bytes
    keep b [] = if b == b'/' then [] else b ∷ []
    keep b (c ∷ cs) = b ∷ c ∷ cs

unfoldable pub trim_trailing_slashes : Url → Url
unfolding trim_right
trim_trailing_slashes u = record u { path = trim_right u.path; raw_path = trim_right u.raw_path }

-- NewClient: `parsed` is url.Parse of the server's URL.
unfoldable pub new_client :
    OtelLib → Option Url → List ClientOption → Option (Url × Base ClientConfig)
unfolding new_client_config base_client trim_trailing_slashes
new_client L parsed options = parsed >>= λ u.
    base_client L (new_client_config L options) >>= λ c. some (trim_trailing_slashes u, c)

-- requestURL: `overridden` is the URL that WithServerURL has put into the context, if any.
abbrev pub request_url : Url → Option Url → Url
request_url server_url overridden = or_else overridden server_url
