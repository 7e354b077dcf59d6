-- ===== src/Http/Config/Options.antt =====
-- The options of oas_cfg_gen.go: each field of a configuration is as the last option for it says.
use ms_ex.Prelude.{
  String, ℤ, pos, leb_ℤ, Option, none, some, List, [], ◌∷◌, ◌≡◌, refl, ◌∙◌, ◌*◌, ◌^◌, ap, arith,
  if◌then◌else◌,
}
use ms_ex.Http.Config.{
  Outside, Attribute, OtelLib, with_tracer_provider, with_meter_provider, with_attributes,
  ServerOption, server_otel, with_not_found, with_method_not_allowed, with_error_handler,
  with_path_prefix, with_middleware, with_max_multipart_memory, ServerConfig, or_else, chained,
  apply_server, apply_servers, apply_otel, init_otel, new_server_config, default_server,
}

-- What a list of options says of a field, in order.
abbrev pub settings : {O A : Type 0} → (O → Option A) → List O → List A
settings says [] = []
settings says (o ∷ os) = elim (says o) [ none ↦ settings says os | some v ↦ v ∷ settings says os ]

abbrev pub last_or : {A : Type 0} → A → List A → A
last_or default [] = default
last_or default (v ∷ vs) = last_or v vs

-- What one option says of a field: nothing, if it is for another field, or leaves this one alone.
abbrev pub tracers_of : ServerOption → Option (Option Outside)
tracers_of (server_otel (with_tracer_provider (some v))) = some (some v)
tracers_of _ = none

abbrev pub meters_of : ServerOption → Option (Option Outside)
meters_of (server_otel (with_meter_provider (some v))) = some (some v)
meters_of _ = none

abbrev pub attributes_of : ServerOption → Option (List Attribute)
attributes_of (server_otel (with_attributes attributes)) = some attributes
attributes_of _ = none

abbrev pub not_found_of : ServerOption → Option Outside
not_found_of (with_not_found v) = v
not_found_of _ = none

abbrev pub method_not_allowed_of : ServerOption → Option (Option Outside)
method_not_allowed_of (with_method_not_allowed (some v)) = some (some v)
method_not_allowed_of _ = none

abbrev pub error_handler_of : ServerOption → Option Outside
error_handler_of (with_error_handler v) = v
error_handler_of _ = none

abbrev pub prefix_of : ServerOption → Option String
prefix_of (with_path_prefix v) = some v
prefix_of _ = none

abbrev pub middleware_of : OtelLib → ServerOption → Option (Option Outside)
middleware_of L (with_middleware ms) = some (chained L ms)
middleware_of L _ = none

abbrev pub memory_of : ServerOption → Option ℤ
memory_of (with_max_multipart_memory max) = if leb_ℤ max (pos 0) then none else some max
memory_of _ = none

-- A field that each option sets as it says is, behind a list of them, as the last one says.
apply_servers-last_or :
    {A : Type 0} (L : OtelLib) (field : ServerConfig → A) (says : ServerOption → Option A)
    (options : List ServerOption) (cfg : ServerConfig)
    → ((o : ServerOption) (c : ServerConfig)
        → field (apply_server L o c) ≡ or_else (says o) (field c))
    → field (apply_servers L options cfg) ≡ last_or (field cfg) (settings says options)
unfolding apply_servers
apply_servers-last_or {A} L field says [] cfg sets = refl
apply_servers-last_or {A} L field says (o ∷ os) cfg sets =
    apply_servers-last_or L field says os (apply_server L o cfg) sets
    ∙ ap (λ v. last_or v (settings says os)) (sets o cfg)
    ∙ said (says o)
  where
    said :
        (s : Option A)
        → last_or (or_else s (field cfg)) (settings says os)
          ≡ last_or (field cfg) (elim s [ none ↦ settings says os | some v ↦ v ∷ settings says os ])
    said none = refl
    said (some v) = refl

-- Each option sets a field as it says.
abbrev Sets : {A : Type 0} → OtelLib → (ServerConfig → A) → (ServerOption → Option A) → Type 0
Sets L field says =
    (o : ServerOption) (c : ServerConfig) → field (apply_server L o c) ≡ or_else (says o) (field c)

module _ (L : OtelLib) where
  tracers_set : Sets L (λ c. c.otel.tracer_provider) tracers_of
  unfolding apply_server apply_otel
  tracers_set o c = ground arith

  meters_set : Sets L (λ c. c.otel.meter_provider) meters_of
  unfolding apply_server apply_otel
  meters_set o c = ground arith

  attributes_set : Sets L (λ c. c.otel.attributes) attributes_of
  unfolding apply_server apply_otel
  attributes_set o c = ground arith

  not_found_set : Sets L (λ c. c.not_found) not_found_of
  unfolding apply_server apply_otel
  not_found_set o c = ground arith

  method_not_allowed_set : Sets L (λ c. c.method_not_allowed) method_not_allowed_of
  unfolding apply_server apply_otel
  method_not_allowed_set o c = ground arith

  error_handler_set : Sets L (λ c. c.error_handler) error_handler_of
  unfolding apply_server apply_otel
  error_handler_set o c = ground arith

  prefix_set : Sets L (λ c. c.prefix) prefix_of
  unfolding apply_server apply_otel
  prefix_set o c = ground arith

  middleware_set : Sets L (λ c. c.middleware) (middleware_of L)
  unfolding apply_server apply_otel
  middleware_set o c = ground arith

  memory_set : Sets L (λ c. c.max_multipart_memory) memory_of
  unfolding apply_server apply_otel
  memory_set o c = ground arith

  last_field :
      {A : Type 0} (field : ServerConfig → A) (says : ServerOption → Option A)
      (options : List ServerOption)
      → Sets L field says
      → field (apply_servers L options (default_server L))
        ≡ last_or (field (default_server L)) (settings says options)
  last_field field says options sets =
      apply_servers-last_or L field says options (default_server L) sets

  -- The provider of the last option for it, or else the global one.
  abbrev pub tracers : List ServerOption → Outside
  tracers options = or_else (last_or none (settings tracers_of options)) L.global_tracer_provider

  abbrev pub meters : List ServerOption → Outside
  meters options = or_else (last_or none (settings meters_of options)) L.global_meter_provider

  -- Whatever options are given in whatever order, each field of the server's configuration is as
  -- the last option for it says, and is the default where there is none; options with nil, and
  -- limits of memory that are not positive, count as none. The tracer and the meter are those of
  -- the providers that are arrived at, which are the global ones where no option gives one.
  pub new_server_config-settings :
      (options : List ServerOption)
      → new_server_config L options ≡ record {
        otel = record {
          tracer_provider = some (tracers options);
          tracer = some (L.provided_tracer (tracers options));
          meter_provider = some (meters options);
          meter = some (L.provided_meter (meters options));
          attributes = last_or [] (settings attributes_of options);
        };
        not_found = last_or L.http_not_found (settings not_found_of options);
        method_not_allowed = last_or none (settings method_not_allowed_of options);
        error_handler = last_or L.default_error_handler (settings error_handler_of options);
        prefix = last_or "" (settings prefix_of options);
        middleware = last_or none (settings (middleware_of L) options);
        max_multipart_memory = last_or (pos (32 * 2 ^ 20)) (settings memory_of options);
      }
  unfolding new_server_config init_otel
  new_server_config-settings options =
      rw
        (
          last_field (λ c. c.otel.tracer_provider) tracers_of options tracers_set,
          last_field (λ c. c.otel.meter_provider) meters_of options meters_set,
          last_field (λ c. c.otel.attributes) attributes_of options attributes_set,
          last_field (λ c. c.not_found) not_found_of options not_found_set,
          last_field (λ c. c.method_not_allowed) method_not_allowed_of options
              method_not_allowed_set,
          last_field (λ c. c.error_handler) error_handler_of options error_handler_set,
          last_field (λ c. c.prefix) prefix_of options prefix_set,
          last_field (λ c. c.middleware) (middleware_of L) options middleware_set,
          last_field (λ c. c.max_multipart_memory) memory_of options memory_set,
        )
        refl
