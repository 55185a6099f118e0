-- ===== src/Observability.antt =====
-- The choice of the metrics backend: `MetricsConfig` with its defaults and `Validate`
-- (internal/observability/config.go), and `New` (internal/observability/metrics.go) up to the
-- construction of the backend. Durations are nanoseconds.
pub mod Laws
mod Examples
use gerbil.Prelude.{
  Bool, true, false, not, ◌&&◌, ◌||◌, Option, none, some, List, [], ◌∷◌, if◌then◌else◌, Text, codes,
  text_beq, ℤ, pos, lebℤ,
}

pub record PrometheusConfig : Type 0 where
  pub path : Text

pub record OtelConfig : Type 0 where
  pub protocol : Text
  pub endpoint : Text
  pub insecure : Bool
  pub export_interval : ℤ
  pub timeout : ℤ

pub record MetricsConfig : Type 0 where
  pub enabled : Bool
  pub backend : Text
  pub prometheus : PrometheusConfig
  pub otel : OtelConfig
  pub service_name : Text
  pub service_version : Text
  pub deployment_environment : Text

abbrev pub prometheus_name : Text
prometheus_name = codes "prometheus"

abbrev pub otel_name : Text
otel_name = codes "otel"

abbrev pub none_name : Text
none_name = codes "none"

abbrev pub grpc_name : Text
grpc_name = codes "grpc"

abbrev pub http_name : Text
http_name = codes "http"

abbrev pub default_metrics_config : MetricsConfig
default_metrics_config = record {
  enabled = true;
  backend = prometheus_name;
  prometheus = record { path = codes "/metrics" };
  otel = record {
    protocol = grpc_name;
    endpoint = codes "localhost:4317";
    insecure = true;
    export_interval = pos 60000000000;
    timeout = pos 10000000000;
  };
  service_name = codes "gerbil";
  service_version = codes "1.0.0";
  deployment_environment = [];
}

-- The errors of `Validate`.
pub data ConfigError : Type 0 where
  empty_backend : ConfigError
  empty_endpoint : ConfigError
  unknown_protocol : (protocol : Text) → ConfigError
  export_interval_not_positive : ConfigError
  timeout_not_positive : ConfigError
  unknown_backend : (backend : Text) → ConfigError

pub validate_otel : OtelConfig → Option ConfigError
validate_otel otel =
    if text_beq otel.endpoint []
    then some ConfigError.empty_endpoint
    else if not (text_beq otel.protocol grpc_name) && not (text_beq otel.protocol http_name)
    then some (ConfigError.unknown_protocol otel.protocol)
    else if lebℤ otel.export_interval (pos 0)
    then some ConfigError.export_interval_not_positive
    else if lebℤ otel.timeout (pos 0)
    then some ConfigError.timeout_not_positive
    else none

unfoldable pub validate_backend : MetricsConfig → Option ConfigError
unfolding validate_otel
validate_backend c =
    if text_beq c.backend prometheus_name || text_beq c.backend none_name
    then none
    else if text_beq c.backend []
    then some ConfigError.empty_backend
    else if text_beq c.backend otel_name
    then validate_otel c.otel
    else some (ConfigError.unknown_backend c.backend)

unfoldable pub validate : MetricsConfig → Option ConfigError
unfolding validate_backend
validate c = if not c.enabled then none else validate_backend c

unfoldable pub effective_backend : MetricsConfig → Text
effective_backend c =
    if not c.enabled then none_name else if text_beq c.backend [] then none_name else c.backend

-- What `New` constructs: a Prometheus backend with a path, an OpenTelemetry backend with its settings
-- and the three service fields, or the backend that does nothing; or the errors of `Validate` and of
-- an unknown backend. The errors of the constructors of the backends come later.
pub data Selection : Type 0 where
  refused : (err : ConfigError) → Selection
  prometheus_backend : (path : Text) → Selection
  otel_backend :
      (otel : OtelConfig) (service_name service_version deployment_environment : Text) → Selection
  noop_backend : Selection
  not_known : (backend : Text) → Selection

unfoldable pub select_backend : MetricsConfig → Text → Selection
select_backend c name =
    if text_beq name prometheus_name
    then Selection.prometheus_backend c.prometheus.path
    else if text_beq name otel_name
    then Selection.otel_backend c.otel c.service_name c.service_version c.deployment_environment
    else if text_beq name none_name
    then Selection.noop_backend
    else Selection.not_known name

unfoldable pub checked : MetricsConfig → Option ConfigError → Selection
unfolding select_backend effective_backend
checked c (some err) = Selection.refused err
checked c none = select_backend c (effective_backend c)

unfoldable pub new_backend : MetricsConfig → Selection
unfolding checked validate
new_backend c = checked c (validate c)
