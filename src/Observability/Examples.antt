-- ===== src/Observability/Examples.antt =====
-- Configurations of internal/observability.
use gerbil.Prelude.{◌≡◌, ◌⊎◌, refl, codes}
use gerbil.Observability.{
  MetricsConfig, ConfigError, Selection, default_metrics_config, otel_name, new_backend, checked,
  validate, validate_backend, validate_otel, select_backend, effective_backend,
}
use gerbil.Observability.Laws.{Selects, new_backend_lem}
use gerbil.Prelude.{pos}

-- The defaults select Prometheus.
default_run : new_backend default_metrics_config ≡ Selection.prometheus_backend (codes "/metrics")
unfolding new_backend checked validate validate_backend select_backend effective_backend
default_run = refl

-- OpenTelemetry that would never export.
abbrev silent : MetricsConfig
silent = record default_metrics_config {
  backend = otel_name;
  otel = record default_metrics_config.otel { export_interval = pos 0 };
}

silent_run : new_backend silent ≡ Selection.refused ConfigError.export_interval_not_positive
unfolding new_backend checked validate validate_backend validate_otel
silent_run = refl

new_backend_lem_example :
    Selects silent (new_backend silent)
    ⊎ (((s : Selection) → ¬ Selects silent s)
        × (err : ConfigError) × (new_backend silent ≡ Selection.refused err))
new_backend_lem_example = new_backend_lem silent
