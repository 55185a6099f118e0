-- ===== src/Observability/Laws.antt =====
-- Which configurations `New` of internal/observability accepts, and what it selects.
use gerbil.Prelude.{
  ℕ, suc, zero, ◌≡◌, ◌≢◌, ◌⊎◌, inl, inr, refl, Bool, true, false, not, ◌&&◌, none, some, [], arith,
  Text, text_beq, text_beq_iff, ℤ, pos, negsuc, lebℤ, Bool-cases, subst, sym,
}
use gerbil.Observability.{
  OtelConfig, MetricsConfig, ConfigError, Selection, validate_otel, validate_backend, validate,
  effective_backend, select_backend, checked, new_backend, prometheus_name, otel_name, none_name,
  grpc_name, http_name,
}

abbrev IsPositive : ℤ → Type 0
IsPositive d = (n : ℕ) × (d ≡ pos (suc n))

-- Settings with an endpoint, a known protocol, and a positive interval and timeout.
pub record IsExportable (otel : OtelConfig) : Type 0 where
  pub has_endpoint : otel.endpoint ≢ []
  pub known_protocol : (otel.protocol ≡ grpc_name) ⊎ (otel.protocol ≡ http_name)
  pub interval : IsPositive otel.export_interval
  pub timeout : IsPositive otel.timeout

-- What `New` is to do with a configuration: metrics that are off or of the backend none are
-- discarded, and the two other backends get their settings.
pub data Selects (c : MetricsConfig) : Selection → Type 0 where
  off : c.enabled ≡ false → Selects c Selection.noop_backend
  discards : c.enabled ≡ true → c.backend ≡ none_name → Selects c Selection.noop_backend
  scrapes :
      c.enabled ≡ true
      → c.backend ≡ prometheus_name
      → Selects c (Selection.prometheus_backend c.prometheus.path)
  exports :
      c.enabled ≡ true
      → c.backend ≡ otel_name
      → IsExportable c.otel
      → Selects c
          (Selection.otel_backend c.otel c.service_name c.service_version c.deployment_environment)

IsPositive-cases :
    (d : ℤ) → ((lebℤ d (pos 0) ≡ false) × IsPositive d) ⊎ ((lebℤ d (pos 0) ≡ true) × ¬ IsPositive d)
IsPositive-cases (pos zero) = inr (refl, λ p. cc (p.1))
IsPositive-cases (pos (suc n)) = inl (ground arith, (n, refl))
IsPositive-cases (negsuc n) = inr (ground arith, λ p. cc (p.1))

beq_cases : (a b : Text) → ((text_beq a b ≡ true) × (a ≡ b)) ⊎ ((text_beq a b ≡ false) × (a ≢ b))
beq_cases a b = elim (Bool-cases (text_beq a b)) [
  | inl same ↦ inl (same, (text_beq_iff a b).0 same)
  | inr other ↦ inr (other, λ e. cc ((text_beq_iff a b).1 e))
]

abbrev bad_protocol : Text → Bool
bad_protocol protocol = not (text_beq protocol grpc_name) && not (text_beq protocol http_name)

protocol_cases :
    (protocol : Text)
    → ((bad_protocol protocol ≡ false) × ((protocol ≡ grpc_name) ⊎ (protocol ≡ http_name)))
      ⊎ ((bad_protocol protocol ≡ true) × ¬ ((protocol ≡ grpc_name) ⊎ (protocol ≡ http_name)))
protocol_cases protocol = elim (beq_cases protocol grpc_name) [
  | inl (b, e) ↦ inl (rw b refl, inl e)
  | inr (b, ne) ↦ elim (beq_cases protocol http_name) [
    | inl (b', e) ↦ inl (rw (b, b') refl, inr e)
    | inr (b', ne') ↦ inr (rw (b, b') refl, λ p. elim p [ inl e ↦ ne e | inr e ↦ ne' e ])
  ]
]

-- The settings are accepted if and only if they are of that kind.
validate_otel_lem :
    (otel : OtelConfig)
    → ((validate_otel otel ≡ none) × IsExportable otel)
      ⊎ ((err : ConfigError) × (validate_otel otel ≡ some err) × ¬ IsExportable otel)
unfolding validate_otel
validate_otel_lem otel = elim (beq_cases otel.endpoint []) [
  | inl (b, e) ↦ inr (ConfigError.empty_endpoint, rw b refl, λ x. x.has_endpoint e)
  | inr (b, ne) ↦ elim (protocol_cases otel.protocol) [
    | inr (bad, un) ↦
        inr (ConfigError.unknown_protocol otel.protocol, rw (b, bad) refl, λ x. un x.known_protocol)
    | inl (good, protocol) ↦ elim (IsPositive-cases otel.export_interval) [
      | inr (i, un) ↦
          inr (ConfigError.export_interval_not_positive, rw (b, good, i) refl, λ x. un x.interval)
      | inl (i, interval) ↦ elim (IsPositive-cases otel.timeout) [
        | inr (j, un) ↦
            inr (ConfigError.timeout_not_positive, rw (b, good, i, j) refl, λ x. un x.timeout)
        | inl (j, timeout) ↦ inl (
          rw (b, good, i, j) refl,
          record {
            has_endpoint = ne;
            known_protocol = protocol;
            interval = interval;
            timeout = timeout;
          },
        )
      ]
    ]
  ]
]

-- A configuration that nothing is selected for.
nothing_selected :
    (c : MetricsConfig)
    → c.enabled ≡ true
    → c.backend ≢ prometheus_name
    → c.backend ≢ none_name
    → (c.backend ≡ otel_name → ¬ IsExportable c.otel)
    → (s : Selection) → ¬ Selects c s
nothing_selected c on np nn un Selection.noop_backend (Selects.off h) = cc
nothing_selected c on np nn un Selection.noop_backend (Selects.discards h e) = nn e
nothing_selected c on np nn un (Selection.prometheus_backend path) (Selects.scrapes h e) = np e
nothing_selected c on np nn un (Selection.otel_backend o a b d) (Selects.exports h e x) = un e x
nothing_selected c on np nn un (Selection.refused err) x = elim x [ ]
nothing_selected c on np nn un (Selection.not_known backend) x = elim x [ ]

-- What the code computes, and what it is to do.
selected :
    (c : MetricsConfig) (s : Selection)
    → new_backend c ≡ s
    → Selects c s
    → Selects c (new_backend c)
selected c s e sel = subst (λ x. Selects c x) (sym e) sel

-- New selects a backend exactly for the configurations that one is meant for, and then that one:
-- the backend that does nothing for metrics that are off or of the backend none, Prometheus with
-- its path, or OpenTelemetry with its settings and service fields, if they have an endpoint, a
-- known protocol, and a positive interval and timeout. For every other configuration it returns
-- an error of Validate; it never comes to the unknown backend of its switch.
pub new_backend_lem :
    (c : MetricsConfig)
    → Selects c (new_backend c)
      ⊎ (((s : Selection) → ¬ Selects c s)
          × (err : ConfigError) × (new_backend c ≡ Selection.refused err))
unfolding new_backend checked validate validate_backend select_backend effective_backend
new_backend_lem c = elim (Bool-cases c.enabled) [
  | inr unset ↦ inl (selected c Selection.noop_backend (rw unset refl) (Selects.off unset))
  | inl on ↦ elim (beq_cases c.backend prometheus_name) [
    | inl (b, e) ↦ inl (selected c _ (rw (on, e) refl) (Selects.scrapes on e))
    | inr (b, np) ↦ elim (beq_cases c.backend none_name) [
      | inl (b', e) ↦ inl (selected c _ (rw (on, e) refl) (Selects.discards on e))
      | inr (b', nn) ↦ elim (beq_cases c.backend otel_name) [
        | inl (b'', e) ↦ elim (validate_otel_lem c.otel) [
          | inl (v, x) ↦ inl (selected c _ (rw (on, e, v) refl) (Selects.exports on e x))
          | inr (err, v, nx) ↦ inr (nothing_selected c on np nn (λ _. nx), err, rw (on, e, v) refl)
        ]
        | inr (b'', ne) ↦ elim (beq_cases c.backend []) [
          | inl (b3, e) ↦ inr (
            nothing_selected c on np nn (λ h. absurd (ne h)),
            ConfigError.empty_backend,
            rw (on, e) refl,
          )
          | inr (b3, nv) ↦ inr (
            nothing_selected c on np nn (λ h. absurd (ne h)),
            ConfigError.unknown_backend c.backend,
            rw (on, b, b', b3, b'') refl,
          )
        ]
      ]
    ]
  ]
]
