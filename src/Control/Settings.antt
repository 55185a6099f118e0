-- ===== src/Control/Settings.antt =====
-- The settings of main.go: environment variables and command line flags, as `main` reads them. Of
-- the package flag: the last value of a flag counts. Durations are nanoseconds.
pub mod Flags
pub mod Laws
use gerbil.Prelude.{
  Bool, true, false, not, ◌&&◌, ◌||◌, Option, none, some, List, [], ◌∷◌, ◌++◌, if◌then◌else◌, ◌+◌,
  ◌-◌, leb, Text, text_beq, codes, ℤ, pos, atoi,
}
use gerbil.Strings.{equal_fold}
use gerbil.Observability.{MetricsConfig, PrometheusConfig, OtelConfig}

-- os.Getenv: an unset variable is empty.
abbrev pub Environment : Type 0
Environment = Text → Text

-- The flags of the command line with their values, in order.
abbrev pub Given : Type 0
Given = List (Text × Text)

-- How the package flag parses values of the kinds that are not text: int, bool, time.Duration.
pub record FlagParsers : Type 0 where
  pub parse_int : Text → Option ℤ
  pub parse_bool : Text → Option Bool
  pub parse_duration : Text → Option ℤ

pub last_given : Text → Given → Option Text
last_given name [] = none
last_given name ((n, value) ∷ given) = elim (last_given name given) [
  | some later ↦ some later
  | none ↦ if text_beq n name then some value else none
]

unfoldable pub is_empty : Text → Bool
is_empty [] = true
is_empty (c ∷ s) = false

pub or_default : {A : Type 0} → A → Option A → A
or_default default none = default
or_default default (some a) = a

-- A variable whose flag is registered only where the environment is silent.
string_var : Text → Text → Text → Given → Text
unfolding is_empty or_default last_given
string_var value name default given =
    if is_empty value then or_default default (last_given name given) else value

-- A variable whose flag is always registered, with the environment as its default.
overridable : {A : Type 0} → (Text → Option A) → A → Text → Given → A
unfolding or_default last_given
overridable parse value name given =
    or_default value (elim (last_given name given) [ none ↦ none | some text ↦ parse text ])

text_value : Text → Option Text
text_value s = some s

-- strings.ToLower(s) == "true", for ASCII.
is_true : Text → Bool
unfolding equal_fold
is_true s = equal_fold s (codes "true")

-- A number of the environment; where it does not parse, the variable keeps its zero.
int_var : FlagParsers → Text → Text → ℤ → Given → ℤ
unfolding is_empty or_default overridable
int_var parsers value name default given =
    if is_empty value
    then overridable parsers.parse_int default name given
    else or_default (pos 0) (atoi value)

bool_var : FlagParsers → Text → Text → Bool → Given → Bool
unfolding is_empty is_true overridable
bool_var parsers value name default given =
    if is_empty value then overridable parsers.parse_bool default name given else is_true value

-- LOCAL_OVERRIDES: the flag is registered where the variable is set, and its default replaces it.
local_overrides_var : Text → Given → Text
unfolding is_empty or_default last_given
local_overrides_var value given =
    if is_empty value then value else or_default [] (last_given (codes "local-overrides") given)

pub record Settings : Type 0 where
  pub interface_name : Text
  pub config_file : Text
  pub remote_config_url : Text
  pub remote_config_key : Text
  pub listen_addr : Text
  pub generate_and_save_key_to : Text
  pub reachable_at : Text
  pub log_level : Text
  pub mtu : Text
  pub notify_url : Text
  pub sni_proxy_port : ℤ
  pub local_proxy_addr : Text
  pub local_proxy_port : ℤ
  pub local_overrides : Text
  pub trusted_upstreams : Text
  pub proxy_allowed_cidrs : Text
  pub proxy_protocol : Bool
  pub do_traffic_shaping : Bool
  pub disable_firewall : Bool
  pub bandwidth_limit : Text
  pub metrics : MetricsConfig

-- The environment over the default.
env_or : {A : Type 0} → (Text → Option A) → Text → A → A
unfolding is_empty or_default
env_or parse value default = if is_empty value then default else or_default default (parse value)

env_bool : Text → Bool → Bool
unfolding is_empty is_true
env_bool value default = if is_empty value then default else is_true value

metrics_config : FlagParsers → Environment → Given → MetricsConfig
unfolding env_or env_bool overridable text_value
metrics_config parsers env given = record {
  enabled =
      overridable parsers.parse_bool (env_bool (env (codes "METRICS_ENABLED")) true)
        (codes "metrics-enabled") given;
  backend =
      overridable text_value
        (env_or text_value (env (codes "METRICS_BACKEND")) (codes "prometheus"))
        (codes "metrics-backend") given;
  prometheus = record {
    path =
        overridable text_value (env_or text_value (env (codes "METRICS_PATH")) (codes "/metrics"))
          (codes "metrics-path") given;
  };
  otel = record {
    protocol =
        overridable text_value
          (env_or text_value (env (codes "OTEL_METRICS_PROTOCOL")) (codes "grpc"))
          (codes "otel-metrics-protocol") given;
    endpoint =
        overridable text_value
          (env_or text_value (env (codes "OTEL_METRICS_ENDPOINT")) (codes "localhost:4317"))
          (codes "otel-metrics-endpoint") given;
    insecure =
        overridable parsers.parse_bool (env_bool (env (codes "OTEL_METRICS_INSECURE")) true)
          (codes "otel-metrics-insecure") given;
    export_interval =
        overridable parsers.parse_duration
          (env_or parsers.parse_duration (env (codes "OTEL_METRICS_EXPORT_INTERVAL"))
            (pos 60000000000))
          (codes "otel-metrics-export-interval") given;
    timeout =
        overridable parsers.parse_duration
          (env_or parsers.parse_duration (env (codes "OTEL_METRICS_TIMEOUT")) (pos 10000000000))
          (codes "otel-metrics-timeout") given;
  };
  service_name = codes "gerbil";
  service_version = codes "1.0.0";
  deployment_environment = env (codes "DEPLOYMENT_ENVIRONMENT");
}

-- The variables after flag.Parse.
pub read_settings : FlagParsers → Environment → Given → Settings
unfolding string_var int_var bool_var local_overrides_var metrics_config
read_settings parsers env given = record {
  interface_name = string_var (env (codes "INTERFACE")) (codes "interface") (codes "wg0") given;
  config_file = string_var (env (codes "CONFIG")) (codes "config") [] given;
  remote_config_url = string_var (env (codes "REMOTE_CONFIG")) (codes "remoteConfig") [] given;
  remote_config_key =
      string_var (env (codes "REMOTE_CONFIG_SIGNING_KEY")) (codes "remote-config-signing-key") []
        given;
  listen_addr = string_var (env (codes "LISTEN")) (codes "listen") [] given;
  generate_and_save_key_to =
      string_var (env (codes "GENERATE_AND_SAVE_KEY_TO")) (codes "generateAndSaveKeyTo") [] given;
  reachable_at = string_var (env (codes "REACHABLE_AT")) (codes "reachableAt") [] given;
  log_level = string_var (env (codes "LOG_LEVEL")) (codes "log-level") (codes "INFO") given;
  mtu = string_var (env (codes "MTU")) (codes "mtu") (codes "1280") given;
  notify_url = string_var (env (codes "NOTIFY_URL")) (codes "notify") [] given;
  sni_proxy_port = int_var parsers (env (codes "SNI_PORT")) (codes "sni-port") (pos 8443) given;
  local_proxy_addr =
      string_var (env (codes "LOCAL_PROXY")) (codes "local-proxy") (codes "localhost") given;
  local_proxy_port =
      int_var parsers (env (codes "LOCAL_PROXY_PORT")) (codes "local-proxy-port") (pos 443) given;
  local_overrides = local_overrides_var (env (codes "LOCAL_OVERRIDES")) given;
  trusted_upstreams =
      string_var (env (codes "TRUSTED_UPSTREAMS")) (codes "trusted-upstreams") [] given;
  proxy_allowed_cidrs =
      string_var (env (codes "SNI_PROXY_ALLOWED_CIDRS")) (codes "sni-proxy-allowed-cidrs") [] given;
  proxy_protocol =
      bool_var parsers (env (codes "PROXY_PROTOCOL")) (codes "proxy-protocol") true given;
  do_traffic_shaping =
      bool_var parsers (env (codes "DO_TRAFFIC_SHAPING")) (codes "do-traffic-shaping") false given;
  disable_firewall =
      bool_var parsers (env (codes "DISABLE_FIREWALL")) (codes "disable-firewall") false given;
  bandwidth_limit =
      string_var (env (codes "BANDWIDTH_LIMIT")) (codes "bandwidth-limit") (codes "50mbit") given;
  metrics = metrics_config parsers env given;
}
