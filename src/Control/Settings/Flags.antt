-- ===== src/Control/Settings/Flags.antt =====
-- The flags that main.go registers, and what flag.Parse accepts of a command line.
use gerbil.Prelude.{
  Bool, true, false, not, ◌&&◌, Option, none, some, List, [], ◌∷◌, if◌then◌else◌, Text, text_beq,
  codes,
}
use gerbil.Control.Settings.{Environment, Given, FlagParsers, Settings, is_empty, read_settings}

pub data FlagKind : Type 0 where
  text_flag : FlagKind
  int_flag : FlagKind
  bool_flag : FlagKind
  duration_flag : FlagKind

abbrev pub Registered : Type 0
Registered = List (Text × FlagKind)

-- When a flag is registered, as its variable of the environment says.
pub data When : Type 0 where
  always : When
  is_unset : (variable : Text) → When
  is_set : (variable : Text) → When

pub record Row : Type 0 where
  pub flag : Text
  pub kind : FlagKind
  pub when : When

abbrev row : Text → FlagKind → When → Row
row flag kind when = record { flag = flag; kind = kind; when = when }

-- The calls of `flag.StringVar` and its like in main.
abbrev pub flag_rows : List Row
flag_rows =
    row (codes "interface") FlagKind.text_flag (When.is_unset (codes "INTERFACE"))
    ∷ row (codes "config") FlagKind.text_flag (When.is_unset (codes "CONFIG"))
    ∷ row (codes "remoteConfig") FlagKind.text_flag (When.is_unset (codes "REMOTE_CONFIG"))
    ∷ row (codes "remote-config-signing-key") FlagKind.text_flag
        (When.is_unset (codes "REMOTE_CONFIG_SIGNING_KEY"))
    ∷ row (codes "listen") FlagKind.text_flag (When.is_unset (codes "LISTEN"))
    ∷ row (codes "reportBandwidthTo") FlagKind.text_flag When.always
    ∷ row (codes "generateAndSaveKeyTo") FlagKind.text_flag
        (When.is_unset (codes "GENERATE_AND_SAVE_KEY_TO"))
    ∷ row (codes "reachableAt") FlagKind.text_flag (When.is_unset (codes "REACHABLE_AT"))
    ∷ row (codes "log-level") FlagKind.text_flag (When.is_unset (codes "LOG_LEVEL"))
    ∷ row (codes "mtu") FlagKind.text_flag (When.is_unset (codes "MTU"))
    ∷ row (codes "notify") FlagKind.text_flag (When.is_unset (codes "NOTIFY_URL"))
    ∷ row (codes "sni-port") FlagKind.int_flag (When.is_unset (codes "SNI_PORT"))
    ∷ row (codes "local-proxy") FlagKind.text_flag (When.is_unset (codes "LOCAL_PROXY"))
    ∷ row (codes "local-proxy-port") FlagKind.int_flag (When.is_unset (codes "LOCAL_PROXY_PORT"))
    ∷ row (codes "local-overrides") FlagKind.text_flag (When.is_set (codes "LOCAL_OVERRIDES"))
    ∷ row (codes "trusted-upstreams") FlagKind.text_flag (When.is_unset (codes "TRUSTED_UPSTREAMS"))
    ∷ row (codes "sni-proxy-allowed-cidrs") FlagKind.text_flag
        (When.is_unset (codes "SNI_PROXY_ALLOWED_CIDRS"))
    ∷ row (codes "proxy-protocol") FlagKind.bool_flag (When.is_unset (codes "PROXY_PROTOCOL"))
    ∷ row (codes "do-traffic-shaping") FlagKind.bool_flag
        (When.is_unset (codes "DO_TRAFFIC_SHAPING"))
    ∷ row (codes "disable-firewall") FlagKind.bool_flag (When.is_unset (codes "DISABLE_FIREWALL"))
    ∷ row (codes "bandwidth-limit") FlagKind.text_flag (When.is_unset (codes "BANDWIDTH_LIMIT"))
    ∷ row (codes "metrics-enabled") FlagKind.bool_flag When.always
    ∷ row (codes "metrics-backend") FlagKind.text_flag When.always
    ∷ row (codes "metrics-path") FlagKind.text_flag When.always
    ∷ row (codes "otel-metrics-protocol") FlagKind.text_flag When.always
    ∷ row (codes "otel-metrics-endpoint") FlagKind.text_flag When.always
    ∷ row (codes "otel-metrics-insecure") FlagKind.bool_flag When.always
    ∷ row (codes "otel-metrics-export-interval") FlagKind.duration_flag When.always
    ∷ row (codes "otel-metrics-timeout") FlagKind.duration_flag When.always
    ∷ []

unfoldable pub is_registered : Environment → When → Bool
unfolding is_empty
is_registered env When.always = true
is_registered env (When.is_unset variable) = is_empty (env variable)
is_registered env (When.is_set variable) = not (is_empty (env variable))

unfoldable pub register : Environment → List Row → Registered
unfolding is_registered
register env [] = []
register env (r ∷ rows) =
    let flags = register env rows in
    if is_registered env r.when then (r.flag, r.kind) ∷ flags else flags

unfoldable pub kind_of : Text → Registered → Option FlagKind
kind_of name [] = none
kind_of name ((n, kind) ∷ flags) = if text_beq n name then some kind else kind_of name flags

parses : {A : Type 0} → Option A → Bool
parses none = false
parses (some a) = true

unfoldable pub accepts_value : FlagParsers → Option FlagKind → Text → Bool
unfolding parses
accepts_value parsers none value = false
accepts_value parsers (some FlagKind.text_flag) value = true
accepts_value parsers (some FlagKind.int_flag) value = parses (parsers.parse_int value)
accepts_value parsers (some FlagKind.bool_flag) value = parses (parsers.parse_bool value)
accepts_value parsers (some FlagKind.duration_flag) value = parses (parsers.parse_duration value)

unfoldable pub accepts_all : FlagParsers → Registered → Given → Bool
unfolding kind_of accepts_value
accepts_all parsers flags [] = true
accepts_all parsers flags ((name, value) ∷ given) =
    accepts_value parsers (kind_of name flags) value && accepts_all parsers flags given

-- flag.Parse: nothing where the program exits.
unfoldable pub parse_settings : FlagParsers → Environment → Given → Option Settings
unfolding accepts_all register read_settings
parse_settings parsers env given =
    if accepts_all parsers (register env flag_rows) given
    then some (read_settings parsers env given)
    else none
