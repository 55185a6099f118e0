-- ===== src/Control/Examples/Startup.antt =====
-- A start of main.go with a signed configuration, its private key, and the settings of a command line.
use gerbil.Prelude.{
  ◌≢◌, ◌⊎◌, ◌≡◌, refl, true, false, none, some, [], ◌∷◌, if◌then◌else◌, Text, text_beq, codes, pos,
  atoi,
}
use gerbil.Strings.{trim_suffix, split_at, trim_space, trim_right, drop_spaces}
use gerbil.Observability.{
  default_metrics_config, new_backend, validate, validate_backend, effective_backend,
  select_backend, checked,
}
use gerbil.Control.Settings.{
  Settings, Environment, Given, FlagParsers, read_settings, last_given, or_default, is_empty,
}
use gerbil.Control.Settings.Flags.{
  parse_settings, accepts_all, accepts_value, kind_of, register, is_registered,
}
use gerbil.Control.Settings.Laws.{local_overrides_lem}
use gerbil.Control.Loading.{
  WgConfig, KeyFile, KeyWorld, ConfigLibrary, ConfigReply, load_or_generate_private_key, save_key,
  owner_only, validate_proxy_url, has_https, validate_relay_url, secure_url, sized,
  parse_remote_config_signing_key, is_signed, with_body, from_json, after_round, from_reply,
  load_remote_config, fetch_config,
}
use gerbil.Control.Loading.Laws.{IsPrivate, load_or_generate_private_key_again}
use gerbil.Control.Startup.{
  StartWorld, Serving, Result, ◌>>=◌, require, get, signing_key, check_url, clean_url, comma_list,
  trim_all, is_selected, listen_address,
}
use gerbil.Control.Startup.Run.{private_key, get_config, checks, load, bring_up, start}
use gerbil.Control.Startup.Laws.{IsGuarded, start-IsGuarded}

-- A key is its text.
abbrev keys : KeyWorld Text
keys = record {
  parse_key = λ s. some s;
  print_key = λ k. k;
  generate = some (codes "secret");
  creates = true;
  breaks_off = none;
  closes = true;
}

generated :
    load_or_generate_private_key keys KeyFile.absent
    ≡ (KeyFile.file owner_only (some (codes "secret")), some (codes "secret"))
unfolding load_or_generate_private_key save_key
generated = refl

-- Another start finds the key, even if it could generate none.
load_or_generate_private_key_again_example :
    IsPrivate (KeyFile.file owner_only (some (codes "secret")))
    × (load_or_generate_private_key
          (record keys { generate = none })
          (KeyFile.file owner_only (some (codes "secret")))
        ≡ (KeyFile.file owner_only (some (codes "secret")), some (codes "secret")))
load_or_generate_private_key_again_example =
    load_or_generate_private_key_again keys (record keys { generate = none }) KeyFile.absent
      (KeyFile.file owner_only (some (codes "secret"))) (codes "secret") (λ k. refl) refl generated

abbrev server : Text
server = codes "https://pangolin.example"

abbrev secret_32 : Text
secret_32 = codes "0123456789abcdef0123456789abcdef"

abbrev answer : WgConfig
answer = record {
  private_key = [];
  listen_port = pos 51820;
  relay_port = pos 0;
  ip_address = codes "10.1.0.1/24";
  peers = [];
}

abbrev lib : ConfigLibrary
lib = record {
  parse_url = λ s. some (record {
    scheme = codes "https";
    host = codes "pangolin.example";
    hostname = codes "pangolin.example";
    port = [];
  });
  decode_base64 = λ s. some s;
  verify = λ key message signature. text_beq signature (codes "signed");
  unmarshal = λ s. (answer, true);
}

abbrev world : StartWorld Text
world = record {
  token = secret_32;
  lib = lib;
  builds = λ s. true;
  keys = keys;
  key_file = KeyFile.absent;
  config_contents = none;
  replies =
      ConfigReply.unreachable
      ∷ ConfigReply.answered 200 (some (codes "{}")) (codes "forged")
      ∷ ConfigReply.answered 200 (some (codes "{}")) (codes "signed")
      ∷ [];
  interface_ready = λ config mtu. true;
  ifb_ready = false;
  relay_starts = λ a. true;
  proxy_starts = λ a. true;
  listens = λ address. some (record { is_loopback = true; is_private = false });
}

abbrev settings : Settings
settings = record {
  interface_name = codes "wg0";
  config_file = [];
  remote_config_url = server;
  remote_config_key = secret_32;
  listen_addr = [];
  generate_and_save_key_to = [];
  reachable_at = [];
  log_level = codes "INFO";
  mtu = codes "1280";
  notify_url = [];
  sni_proxy_port = pos 8443;
  local_proxy_addr = codes "localhost";
  local_proxy_port = pos 443;
  local_overrides = [];
  trusted_upstreams = [];
  proxy_allowed_cidrs = [];
  proxy_protocol = true;
  do_traffic_shaping = false;
  disable_firewall = false;
  bandwidth_limit = codes "50mbit";
  metrics = default_metrics_config;
}

abbrev serving : Serving Text
serving = record {
  listen_addr = codes "127.0.0.1:3003";
  listener = record { is_loopback = true; is_private = false };
  mtu = pos 1280;
  key = codes "secret";
  config = record answer { private_key = codes "secret" };
  backend = new_backend default_metrics_config;
}

started : start world settings ≡ Result.done serving
unfolding start checks is_selected load bring_up listen_address signing_key check_url clean_url
    private_key get_config ◌>>=◌ require get validate_proxy_url has_https validate_relay_url
    secure_url sized parse_remote_config_signing_key is_signed with_body from_json after_round
    from_reply load_remote_config fetch_config trim_suffix atoi new_backend validate
    validate_backend effective_backend select_backend checked
started = refl

overridden : comma_list (codes "a.example, b.example") ≡ codes "a.example" ∷ codes "b.example" ∷ []
unfolding comma_list split_at trim_all trim_space trim_right drop_spaces
overridden = refl

start-IsGuarded_example : IsGuarded world settings serving
start-IsGuarded_example = start-IsGuarded world settings serving started

-- LOCAL_OVERRIDES and its flag.
abbrev environment : Environment
environment name = if text_beq name (codes "LOCAL_OVERRIDES") then codes "a.example" else []

abbrev given : Given
given = (codes "local-overrides", codes "b.example") ∷ []

abbrev parsers : FlagParsers
parsers = record { parse_int = atoi; parse_bool = λ s. none; parse_duration = λ s. none }

accepted : parse_settings parsers environment given ≡ some (read_settings parsers environment given)
unfolding parse_settings accepts_all accepts_value kind_of register is_registered is_empty
accepted = refl

local_overrides_lem_example :
    ((read_settings parsers environment given).local_overrides
      ≡ or_default [] (last_given (codes "local-overrides") given))
    × ((environment (codes "LOCAL_OVERRIDES") ≢ [])
        ⊎ (last_given (codes "local-overrides") given ≡ none))
local_overrides_lem_example =
    local_overrides_lem parsers environment given (read_settings parsers environment given) accepted
