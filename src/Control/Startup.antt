-- ===== src/Control/Startup.antt =====
-- The start of main.go: what `main` does between flag.Parse and serving the control API. Each of its
-- calls of log.Fatal and logger.Fatal is an error here, and so is an end while it still fetches the
-- configuration (`no_config`). The outside is an argument.
pub mod Run
pub mod Laws
use gerbil.Prelude.{
  ℕ, ◌<◌, ◌==◌, eqℤ, Bool, true, false, not, ◌&&◌, ◌||◌, Option, none, some, List, [], ◌∷◌, ◌++◌,
  if◌then◌else◌, ltb, Text, text_beq, codes, ℤ, pos, atoi, length,
}
use gerbil.Strings.{split_at, trim_space, trim_suffix, join_host_port}
use gerbil.Observability.{MetricsConfig, Selection, new_backend}
use gerbil.Control.Settings.{Settings}
use gerbil.Control.Loading.{
  WgConfig, Url, KeyFile, KeyWorld, ConfigLibrary, ConfigReply, validate_proxy_url,
  validate_relay_url, load_or_generate_private_key, parse_remote_config_signing_key, load_config,
  fetch_config,
}

pub data StartError : Type 0 where
  bad_config_url : StartError
  bad_metrics : StartError
  bad_reachable_at : StartError
  short_token : StartError
  bad_mtu : StartError
  no_source : StartError
  two_sources : StartError
  bad_signing_key : StartError
  no_private_key : StartError
  no_config : StartError
  no_interface : StartError
  no_ifb : StartError
  no_relay : StartError
  no_proxy : StartError
  no_listener : StartError
  exposed : StartError

-- The address that the listener has got.
pub record ListenerIp : Type 0 where
  pub is_loopback : Bool
  pub is_private : Bool

-- The arguments of NewUDPProxyServer and of NewSNIProxy.
pub record RelayArguments (K : Type 0) : Type 0 where
  pub relay_port : ℤ
  pub server_url : Text
  pub relay_key : K
  pub reachable_at : Text

pub record ProxyArguments (K : Type 0) : Type 0 where
  pub port : ℤ
  pub server_url : Text
  pub proxy_key : K
  pub local_addr : Text
  pub local_port : ℤ
  pub local_overrides : List Text
  pub proxy_protocol : Bool
  pub trusted_upstreams : List Text
  pub allowed_networks : List Text

-- What the calls of main find outside: the libraries, the backend that is built or not, the key
-- file, the configuration file, the answers of the server up to the end of the program, whether the
-- interface, the IFB device, the relay and the proxy come up, and the listener.
pub record StartWorld (K : Type 0) : Type 0 where
  pub token : Text
  pub lib : ConfigLibrary
  pub builds : Selection → Bool
  pub keys : KeyWorld K
  pub key_file : KeyFile
  pub config_contents : Option Text
  pub replies : List ConfigReply
  pub interface_ready : WgConfig → ℤ → Bool
  pub ifb_ready : Bool
  pub relay_starts : RelayArguments K → Bool
  pub proxy_starts : ProxyArguments K → Bool
  pub listens : Text → Option ListenerIp

pub record Serving (K : Type 0) : Type 0 where
  pub listen_addr : Text
  pub listener : ListenerIp
  pub mtu : ℤ
  pub key : K
  pub config : WgConfig
  pub backend : Selection

pub data Result (A : Type 0) : Type 0 where
  fatal : (err : StartError) → Result A
  done : (a : A) → Result A

infixl 5 ◌>>=◌ ◌>>◌
unfoldable pub ◌>>=◌ : {A B : Type 0} → Result A → (A → Result B) → Result B
fatal err >>= f = Result.fatal err
done a >>= f = f a

abbrev ◌>>◌ : {A B : Type 0} → Result A → Result B → Result B
m >> k = m >>= λ _. k

unfoldable pub require : Bool → StartError → Result (Unit {0})
require true err = Result.done tt
require false err = Result.fatal err

unfoldable pub get : {A : Type 0} → Option A → StartError → Result A
get none err = Result.fatal err
get (some a) err = Result.done a

is_reachable : Url → Bool
is_reachable url =
    (text_beq url.scheme (codes "http") || text_beq url.scheme (codes "https"))
    && (not (text_beq url.hostname []) && not (text_beq url.port []))

-- The address that reachableAt advertises.
advertised : Option Url → Result Text
unfolding is_reachable
advertised none = Result.fatal StartError.bad_reachable_at
advertised (some url) = do
  require (is_reachable url) StartError.bad_reachable_at
  Result.done (join_host_port url.hostname url.port)

unfoldable pub listen_address : (Text → Option Url) → Settings → Result Text
unfolding advertised
listen_address parse_url settings =
    if not (text_beq settings.listen_addr [])
    then Result.done settings.listen_addr
    else if not (text_beq settings.reachable_at [])
    then advertised (parse_url settings.reachable_at)
    else Result.done (codes "127.0.0.1:3003")

-- The URL of the server, for older settings too.
unfoldable pub clean_url : Text → Text
clean_url url = trim_suffix (trim_suffix url (codes "/gerbil/get-config")) (codes "/")

-- Whether `New` has returned no error for the configuration.
unfoldable pub is_selected : Selection → Bool
is_selected (Selection.refused err) = false
is_selected (Selection.prometheus_backend path) = true
is_selected (Selection.otel_backend otel service_name service_version deployment_environment) = true
is_selected Selection.noop_backend = true
is_selected (Selection.not_known backend) = false

abbrev pub is_set : Text → Bool
is_set s = not (text_beq s [])

unfoldable pub trim_all : List Text → List Text
unfolding trim_space
trim_all [] = []
trim_all (s ∷ parts) = trim_space s ∷ trim_all parts

-- The parts of a setting between its commas, trimmed.
unfoldable pub comma_list : Text → List Text
unfolding split_at trim_all
comma_list s = if is_set s then trim_all (split_at (λ c. c == b',') s) else []

unfoldable pub signing_key : ConfigLibrary → Settings → Result Text
signing_key lib settings =
    if is_set settings.remote_config_url
    then get (parse_remote_config_signing_key lib.decode_base64 settings.remote_config_key)
        StartError.bad_signing_key
    else Result.done []

unfoldable pub check_url : ConfigLibrary → Text → Result (Unit {0})
check_url lib url =
    if is_set url
    then require (validate_relay_url lib.parse_url url) StartError.bad_config_url
    else Result.done tt
