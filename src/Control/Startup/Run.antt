-- ===== src/Control/Startup/Run.antt =====
-- `main` of main.go from flag.Parse to the listener, as a chain of steps.
use gerbil.Prelude.{
  eqℤ, not, ◌&&◌, ◌||◌, ◌++◌, if◌then◌else◌, ltb, Text, codes, ℤ, pos, atoi, length,
}
use gerbil.Observability.{Selection, new_backend}
use gerbil.Control.Settings.{Settings}
use gerbil.Control.Loading.{
  WgConfig, validate_proxy_url, load_or_generate_private_key, load_config, fetch_config,
}
use gerbil.Control.Startup.{
  StartError, StartWorld, Serving, RelayArguments, ProxyArguments, Result, ◌>>=◌, ◌>>◌, require,
  get, is_selected, is_set, listen_address, clean_url, comma_list, signing_key, check_url,
}

module _ {K : Type 0} (world : StartWorld K) (settings : Settings) where
  unfoldable pub private_key : Result K
  private_key =
      if is_set settings.generate_and_save_key_to
      then get (load_or_generate_private_key world.keys world.key_file).1 StartError.no_private_key
      else get world.keys.generate StartError.no_private_key

  -- The key of the file counts if it has one.
  pub keyed : K → WgConfig → WgConfig
  keyed key config =
      if is_set config.private_key
      then config
      else record config { private_key = world.keys.print_key key }

  unfoldable pub get_config : Text → Text → K → Result WgConfig
  unfolding keyed
  get_config url signing key =
      if is_set settings.config_file
      then (do
        config ← get (load_config world.lib world.config_contents) StartError.no_config
        Result.done (keyed key config))
      else (do
        config ←
            get
              (fetch_config world.lib (url ++ codes "/gerbil/get-config") signing
                (world.keys.print_key key) world.replies)
              StartError.no_config
        Result.done config)

  -- The checks of the settings, in their order.
  unfoldable pub checks : Result (Selection × Text × ℤ)
  unfolding listen_address is_selected
  checks = do
    require (validate_proxy_url world.lib.parse_url settings.remote_config_url)
        StartError.bad_config_url
    require
        (is_selected (new_backend settings.metrics) && world.builds (new_backend settings.metrics))
        StartError.bad_metrics
    address ← listen_address world.lib.parse_url settings
    require (not (ltb (length world.token) 32)) StartError.short_token
    mtu ← get (atoi settings.mtu) StartError.bad_mtu
    require (is_set settings.config_file || is_set settings.remote_config_url) StartError.no_source
    require (not (is_set settings.config_file && is_set settings.remote_config_url))
        StartError.two_sources
    Result.done (new_backend settings.metrics, address, mtu)

  -- The key and the configuration.
  unfoldable pub load : Result (K × WgConfig)
  unfolding signing_key clean_url check_url private_key get_config
  load = do
    signing ← signing_key world.lib settings
    check_url world.lib (clean_url settings.remote_config_url)
    key ← private_key
    config ← get_config (clean_url settings.remote_config_url) signing key
    Result.done (key, config)

  relay_arguments : K → WgConfig → RelayArguments K
  unfolding clean_url
  relay_arguments key config = record {
    relay_port = if eqℤ config.relay_port (pos 0) then pos 21820 else config.relay_port;
    server_url = clean_url settings.remote_config_url;
    relay_key = key;
    reachable_at = settings.reachable_at;
  }

  proxy_arguments : K → ProxyArguments K
  unfolding comma_list clean_url
  proxy_arguments key = record {
    port = settings.sni_proxy_port;
    server_url = clean_url settings.remote_config_url;
    proxy_key = key;
    local_addr = settings.local_proxy_addr;
    local_port = settings.local_proxy_port;
    local_overrides = comma_list settings.local_overrides;
    proxy_protocol = settings.proxy_protocol;
    trusted_upstreams = comma_list settings.trusted_upstreams;
    allowed_networks = comma_list settings.proxy_allowed_cidrs;
  }

  -- The parts that come up before the listener.
  unfoldable pub bring_up : K → WgConfig → ℤ → Result (Unit {0})
  unfolding relay_arguments proxy_arguments
  bring_up key config mtu = do
    require (world.interface_ready config mtu) StartError.no_interface
    require (not settings.do_traffic_shaping || world.ifb_ready) StartError.no_ifb
    require
        (not (is_set (clean_url settings.remote_config_url))
          || world.relay_starts (relay_arguments key config))
        StartError.no_relay
    require (world.proxy_starts (proxy_arguments key)) StartError.no_proxy

  unfoldable pub start : Result (Serving K)
  unfolding checks load bring_up
  start = do
    (backend, address, mtu) ← checks
    (key, config) ← load
    bring_up key config mtu
    listener ← get (world.listens address) StartError.no_listener
    require (listener.is_loopback || listener.is_private) StartError.exposed
    Result.done (record {
      listen_addr = address;
      listener = listener;
      mtu = mtu;
      key = key;
      config = config;
      backend = backend;
    })
