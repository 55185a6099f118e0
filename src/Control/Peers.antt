-- ===== src/Control/Peers.antt =====
-- The peers of the WireGuard device in main.go: `addPeer`, `removePeer` and `ensureWireguardPeers`,
-- with what they do to the relay, the bandwidth limits and the gauges. wgctrl and the parsing of keys
-- and networks are the record WgLibrary over the state of the device, and IsWgLibrary is what the
-- code relies on. The mutex `wgMu` makes each of these one step.
pub mod Laws
pub mod Reconciled
pub mod Success
use gerbil.Prelude.{
  ℕ, suc, ◌≡◌, Bool, true, false, not, ◌&&◌, ◌||◌, Option, none, some, List, [], ◌∷◌, ◌++◌,
  if◌then◌else◌, Text, text_beq, length, ℤ, pos, ◌+ℤ◌, ◌-ℤ◌,
}
use gerbil.Relay.Connections.{Connections, clear_connections_for_wg_ip}
use gerbil.Control.Shaping.Exec.{Command, Answers}
use gerbil.Control.Shaping.Commands.{Settings}
use gerbil.Control.Shaping.{setup_peer_bandwidth_limit, remove_peer_bandwidth_limit}

pub record Peer : Type 0 where
  pub public_key : Text
  pub allowed_ips : List Text

-- net.IPNet: the textual form of its IP, and the length of its mask.
pub record IpNet : Type 0 where
  pub ip : Text
  pub ones : ℕ

-- wgtypes.Peer and wgtypes.PeerConfig; their keys are 32 bytes.
pub record DevicePeer : Type 0 where
  pub public_key : Text
  pub allowed_ips : List IpNet

pub record PeerConfig : Type 0 where
  pub public_key : Text
  pub allowed_ips : List IpNet
  pub remove : Bool

-- `parse_cidr` answers with the address as written and the network.
pub record WgLibrary (D : Type 0) : Type 0 where
  pub parse_key : Text → Option Text
  pub print_key : Text → Text
  pub parse_cidr : Text → Option (Text × IpNet)
  pub device : D → Option (List DevicePeer)
  pub configure_device : PeerConfig → D → Option D

unfoldable pub has_key : Text → List DevicePeer → Bool
has_key key [] = false
has_key key (p ∷ ps) = text_beq p.public_key key || has_key key ps

-- What wgctrl documents: reading a device tells its peers, and configuring one peer adds or removes
-- it. A printed key parses to itself.
pub record IsWgLibrary {D : Type 0} (lib : WgLibrary D) (peers : D → List DevicePeer) : Type 0 where
  pub reads : (d : D) (ps : List DevicePeer) → lib.device d ≡ some ps → ps ≡ peers d
  pub parse-print : (key : Text) → lib.parse_key (lib.print_key key) ≡ some key
  pub configures :
      (config : PeerConfig) (d d' : D) (key : Text)
      → lib.configure_device config d ≡ some d'
      → has_key key (peers d') ≡ (
          if config.remove
          then not (text_beq config.public_key key) && has_key key (peers d)
          else text_beq config.public_key key || has_key key (peers d))

pub record Env (D : Type 0) : Type 0 where
  pub lib : WgLibrary D
  pub do_traffic_shaping : Bool
  pub settings : Settings
  pub answers : Answers

-- The device, the pool of the relay if it runs, the commands that were run, and the gauges.
pub record Control (D : Type 0) : Type 0 where
  pub device : D
  pub relay : Option Connections
  pub commands : List Command
  pub peers_total : ℤ
  pub allowed_ips_counts : List (Text × ℤ)

first_of : Option (Text × IpNet) → Option Text
first_of none = none
first_of (some (ip, net)) = some ip

cons_net : Option (Text × IpNet) → Option (List IpNet) → Option (List IpNet)
cons_net none nets = none
cons_net (some (ip, net)) none = none
cons_net (some (ip, net)) (some nets) = some (net ∷ nets)

-- The loop over AllowedIPs; the first that does not parse ends it.
unfoldable pub parse_networks : (Text → Option (Text × IpNet)) → List Text → Option (List IpNet)
unfolding cons_net
parse_networks parse_cidr [] = some []
parse_networks parse_cidr (s ∷ ss) = cons_net (parse_cidr s) (parse_networks parse_cidr ss)

module _ {D : Type 0} (env : Env D) where
  -- The loops over the IPs; failures are only logged.
  limit_all : List IpNet → List Command → List Command
  unfolding first_of
  limit_all [] commands = commands
  limit_all (net ∷ nets) commands =
      limit_all nets
        (setup_peer_bandwidth_limit env.settings (λ s. first_of (env.lib.parse_cidr s)) net.ip
          env.answers commands).0

  unlimit_all : List IpNet → List Command → List Command
  unfolding first_of
  unlimit_all [] commands = commands
  unlimit_all (net ∷ nets) commands =
      unlimit_all nets
        (remove_peer_bandwidth_limit env.settings (λ s. first_of (env.lib.parse_cidr s)) net.ip
          env.answers commands).0

  -- proxyRelay.OnPeerAdded and OnPeerRemoved, which are alike.
  clear_all : List IpNet → Option Connections → Option Connections
  clear_all nets none = none
  clear_all [] (some relay) = some relay
  clear_all (net ∷ nets) (some relay) =
      clear_all nets (some (clear_connections_for_wg_ip relay net.ip))

  pub added : Option D → Control D → Peer → List IpNet → Control D × Bool
  unfolding limit_all clear_all
  added none c peer nets = (c, false)
  added (some device) c peer nets = (
    record {
      device = device;
      relay = clear_all nets c.relay;
      commands = if env.do_traffic_shaping then limit_all nets c.commands else c.commands;
      peers_total = c.peers_total +ℤ pos 1;
      allowed_ips_counts = (peer.public_key, pos (length peer.allowed_ips)) ∷ c.allowed_ips_counts;
    },
    true,
  )

  pub add_parsed : Option Text → Option (List IpNet) → Control D → Peer → Control D × Bool
  unfolding added
  add_parsed none nets c peer = (c, false)
  add_parsed (some key) none c peer = (c, false)
  add_parsed (some key) (some nets) c peer =
      added
        (env.lib.configure_device (record { public_key = key; allowed_ips = nets; remove = false })
          c.device)
        c peer nets

  -- The flag says that no error is returned.
  unfoldable pub add_peer_internal : Control D → Peer → Control D × Bool
  unfolding add_parsed parse_networks
  add_peer_internal c peer =
      add_parsed (env.lib.parse_key peer.public_key)
        (parse_networks env.lib.parse_cidr peer.allowed_ips) c peer

  -- The networks of the peer with the printed key, of the first one.
  networks_of : Text → List DevicePeer → List IpNet
  networks_of public_key [] = []
  networks_of public_key (p ∷ ps) =
      if text_beq (env.lib.print_key p.public_key) public_key
      then p.allowed_ips
      else networks_of public_key ps

  pub known_networks : Text → Option (List DevicePeer) → List IpNet
  unfolding networks_of
  known_networks public_key none = []
  known_networks public_key (some ps) = networks_of public_key ps

  pub removed : Option D → Control D → Text → List IpNet → Control D × Bool
  unfolding unlimit_all clear_all
  removed none c public_key nets = (c, false)
  removed (some device) c public_key nets = (
    record {
      device = device;
      relay = clear_all nets c.relay;
      commands = if env.do_traffic_shaping then unlimit_all nets c.commands else c.commands;
      peers_total = c.peers_total -ℤ pos 1;
      allowed_ips_counts = (public_key, pos 0 -ℤ pos (length nets)) ∷ c.allowed_ips_counts;
    },
    true,
  )

  pub remove_parsed : Option Text → Control D → Text → Control D × Bool
  unfolding removed known_networks
  remove_parsed none c public_key = (c, false)
  remove_parsed (some key) c public_key =
      removed
        (env.lib.configure_device (record { public_key = key; allowed_ips = []; remove = true })
          c.device)
        c public_key (known_networks public_key (env.lib.device c.device))

  unfoldable pub remove_peer_internal : Control D → Text → Control D × Bool
  unfolding remove_parsed
  remove_peer_internal c public_key = remove_parsed (env.lib.parse_key public_key) c public_key

  abbrev pub is_configured : List Peer → Text → Bool
  is_configured [] public_key = false
  is_configured (p ∷ ps) public_key =
      text_beq public_key p.public_key || is_configured ps public_key

  abbrev pub is_current : List Text → Text → Bool
  is_current [] public_key = false
  is_current (k ∷ ks) public_key = text_beq public_key k || is_current ks public_key

  abbrev pub and_then : Control D × Bool → (Control D → Control D × Bool) → Control D × Bool
  and_then (c, true) f = f c
  and_then (c, false) f = (c, false)

  -- The loop over the peers of the device.
  pub remove_stale : List Peer → List Text → Control D → Control D × Bool
  remove_stale peers [] c = (c, true)
  remove_stale peers (k ∷ ks) c =
      and_then (if is_configured peers k then (c, true) else remove_peer_internal c k)
        (remove_stale peers ks)

  -- The loop over the peers of the configuration.
  pub add_missing : List Text → List Peer → Control D → Control D × Bool
  add_missing current [] c = (c, true)
  add_missing current (p ∷ ps) c =
      and_then (if is_current current p.public_key then (c, true) else add_peer_internal c p)
        (add_missing current ps)

  abbrev pub printed_keys : List DevicePeer → List Text
  printed_keys [] = []
  printed_keys (p ∷ ps) = env.lib.print_key p.public_key ∷ printed_keys ps

  pub reconcile : Option (List DevicePeer) → List Peer → Control D → Control D × Bool
  unfolding remove_stale add_missing
  reconcile none peers c = (c, false)
  reconcile (some ps) peers c =
      and_then (remove_stale peers (printed_keys ps) c) (add_missing (printed_keys ps) peers)

  unfoldable pub ensure_wireguard_peers : Control D → List Peer → Control D × Bool
  unfolding reconcile
  ensure_wireguard_peers c peers = reconcile (env.lib.device c.device) peers c
