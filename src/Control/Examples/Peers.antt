-- ===== src/Control/Examples/Peers.antt =====
-- Peers on a device that is a list, for `ensureWireguardPeers` of main.go.
use gerbil.Prelude.{
  ◌≡◌, refl, true, false, not, ◌&&◌, ◌||◌, none, some, List, [], ◌∷◌, arith, if◌then◌else◌, Text,
  text_beq, text_beq_iff, codes, Bool-cases, inl, inr, pos, All, sym, ◌∙◌, ap,
}
use gerbil.Control.Peers.{
  is_configured, Peer, DevicePeer, PeerConfig, WgLibrary, IsWgLibrary, has_key, Env, Control,
  parse_networks, ensure_wireguard_peers, add_peer_internal, remove_peer_internal,
}
use gerbil.Control.Peers.Reconciled.{IsPrinted, Reconciled, ensure_wireguard_peers-Reconciled}
use gerbil.Control.Peers.Success.{IsReady, HasNetworks, ensure_wireguard_peers_total}

pub without : Text → List DevicePeer → List DevicePeer
without key [] = []
without key (p ∷ ps) = if text_beq p.public_key key then without key ps else p ∷ without key ps

abbrev set_peer : PeerConfig → List DevicePeer → List DevicePeer
set_peer config ps =
    if config.remove
    then without config.public_key ps
    else record { public_key = config.public_key; allowed_ips = config.allowed_ips } ∷ ps

abbrev library : WgLibrary (List DevicePeer)
library = record {
  parse_key = λ s. some s;
  print_key = λ key. key;
  parse_cidr = λ s. some (s, record { ip = s; ones = 32 });
  device = λ ps. some ps;
  configure_device = λ config ps. some (set_peer config ps);
}

has_key-without :
    (key k : Text) (ps : List DevicePeer)
    → has_key k (without key ps) ≡ (not (text_beq key k) && has_key k ps)
unfolding has_key without
has_key-without key k [] = ground arith
has_key-without key k (p ∷ ps) = ground (
  arith,
  has_key-without key k ps,
  text_beq_iff p.public_key key,
  text_beq_iff key k,
  text_beq_iff p.public_key k,
)

some-eq : {A : Type 0} (a b : A) → some a ≡ some b → a ≡ b
some-eq a b h = cc

has_key-set_peer :
    (config : PeerConfig) (d : List DevicePeer) (key : Text)
    → has_key key (set_peer config d) ≡ (
        if config.remove
        then not (text_beq config.public_key key) && has_key key d
        else text_beq config.public_key key || has_key key d)
unfolding has_key
has_key-set_peer config d key = elim (Bool-cases config.remove) [
  | inl gone ↦ rw gone (has_key-without config.public_key key d)
  | inr added ↦ rw added refl
]

library-IsWgLibrary : IsWgLibrary library (λ ps. ps)
library-IsWgLibrary = record {
  reads = λ d ps h. sym (some-eq d ps h);
  parse-print = λ key. refl;
  configures = λ config d d' key h.
      ap (has_key key) (sym (some-eq (set_peer config d) d' h)) ∙ has_key-set_peer config d key;
}

library-IsReady : IsReady library
library-IsReady = record {
  readable = λ d. (d, refl);
  configurable = λ config d. (set_peer config d, refl);
}

abbrev pub env : Env (List DevicePeer)
env = record {
  lib = library;
  do_traffic_shaping = false;
  settings = record {
    interface_name = codes "wg0";
    ifb_name = codes "ifb0";
    bandwidth_limit = codes "50mbit";
    ifb_loaded = false;
  };
  answers = λ ran command. record { printed = []; succeeded = true };
}

abbrev pub control : Control (List DevicePeer)
control = record {
  device = record { public_key = codes "old"; allowed_ips = [] } ∷ [];
  relay = none;
  commands = [];
  peers_total = pos 1;
  allowed_ips_counts = [];
}

abbrev config : List Peer
config = record { public_key = codes "new"; allowed_ips = codes "10.0.0.7" ∷ [] } ∷ []

config-IsPrinted : All (IsPrinted env (λ ps. ps) library-IsWgLibrary) config
config-IsPrinted = ((codes "new", refl), tt)

config-HasNetworks : All (HasNetworks env (λ ps. ps) library-IsWgLibrary library-IsReady) config
unfolding parse_networks
config-HasNetworks = ((record { ip = codes "10.0.0.7"; ones = 32 } ∷ [], refl), tt)

abbrev reconciled : Control (List DevicePeer)
reconciled = (ensure_wireguard_peers env control config).0

done : ensure_wireguard_peers env control config ≡ (reconciled, true)
unfolding ensure_wireguard_peers without remove_peer_internal add_peer_internal
done = refl

ensure_wireguard_peers-Reconciled_example :
    has_key (codes "old") reconciled.device ≡ is_configured env config (codes "old")
ensure_wireguard_peers-Reconciled_example =
    ensure_wireguard_peers-Reconciled env (λ ps. ps) library-IsWgLibrary config control reconciled
      config-IsPrinted done (codes "old")

ensure_wireguard_peers_total_example :
    (c' : Control (List DevicePeer)) × (ensure_wireguard_peers env control config ≡ (c', true))
    × Reconciled env (λ ps. ps) library-IsWgLibrary config c'
ensure_wireguard_peers_total_example =
    ensure_wireguard_peers_total env (λ ps. ps) library-IsWgLibrary library-IsReady config control
      config-IsPrinted config-HasNetworks
