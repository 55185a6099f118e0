-- ===== src/Control/Peers/Success.antt =====
-- `ensureWireguardPeers` of main.go succeeds where no call of a library fails.
use gerbil.Prelude.{
  ◌≡◌, refl, true, false, some, List, [], ◌∷◌, Text, Bool-cases, inl, inr, ap, ◌∙◌, All,
}
use gerbil.Control.Peers.{
  Peer, IpNet, DevicePeer, PeerConfig, WgLibrary, IsWgLibrary, Env, Control, parse_networks,
  add_peer_internal, remove_peer_internal, added, removed, known_networks, is_configured,
  is_current, remove_stale, add_missing, printed_keys, reconcile, ensure_wireguard_peers,
}
use gerbil.Control.Peers.Reconciled.{IsPrinted, Reconciled, ensure_wireguard_peers-Reconciled}

-- The device can be read and configured in each state.
pub record IsReady {D : Type 0} (lib : WgLibrary D) : Type 0 where
  pub readable : (d : D) → (ps : List DevicePeer) × (lib.device d ≡ some ps)
  pub configurable :
      (config : PeerConfig) (d : D) → (d' : D) × (lib.configure_device config d ≡ some d')

module _ {D : Type 0} (env : Env D) (peers : D → List DevicePeer) (law : IsWgLibrary env.lib peers)
    (ready : IsReady env.lib) where
  -- The networks of the configured peer parse.
  abbrev pub HasNetworks : Peer → Type 0
  HasNetworks p =
      (nets : List IpNet) × (parse_networks env.lib.parse_cidr p.allowed_ips ≡ some nets)

  add_succeeds :
      (c : Control D) (p : Peer)
      → IsPrinted env peers law p
      → HasNetworks p
      → (c' : Control D) × (add_peer_internal env c p ≡ (c', true))
  unfolding add_peer_internal
  add_succeeds c p (key, printed) (nets, parsed) =
      let (d, done) =
        ready.configurable (record { public_key = key; allowed_ips = nets; remove = false })
          c.device in
      (
        (added env (some d) c p nets).0,
        rw (ap env.lib.parse_key printed ∙ law.parse-print key, parsed, done) refl,
      )

  remove_succeeds :
      (c : Control D) (key : Text)
      → (c' : Control D) × (remove_peer_internal env c (env.lib.print_key key) ≡ (c', true))
  unfolding remove_peer_internal
  remove_succeeds c key =
      let (d, done) =
        ready.configurable (record { public_key = key; allowed_ips = []; remove = true })
          c.device in
      (
        (removed env (some d) c (env.lib.print_key key)
            (known_networks env (env.lib.print_key key) (env.lib.device c.device))).0,
        rw (law.parse-print key, done) refl,
      )

  stale_succeeds :
      (config : List Peer) (ps : List DevicePeer) (c : Control D)
      → (c' : Control D) × (remove_stale env config (printed_keys env ps) c ≡ (c', true))
  unfolding remove_stale
  stale_succeeds config [] c = (c, refl)
  stale_succeeds config (p ∷ ps) c =
      elim (Bool-cases (is_configured env config (env.lib.print_key p.public_key))) [
        | inl kept ↦ let (c', rest) = stale_succeeds config ps c in (c', rw kept rest)
        | inr stale ↦
            let (c1, first) = remove_succeeds c p.public_key in
            let (c', rest) = stale_succeeds config ps c1 in (c', rw (stale, first) rest)
      ]

  missing_succeeds :
      (current : List Text) (ps : List Peer) (c : Control D)
      → All (IsPrinted env peers law) ps
      → All HasNetworks ps
      → (c' : Control D) × (add_missing env current ps c ≡ (c', true))
  unfolding add_missing
  missing_succeeds current [] c a n = (c, refl)
  missing_succeeds current (p ∷ ps) c a n =
      elim (Bool-cases (is_current env current p.public_key)) [
        | inl there ↦ let (c', rest) = missing_succeeds current ps c a.1 n.1 in (c', rw there rest)
        | inr missing ↦
            let (c1, first) = add_succeeds c p a.0 n.0 in
            let (c', rest) = missing_succeeds current ps c1 a.1 n.1 in
            (c', rw (missing, first) rest)
      ]

  ensure_succeeds :
      (config : List Peer) (c : Control D)
      → All (IsPrinted env peers law) config
      → All HasNetworks config
      → (c' : Control D) × (ensure_wireguard_peers env c config ≡ (c', true))
  unfolding ensure_wireguard_peers reconcile
  ensure_succeeds config c a n =
      let (ps, read) = ready.readable c.device in
      let (c1, first) = stale_succeeds config ps c in
      let (c', rest) = missing_succeeds (printed_keys env ps) config c1 a n in
      (c', rw (read, first) rest)

  -- If moreover the device can always be read and configured and the networks of the configured
  -- peers parse, then ensureWireguardPeers returns no error, and so leaves the configured keys.
  pub ensure_wireguard_peers_total :
      (config : List Peer) (c : Control D)
      → All (IsPrinted env peers law) config
      → All HasNetworks config
      → (c' : Control D) × (ensure_wireguard_peers env c config ≡ (c', true))
        × Reconciled env peers law config c'
  ensure_wireguard_peers_total config c a n =
      let (c', done) = ensure_succeeds config c a n in
      (c', done, ensure_wireguard_peers-Reconciled env peers law config c c' a done)
