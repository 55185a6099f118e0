-- ===== src/Control/Peers/Reconciled.antt =====
-- `ensureWireguardPeers` of main.go implements its specification: the set of the configured keys.
use gerbil.Prelude.{
  ◌≡◌, refl, Bool, true, false, not, ◌&&◌, ◌||◌, Option, none, some, List, [], ◌∷◌, arith,
  if◌then◌else◌, Text, text_beq, text_beq_iff, Bool-cases, inl, inr, ap, ◌∙◌, sym, subst, All,
}
use gerbil.Control.Peers.{
  Peer, DevicePeer, IsWgLibrary, has_key, Env, Control, add_peer_internal, remove_peer_internal,
  is_configured, is_current, and_then, remove_stale, add_missing, printed_keys, reconcile,
  ensure_wireguard_peers,
}
use gerbil.Control.Peers.Laws.{print-injective, add-has_key, remove-has_key}

module _ {D : Type 0} (env : Env D) (peers : D → List DevicePeer)
    (law : IsWgLibrary env.lib peers) where
  and_then-true :
      (m : Control D × Bool) (f : Control D → Control D × Bool) (c' : Control D)
      → and_then env m f ≡ (c', true)
      → (c : Control D) × (m ≡ (c, true)) × (f c ≡ (c', true))
  and_then-true (c, true) f c' h = (c, refl, h)
  and_then-true (c, false) f c' h = absurd (cc)

  -- The configured key is one that a device prints.
  abbrev pub IsPrinted : Peer → Type 0
  IsPrinted p = (key : Text) × (p.public_key ≡ env.lib.print_key key)

  -- The specification: a device has exactly the configured keys.
  abbrev pub Reconciled : List Peer → Control D → Type 0
  Reconciled config c =
      (key : Text) → has_key key (peers c.device) ≡ is_configured env config (env.lib.print_key key)

  is_current-printed :
      (ps : List DevicePeer) (k : Text)
      → is_current env (printed_keys env ps) (env.lib.print_key k) ≡ has_key k ps
  unfolding has_key
  is_current-printed [] k = refl
  is_current-printed (p ∷ ps) k = ground (
    arith,
    print-injective env peers law k p.public_key,
    text_beq_iff k p.public_key,
    text_beq_iff p.public_key k,
    is_current-printed ps k,
  )

  module _ (config : List Peer) (k : Text) where
    abbrev wanted : Bool
    wanted = is_configured env config (env.lib.print_key k)

    stale-has_key :
        (ps : List DevicePeer) (c c' : Control D)
        → remove_stale env config (printed_keys env ps) c ≡ (c', true)
        → has_key k (peers c'.device)
          ≡ (has_key k (peers c.device) && not (has_key k ps && not wanted))
    unfolding remove_stale has_key
    stale-has_key [] c c' h =
        let e : c ≡ c' = ap (λ r. r.0) h in
        subst
          (λ r.
            has_key k (peers r.device) ≡ (has_key k (peers c.device) && not (false && not wanted)))
          e (ground arith)
    stale-has_key (p ∷ ps) c c' h =
        let step : Control D × Bool =
          if is_configured env config (env.lib.print_key p.public_key)
          then (c, true)
          else remove_peer_internal env c (env.lib.print_key p.public_key) in
        let (c1, first, rest) =
          and_then-true step (remove_stale env config (printed_keys env ps)) c' h in
        let later = stale-has_key ps c1 c' rest in
        elim (Bool-cases (is_configured env config (env.lib.print_key p.public_key))) [
          | inl kept ↦
              let e : c ≡ c1 = ap (λ r. r.0) (rw kept at first) in
              elim (Bool-cases (text_beq p.public_key k)) [
                | inr other ↦ rw e (ground (arith, later, other))
                | inl same ↦
                    let eq : p.public_key ≡ k = (text_beq_iff p.public_key k).0 same in
                    let w : wanted ≡ true =
                      subst (λ t. is_configured env config (env.lib.print_key t) ≡ true) eq kept in
                    rw e (ground (arith, later, w))
              ]
          | inr stale ↦
              let gone = remove-has_key env peers law c c1 p.public_key k (rw stale at first) in
              elim (Bool-cases (text_beq p.public_key k)) [
                | inr other ↦ ground (arith, later, gone, other)
                | inl same ↦
                    let eq : p.public_key ≡ k = (text_beq_iff p.public_key k).0 same in
                    let w : wanted ≡ false =
                      subst (λ t. is_configured env config (env.lib.print_key t) ≡ false) eq
                        stale in
                    ground (arith, later, gone, same, w)
              ]
        ]

    missing-has_key :
        (current : List Text) (ps : List Peer) (c c' : Control D)
        → All IsPrinted ps
        → add_missing env current ps c ≡ (c', true)
        → has_key k (peers c'.device) ≡ (
            has_key k (peers c.device)
            || (is_configured env ps (env.lib.print_key k)
                && not (is_current env current (env.lib.print_key k))))
    unfolding add_missing
    missing-has_key current [] c c' a h =
        let e : c ≡ c' = ap (λ r. r.0) h in
        subst
          (λ r. has_key k (peers r.device) ≡ (
            has_key k (peers c.device)
            || (false && not (is_current env current (env.lib.print_key k)))))
          e (ground arith)
    missing-has_key current (p ∷ ps) c c' ((key, printed), a) h =
        let step : Control D × Bool =
          if is_current env current p.public_key then (c, true) else add_peer_internal env c p in
        let (c1, first, rest) = and_then-true step (add_missing env current ps) c' h in
        let later = missing-has_key current ps c1 c' a rest in
        let match : text_beq (env.lib.print_key k) p.public_key ≡ text_beq k key =
          rw printed (print-injective env peers law k key) in
        elim (Bool-cases (is_current env current p.public_key)) [
          | inl there ↦
              let e : c ≡ c1 = ap (λ r. r.0) (rw there at first) in
              elim (Bool-cases (text_beq k key)) [
                | inr other ↦ rw e (ground (arith, later, match, other))
                | inl same ↦
                    let eq : k ≡ key = (text_beq_iff k key).0 same in
                    let w : is_current env current (env.lib.print_key k) ≡ true =
                      subst (λ t. is_current env current t ≡ true)
                        (printed ∙ ap env.lib.print_key (sym eq)) there in
                    rw e (ground (arith, later, match, w))
              ]
          | inr missing ↦
              let new = add-has_key env peers law c c1 p key k printed (rw missing at first) in
              elim (Bool-cases (text_beq k key)) [
                | inr other ↦
                    ground (arith, later, match, other, new, text_beq_iff k key, text_beq_iff key k)
                | inl same ↦
                    let eq : k ≡ key = (text_beq_iff k key).0 same in
                    let w : is_current env current (env.lib.print_key k) ≡ false =
                      subst (λ t. is_current env current t ≡ false)
                        (printed ∙ ap env.lib.print_key (sym eq)) missing in
                    ground
                      (arith, later, match, same, new, w, text_beq_iff k key, text_beq_iff key k)
              ]
        ]

  reconcile-Reconciled :
      (o : Option (List DevicePeer)) (config : List Peer) (c c' : Control D)
      → env.lib.device c.device ≡ o
      → All IsPrinted config
      → reconcile env o config c ≡ (c', true)
      → Reconciled config c'
  unfolding reconcile
  reconcile-Reconciled none config c c' read a h = absurd (cc)
  reconcile-Reconciled (some ps) config c c' read a h = λ k.
      let (c1, first, rest) =
        and_then-true (remove_stale env config (printed_keys env ps) c)
          (add_missing env (printed_keys env ps) config) c' h in
      let stale = stale-has_key config k ps c c1 first in
      let new = missing-has_key config k (printed_keys env ps) config c1 c' a rest in
      let same : has_key k ps ≡ has_key k (peers c.device) =
        ap (has_key k) (law.reads c.device ps read) in
      ground (arith, stale, new, same, is_current-printed ps k)

  -- If the configured keys are printed keys and ensureWireguardPeers returns no error, then the
  -- device has exactly the configured keys, whatever peers it had: the code implements the set of
  -- keys that the configuration names. What wgctrl documents of reading and configuring a device
  -- is assumed.
  pub ensure_wireguard_peers-Reconciled :
      (config : List Peer) (c c' : Control D)
      → All IsPrinted config
      → ensure_wireguard_peers env c config ≡ (c', true)
      → Reconciled config c'
  unfolding ensure_wireguard_peers
  ensure_wireguard_peers-Reconciled config c c' a h =
      reconcile-Reconciled (env.lib.device c.device) config c c' refl a h
