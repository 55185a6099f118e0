-- ===== src/Control/Peers/Laws.antt =====
-- What adding and removing one peer does to the keys of the device (main.go).
use gerbil.Prelude.{
  ◌≡◌, refl, true, false, not, ◌&&◌, ◌||◌, Option, none, some, List, [], arith, Text, text_beq,
  text_beq_iff, Bool-cases, inl, inr, ap, ◌∙◌, sym, subst, ◌+ℤ◌, pos,
}
use gerbil.Control.Peers.{
  Peer, IpNet, DevicePeer, IsWgLibrary, has_key, Env, Control, parse_networks, add_parsed, added,
  add_peer_internal, remove_parsed, removed, remove_peer_internal, known_networks,
}

module _ {D : Type 0} (env : Env D) (peers : D → List DevicePeer)
    (law : IsWgLibrary env.lib peers) where
  -- A printed key is that of one key only.
  pub print-injective :
      (j k : Text) → text_beq (env.lib.print_key j) (env.lib.print_key k) ≡ text_beq j k
  print-injective j k = elim (Bool-cases (text_beq j k)) [
    | inl same ↦
        let e : j ≡ k = (text_beq_iff j k).0 same in
        rw (e, (text_beq_iff (env.lib.print_key k) (env.lib.print_key k)).1 refl)
          (sym ((text_beq_iff k k).1 refl))
    | inr other ↦ elim (Bool-cases (text_beq (env.lib.print_key j) (env.lib.print_key k))) [
      | inr differ ↦ differ ∙ sym other
      | inl same ↦
          let e = (text_beq_iff (env.lib.print_key j) (env.lib.print_key k)).0 same in
          let parsed = sym (law.parse-print j) ∙ ap env.lib.parse_key e ∙ law.parse-print k in
          let eq : j ≡ k = cc in absurd (ground (arith, (text_beq_iff j k).1 eq))
    ]
  ]

  pub add-has_key :
      (c c' : Control D) (p : Peer) (key k : Text)
      → p.public_key ≡ env.lib.print_key key
      → add_peer_internal env c p ≡ (c', true)
      → has_key k (peers c'.device) ≡ (text_beq key k || has_key k (peers c.device))
  unfolding add_peer_internal
  add-has_key c c' p key k printed done = parsed (parse_networks env.lib.parse_cidr p.allowed_ips) (
      subst
        (λ t. add_parsed env t (parse_networks env.lib.parse_cidr p.allowed_ips) c p ≡ (c', true))
        (ap env.lib.parse_key printed ∙ law.parse-print key) done)
    where
      configured :
          (d : Option D) (nets : List IpNet)
          → env.lib.configure_device
              (record { public_key = key; allowed_ips = nets; remove = false })
              c.device
            ≡ d
          → added env d c p nets ≡ (c', true)
          → has_key k (peers c'.device) ≡ (text_beq key k || has_key k (peers c.device))
      configured none nets e h = absurd (cc)
      configured (some d) nets e h =
          subst (λ r. has_key k (peers r.device) ≡ (text_beq key k || has_key k (peers c.device)))
            (ap (λ r. r.0) h)
            (law.configures (record { public_key = key; allowed_ips = nets; remove = false })
              c.device d k e)

      parsed :
          (nets : Option (List IpNet))
          → add_parsed env (some key) nets c p ≡ (c', true)
          → has_key k (peers c'.device) ≡ (text_beq key k || has_key k (peers c.device))
      parsed none h = absurd (cc)
      parsed (some nets) h =
          configured
            (env.lib.configure_device
              (record { public_key = key; allowed_ips = nets; remove = false }) c.device)
            nets refl h

  add-peers_total :
      (c c' : Control D) (p : Peer)
      → add_peer_internal env c p ≡ (c', true)
      → c'.peers_total ≡ c.peers_total +ℤ pos 1
  unfolding add_peer_internal
  add-peers_total c c' p done =
      parsed (env.lib.parse_key p.public_key) (parse_networks env.lib.parse_cidr p.allowed_ips) done
    where
      configured :
          (d : Option D) (nets : List IpNet)
          → added env d c p nets ≡ (c', true)
          → c'.peers_total ≡ c.peers_total +ℤ pos 1
      configured none nets h = absurd (cc)
      configured (some d) nets h = sym (ap (λ r. r.0.peers_total) h)

      parsed :
          (key : Option Text) (nets : Option (List IpNet))
          → add_parsed env key nets c p ≡ (c', true)
          → c'.peers_total ≡ c.peers_total +ℤ pos 1
      parsed none nets h = absurd (cc)
      parsed (some key) none h = absurd (cc)
      parsed (some key) (some nets) h =
          configured
            (env.lib.configure_device
              (record { public_key = key; allowed_ips = nets; remove = false }) c.device)
            nets h

  pub remove-has_key :
      (c c' : Control D) (key k : Text)
      → remove_peer_internal env c (env.lib.print_key key) ≡ (c', true)
      → has_key k (peers c'.device) ≡ (not (text_beq key k) && has_key k (peers c.device))
  unfolding remove_peer_internal
  remove-has_key c c' key k done =
      configured
        (env.lib.configure_device (record { public_key = key; allowed_ips = []; remove = true })
          c.device)
        refl
        (subst (λ t. remove_parsed env t c (env.lib.print_key key) ≡ (c', true))
          (law.parse-print key) done)
    where
      configured :
          (d : Option D)
          → env.lib.configure_device
              (record { public_key = key; allowed_ips = []; remove = true })
              c.device
            ≡ d
          → removed env d c
              (env.lib.print_key key)
              (known_networks env (env.lib.print_key key) (env.lib.device c.device))
            ≡ (c', true)
          → has_key k (peers c'.device) ≡ (not (text_beq key k) && has_key k (peers c.device))
      configured none e h = absurd (cc)
      configured (some d) e h =
          subst
            (λ r. has_key k (peers r.device) ≡ (not (text_beq key k) && has_key k (peers c.device)))
            (ap (λ r. r.0) h)
            (law.configures (record { public_key = key; allowed_ips = []; remove = true }) c.device
              d k e)

  add_again_counts :
      (c c' : Control D) (p : Peer) (key : Text)
      → p.public_key ≡ env.lib.print_key key
      → has_key key (peers c.device) ≡ true
      → add_peer_internal env c p ≡ (c', true)
      → (c'.peers_total ≡ c.peers_total +ℤ pos 1)
        × ((k : Text) → has_key k (peers c'.device) ≡ has_key k (peers c.device))
  add_again_counts c c' p key printed present done = (add-peers_total c c' p done, same_keys)
    where
      same_keys : (k : Text) → has_key k (peers c'.device) ≡ has_key k (peers c.device)
      same_keys k = elim (Bool-cases (text_beq key k)) [
        | inr other ↦ ground (arith, add-has_key c c' p key k printed done, other)
        | inl same ↦
            let there : has_key k (peers c.device) ≡ true =
              subst (λ t. has_key t (peers c.device) ≡ true) ((text_beq_iff key k).0 same)
                present in
            ground (arith, add-has_key c c' p key k printed done, there)
      ]
