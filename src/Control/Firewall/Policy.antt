-- ===== src/Control/Firewall/Policy.antt =====
-- Which packets the rules of `ensureWireguardFirewall` in main.go let in.
use gerbil.Prelude.{
  All, ◌≡◌, refl, sym, ap, ◌∙◌, Bool, true, false, ◌&&◌, ◌||◌, Option, none, some, List, [], ◌∷◌,
  ◌++◌, if◌then◌else◌, Text, text_beq, text_beq_iff, codes, Bool-cases, inl, inr,
}
use gerbil.Control.Firewall.Tool.{
  Rule, Iptables, IsIptables, Place, rule_beq, remove_first, arguments, delete_verb,
}
use gerbil.Control.Firewall.{
  RuleError, established_rule, ping_rule, port_rule, drop_rule, firewall_rules, input_chain,
  host_of, ensure_wireguard_firewall,
}
use gerbil.Control.Firewall.Chains.{remove_each, rule_beq_refl}
use gerbil.Control.Firewall.Rules.{deleted, ensure_wireguard_firewall-rules}

-- What the rules look at: the interface that a packet comes in by, whether it belongs to a known
-- connection, its protocol, ICMP type, printed destination port and printed destination.
pub record Packet : Type 0 where
  pub interface : Text
  pub established : Bool
  pub protocol : Text
  pub icmp_type : Text
  pub port : Text
  pub destination : Text

-- What a rule says of a packet: accept, drop, or nothing.
abbrev pub Matcher : Type 0
Matcher = Rule → Packet → Option Bool

abbrev says : Bool → Bool → Option Bool
says matches accepts = if matches then some accepts else none

-- What iptables documents of the matches and targets that the five rules use, where the destination
-- of the port rules is an address without a mask.
pub record IsMatcher (decides : Matcher) : Type 0 where
  pub by_state :
      (i : Text) (p : Packet)
      → decides (established_rule i) p ≡ says (text_beq p.interface i && p.established) true
  pub by_ping :
      (i : Text) (p : Packet)
      → decides (ping_rule i) p
        ≡ says
            (text_beq p.interface i
              && (text_beq p.protocol (codes "icmp") && text_beq p.icmp_type (codes "8")))
            true
  pub by_port :
      (i port ip : Text) (p : Packet)
      → decides (port_rule i port ip) p
        ≡ says
            (text_beq p.interface i
              && (text_beq p.protocol (codes "tcp")
                  && (text_beq p.port port && text_beq p.destination ip)))
            true
  pub by_interface :
      (i : Text) (p : Packet) → decides (drop_rule i) p ≡ says (text_beq p.interface i) false

abbrev pub or_else : Option Bool → Option Bool → Option Bool
or_else none later = later
or_else (some b) later = some b

-- The first rule of a chain that says something.
abbrev pub verdict : Matcher → List Rule → Packet → Option Bool
verdict decides [] p = none
verdict decides (rule ∷ rules) p = or_else (decides rule p) (verdict decides rules p)

-- What the comment of the code lists: answers, pings, and the two ports on the local address.
abbrev pub is_permitted : Text → Packet → Bool
is_permitted ip p =
    p.established
    || ((text_beq p.protocol (codes "icmp") && text_beq p.icmp_type (codes "8"))
        || (text_beq p.protocol (codes "tcp")
            && ((text_beq p.port (codes "80") || text_beq p.port (codes "443"))
                && text_beq p.destination ip)))

or_else_assoc : (a b c : Option Bool) → or_else (or_else a b) c ≡ or_else a (or_else b c)
or_else_assoc none b c = refl
or_else_assoc (some a) b c = refl

verdict-append :
    (decides : Matcher) (xs ys : List Rule) (p : Packet)
    → verdict decides (xs ++ ys) p ≡ or_else (verdict decides xs p) (verdict decides ys p)
verdict-append decides [] ys p = refl
verdict-append decides (x ∷ xs) ys p =
    ap (or_else (decides x p)) (verdict-append decides xs ys p)
    ∙ sym (or_else_assoc (decides x p) (verdict decides xs p) (verdict decides ys p))

-- The five tests in a row.
five_tests :
    (i state ping tcp http https there : Bool)
    → or_else (says (i && state) true) (
        or_else (says (i && ping) true) (
          or_else
            (says (i && (tcp && (http && there))) true)
            (or_else (says (i && (tcp && (https && there))) true) (or_else (says i false) none))))
      ≡ (if i then some (state || (ping || (tcp && ((http || https) && there)))) else none)
five_tests false state ping tcp http https there = refl
five_tests true true ping tcp http https there = refl
five_tests true false true tcp http https there = refl
five_tests true false false false http https there = refl
five_tests true false false true true https true = refl
five_tests true false false true true true false = refl
five_tests true false false true true false false = refl
five_tests true false false true false true true = refl
five_tests true false false true false true false = refl
five_tests true false false true false false there = refl

-- Two copies of another rule are left alone.
passes :
    (d r : Rule) (rest : List Rule)
    → rule_beq d r ≡ false
    → remove_first r (d ∷ d ∷ rest) ≡ d ∷ d ∷ remove_first r rest
passes d r rest e = rw e refl

module _ (decides : Matcher) (m : IsMatcher decides) where
  verdict-firewall_rules :
      (interface ip : Text) (p : Packet)
      → verdict decides (firewall_rules interface ip) p
        ≡ (if text_beq p.interface interface then some (is_permitted ip p) else none)
  verdict-firewall_rules interface ip p =
      rw
        (
          m.by_state interface p,
          m.by_ping interface p,
          m.by_port interface (codes "80") ip p,
          m.by_port interface (codes "443") ip p,
          m.by_interface interface p,
        )
        (five_tests (text_beq p.interface interface) p.established
          (text_beq p.protocol (codes "icmp") && text_beq p.icmp_type (codes "8"))
          (text_beq p.protocol (codes "tcp")) (text_beq p.port (codes "80"))
          (text_beq p.port (codes "443")) (text_beq p.destination ip))

  module _ {S : Type 0} (tool : Iptables S) (lawful : IsIptables tool)
      (parse_cidr : Text → Option Text) (interface address : Text) (s : S) where
    abbrev result : S × List RuleError
    result = ensure_wireguard_firewall tool parse_cidr interface address s

    abbrev local_ip : Text
    local_ip = host_of (parse_cidr address) address

    -- The chain before, without one copy of each rule whose deletion succeeds.
    abbrev others : List Rule
    others =
        remove_each (deleted tool (firewall_rules interface local_ip) s)
          (tool.rules s Place.filter_table input_chain)

    -- Where it returns no error, ensureWireguardFirewall leaves an INPUT chain that decides on
    -- each packet as the rules before it did, less one copy of each of its own whose -D succeeds,
    -- if -D is run for each in turn, and where they say nothing: on a packet of the interface, it
    -- accepts exactly what belongs to a known connection, is a ping, or is TCP to port 80 or 443
    -- of the local address, and drops the rest; on other packets it says nothing. What the rules
    -- match is as iptables documents.
    pub ensure_wireguard_firewall_lem :
        (p : Packet)
        → result.1 ≡ []
        → verdict decides (tool.rules result.0 Place.filter_table input_chain) p
          ≡ or_else
              (verdict decides others p)
              (if text_beq p.interface interface then some (is_permitted local_ip p) else none)
    ensure_wireguard_firewall_lem p fine =
        ap (λ c. verdict decides c p)
          (ensure_wireguard_firewall-rules tool lawful parse_cidr interface address s
            Place.filter_table input_chain fine)
        ∙ verdict-append decides others (firewall_rules interface local_ip) p
        ∙ ap (or_else (verdict decides others p)) (verdict-firewall_rules interface local_ip p)

    -- The first of two copies stays before the rules that accept.
    drop_stays :
        (rules : List Rule) (t : S) (rest : List Rule)
        → All (λ r. rule_beq (drop_rule interface) r ≡ false) rules
        → (kept : List Rule) × (remove_each
              (deleted tool (rules ++ drop_rule interface ∷ []) t)
              (drop_rule interface ∷ drop_rule interface ∷ rest)
            ≡ drop_rule interface ∷ kept)
    unfolding deleted
    drop_stays [] t rest _ =
        let d = drop_rule interface in
        elim (Bool-cases (tool.run t (arguments Place.filter_table delete_verb input_chain d)).1) [
          | inl ok ↦ rw ok (rest, rw (rule_beq_refl d) refl)
          | inr failed ↦ rw failed (d ∷ rest, refl)
        ]
    drop_stays (r ∷ rules) t rest (differs, later) =
        let u = tool.run t (arguments Place.filter_table delete_verb input_chain r) in
        elim (Bool-cases u.1) [
          | inr failed ↦ rw failed (drop_stays rules u.0 rest later)
          | inl ok ↦
              let (kept, stays) = drop_stays rules u.0 (remove_first r rest) later in
              let gone = deleted tool (rules ++ drop_rule interface ∷ []) u.0 in
              rw ok
                (kept, ap (remove_each gone) (passes (drop_rule interface) r rest differs) ∙ stays)
        ]

    -- If the INPUT chain starts with two copies of the rule that drops the interface's packets,
    -- and ensureWireguardFirewall returns no error, then every packet of the interface is dropped
    -- afterwards, also those that it means to accept.
    pub two_drops_block :
        (rest : List Rule) (p : Packet)
        → tool.rules s Place.filter_table input_chain
          ≡ drop_rule interface ∷ drop_rule interface ∷ rest
        → result.1 ≡ []
        → text_beq p.interface interface ≡ true
        → verdict decides (tool.rules result.0 Place.filter_table input_chain) p ≡ some false
    two_drops_block rest p twice fine here =
        let same : text_beq interface interface ≡ true =
          (text_beq_iff interface interface).1 refl in
        let (kept, stays) =
          drop_stays
            (established_rule interface
              ∷ ping_rule interface
              ∷ port_rule interface (codes "80") local_ip
              ∷ port_rule interface (codes "443") local_ip
              ∷ [])
            s rest (rw same (refl, (refl, (refl, (refl, tt))))) in
        let before : others ≡ drop_rule interface ∷ kept =
          ap (remove_each (deleted tool (firewall_rules interface local_ip) s)) twice ∙ stays in
        let dropped : decides (drop_rule interface) p ≡ some false =
          m.by_interface interface p ∙ ap (λ b. says b false) here in
        let tail =
          if text_beq p.interface interface then some (is_permitted local_ip p) else none in
        ensure_wireguard_firewall_lem p fine
        ∙ ap (λ c. or_else (verdict decides c p) tail) before
        ∙ ap (λ d. or_else (or_else d (verdict decides kept p)) tail) dropped
