-- ===== src/Control/Examples/Firewall.antt =====
-- The rules of main.go on a small iptables.
use gerbil.Prelude.{
  ◌≡◌, refl, Bool, true, false, ◌&&◌, Option, none, some, List, [], ◌∷◌, ◌++◌, if◌then◌else◌, Text,
  text_beq, text_beq_iff, codes, pos, ◌-ℤ◌, itoa,
}
use gerbil.Control.Firewall.Tool.{
  Rule, Iptables, IsIptables, Place, arguments, append_verb, delete_verb, check_verb, has_rule,
  remove_first, same_chain,
}
use gerbil.Control.Firewall.{
  drop_rule, firewall_rules, input_chain, host_of, ensure_wireguard_firewall, ensure_mss_clamping,
  clamping_rule, clamped_chains,
}
use gerbil.Control.Firewall.Chains.{remove_each, on}
use gerbil.Control.Firewall.Rules.{deleted, Accepts, ensure_wireguard_firewall-fine}
use gerbil.Control.Firewall.Policy.{
  Packet, Matcher, IsMatcher, verdict, or_else, is_permitted, ensure_wireguard_firewall_lem,
  two_drops_block,
}
use gerbil.Control.Firewall.Clamping.{AreClamped, ensure_mss_clamping_lem}

abbrev Chains : Type 0
Chains = Place → Text → List Rule

abbrev change : (List Rule → List Rule) → Place → Text → Chains → Chains
change f p chain s q other = on (same_chain p chain q other) f (s q other)

abbrev act : Chains → Place → Text → Text → Rule → Chains × Bool
act s p verb chain rule =
    if text_beq verb append_verb
    then (change (λ c. c ++ rule ∷ []) p chain s, true)
    else if text_beq verb delete_verb
    then (
      change (λ c. if has_rule rule (s p chain) then remove_first rule c else c) p chain s,
      has_rule rule (s p chain),
    )
    else (s, has_rule rule (s p chain))

abbrev in_mangle : Chains → List Text → Chains × Bool
in_mangle s (table ∷ verb ∷ chain ∷ rule) = act s Place.mangle_table verb chain rule
in_mangle s _ = (s, false)

abbrev run : Chains → List Text → Chains × Bool
run s [] = (s, false)
run s (verb ∷ []) = (s, false)
run s (verb ∷ chain ∷ rule) =
    if text_beq verb (codes "-t")
    then in_mangle s (chain ∷ rule)
    else act s Place.filter_table verb chain rule

abbrev small : Iptables Chains
small = record { run = run; rules = λ s. s }

appended :
    (b : Bool) (rules : List Rule) (rule : Rule)
    → on b (λ c. c ++ rule ∷ []) rules ≡ (if b && true then rules ++ rule ∷ [] else rules)
appended true rules rule = refl
appended false rules rule = refl

accepts : Accepts small
accepts s Place.filter_table chain rule = refl
accepts s Place.mangle_table chain rule = refl

append :
    (s : Chains) (p : Place) (chain : Text) (rule : Rule) (q : Place) (other : Text)
    → (run s (arguments p append_verb chain rule)).0 q other ≡ (
        if same_chain p chain q other && (run s (arguments p append_verb chain rule)).1
        then s q other ++ rule ∷ []
        else s q other)
append s Place.filter_table chain rule q other =
    appended (same_chain Place.filter_table chain q other) (s q other) rule
append s Place.mangle_table chain rule q other =
    appended (same_chain Place.mangle_table chain q other) (s q other) rule

removed :
    (b ok : Bool) (rule : Rule) (rules : List Rule)
    → on b (λ c. if ok then remove_first rule c else c) rules
      ≡ (if b && ok then remove_first rule rules else rules)
removed true ok rule rules = refl
removed false ok rule rules = refl

delete :
    (s : Chains) (p : Place) (chain : Text) (rule : Rule) (q : Place) (other : Text)
    → (run s (arguments p delete_verb chain rule)).0 q other ≡ (
        if same_chain p chain q other && (run s (arguments p delete_verb chain rule)).1
        then remove_first rule (s q other)
        else s q other)
delete s Place.filter_table chain rule q other =
    removed (same_chain Place.filter_table chain q other)
      (has_rule rule (s Place.filter_table chain)) rule (s q other)
delete s Place.mangle_table chain rule q other =
    removed (same_chain Place.mangle_table chain q other)
      (has_rule rule (s Place.mangle_table chain)) rule (s q other)

check :
    (s : Chains) (p : Place) (chain : Text) (rule : Rule)
    → (run s (arguments p check_verb chain rule)).1 ≡ has_rule rule (s p chain)
check s Place.filter_table chain rule = refl
check s Place.mangle_table chain rule = refl

check-same :
    (s : Chains) (p : Place) (chain : Text) (rule : Rule) (q : Place) (other : Text)
    → (run s (arguments p check_verb chain rule)).0 q other ≡ s q other
check-same s Place.filter_table chain rule q other = refl
check-same s Place.mangle_table chain rule q other = refl

small-IsIptables : IsIptables small
small-IsIptables = record {
  append = append;
  delete = delete;
  check = check;
  check-same = check-same;
}

abbrev wg0 : Text
wg0 = codes "wg0"

-- A rule of another program, and a stale copy of the last of the five.
abbrev ssh_rule : Rule
ssh_rule =
    codes "-p" ∷ codes "tcp" ∷ codes "--dport" ∷ codes "22" ∷ codes "-j" ∷ codes "ACCEPT" ∷ []

abbrev chains : Chains
chains p chain = ssh_rule ∷ drop_rule wg0 ∷ []

abbrev parse_cidr : Text → Option Text
parse_cidr address = some (codes "10.1.0.1")

abbrev address : Text
address = codes "10.1.0.1/24"

-- A match of the rule's words: a state, ICMP, a port and destination, or the interface alone.
abbrev decides : Matcher
decides (a ∷ i ∷ b ∷ c ∷ []) p = if text_beq p.interface i then some false else none
decides (a ∷ i ∷ b ∷ c ∷ d ∷ e ∷ f ∷ g ∷ []) p =
    if text_beq b (codes "-m")
    then (if text_beq p.interface i && p.established then some true else none)
    else if text_beq p.interface i && (text_beq p.protocol (codes "icmp") && text_beq p.icmp_type e)
    then some true
    else none
decides (a ∷ i ∷ b ∷ c ∷ d ∷ port ∷ f ∷ ip ∷ g ∷ k ∷ []) p =
    if text_beq p.interface i
      && (text_beq p.protocol (codes "tcp") && (text_beq p.port port && text_beq p.destination ip))
    then some true
    else none
decides _ p = none

decides-IsMatcher : IsMatcher decides
decides-IsMatcher = record {
  by_state = λ i p. refl;
  by_ping = λ i p. refl;
  by_port = λ i port ip p. refl;
  by_interface = λ i p. refl;
}

abbrev https : Packet
https = record {
  interface = wg0;
  established = false;
  protocol = codes "tcp";
  icmp_type = [];
  port = codes "443";
  destination = codes "10.1.0.1";
}

abbrev local_ip : Text
local_ip = host_of (parse_cidr address) address

ensure_wireguard_firewall_lem_example :
    verdict decides
      ((ensure_wireguard_firewall small parse_cidr wg0 address chains).0 Place.filter_table
        input_chain)
      https
    ≡ or_else
        (verdict decides
          (remove_each
            (deleted small (firewall_rules wg0 local_ip) chains)
            (chains Place.filter_table input_chain))
          https)
        (if text_beq https.interface wg0 then some (is_permitted local_ip https) else none)
ensure_wireguard_firewall_lem_example =
    ensure_wireguard_firewall_lem decides decides-IsMatcher small small-IsIptables parse_cidr wg0
      address chains https
      (ensure_wireguard_firewall-fine small small-IsIptables parse_cidr wg0 address chains accepts)

abbrev twice : Chains
twice p chain = drop_rule wg0 ∷ drop_rule wg0 ∷ []

two_drops_block_example :
    verdict decides
      ((ensure_wireguard_firewall small parse_cidr wg0 address twice).0 Place.filter_table
        input_chain)
      https
    ≡ some false
two_drops_block_example =
    two_drops_block decides decides-IsMatcher small small-IsIptables parse_cidr wg0 address twice []
      https refl
      (ensure_wireguard_firewall-fine small small-IsIptables parse_cidr wg0 address twice accepts)
      refl

clamped : (ensure_mss_clamping small (pos 1280) chains).1 ≡ []
unfolding ensure_mss_clamping
clamped =
    let value = itoa (pos 1280 -ℤ pos 40) in
    let same : text_beq value value ≡ true = (text_beq_iff value value).1 refl in rw same refl

abbrev mss : Rule
mss = clamping_rule (itoa (pos 1280 -ℤ pos 40))

ensure_mss_clamping_lem_example :
    AreClamped small mss chains
      (ensure_mss_clamping small (pos 1280) chains).0
      clamped_chains
      chains
ensure_mss_clamping_lem_example =
    ensure_mss_clamping_lem small (pos 1280) chains small-IsIptables clamped
