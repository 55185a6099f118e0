-- ===== src/Control/Firewall.antt =====
-- The rules of iptables in main.go: `ensureMSSClamping` and `ensureWireguardFirewall`. The program
-- iptables is the parameter Iptables; a rule is the list of its arguments after the chain.
pub mod Tool
pub mod Chains
pub mod Rules
pub mod Policy
pub mod Clamping
use gerbil.Prelude.{
  ℕ, suc, zero, ◌+◌, Bool, true, false, not, Option, none, some, List, [], ◌∷◌, ◌++◌, if◌then◌else◌,
  Text, text_beq, codes, ℤ, pos, ◌-ℤ◌, itoa,
}
use gerbil.Control.Firewall.Tool.{
  Rule, Iptables, Place, arguments, append_verb, delete_verb, check_verb,
}

-- What goes wrong with a rule, which is named by its number or its chain.
pub data RuleError : Type 0 where
  not_added : (name : Text) → RuleError
  not_verified : (name : Text) → RuleError

-- net.ParseCIDR, if it succeeds.
pub host_of : Option Text → Text → Text
host_of none address = address
host_of (some ip) address = ip

abbrev pub established_rule : Text → Rule
established_rule interface =
    codes "-i"
    ∷ interface
    ∷ codes "-m"
    ∷ codes "conntrack"
    ∷ codes "--ctstate"
    ∷ codes "ESTABLISHED,RELATED"
    ∷ codes "-j"
    ∷ codes "ACCEPT"
    ∷ []

abbrev pub ping_rule : Text → Rule
ping_rule interface =
    codes "-i"
    ∷ interface
    ∷ codes "-p"
    ∷ codes "icmp"
    ∷ codes "--icmp-type"
    ∷ codes "8"
    ∷ codes "-j"
    ∷ codes "ACCEPT"
    ∷ []

abbrev pub port_rule : Text → Text → Text → Rule
port_rule interface port local_ip =
    codes "-i"
    ∷ interface
    ∷ codes "-p"
    ∷ codes "tcp"
    ∷ codes "--dport"
    ∷ port
    ∷ codes "-d"
    ∷ local_ip
    ∷ codes "-j"
    ∷ codes "ACCEPT"
    ∷ []

abbrev pub drop_rule : Text → Rule
drop_rule interface = codes "-i" ∷ interface ∷ codes "-j" ∷ codes "DROP" ∷ []

abbrev pub firewall_rules : Text → Text → List Rule
firewall_rules interface local_ip =
    established_rule interface
    ∷ ping_rule interface
    ∷ port_rule interface (codes "80") local_ip
    ∷ port_rule interface (codes "443") local_ip
    ∷ drop_rule interface
    ∷ []

abbrev pub clamping_rule : Text → Rule
clamping_rule mss =
    codes "-p"
    ∷ codes "tcp"
    ∷ codes "--tcp-flags"
    ∷ codes "SYN,RST"
    ∷ codes "SYN"
    ∷ codes "-j"
    ∷ codes "TCPMSS"
    ∷ codes "--set-mss"
    ∷ mss
    ∷ []

abbrev pub input_chain : Text
input_chain = codes "INPUT"

-- The chains that MSS clamping is for.
abbrev pub clamped_chains : List Text
clamped_chains = codes "INPUT" ∷ codes "OUTPUT" ∷ codes "FORWARD" ∷ []

-- The loops that copy a rule's arguments with the first `-A` replaced.
with_verb : Text → List Text → List Text
with_verb verb [] = []
with_verb verb (a ∷ args) = if text_beq a append_verb then verb ∷ args else a ∷ with_verb verb args

module _ {S : Type 0} (tool : Iptables S) where
  -- CombinedOutput. An exec.Cmd that has run before returns an error and runs nothing.
  combined_output : Bool → List Text → S → S × Bool
  combined_output used args s = if used then (s, false) else tool.run s args

  -- The attempts to delete, with one exec.Cmd.
  pub delete_attempts : ℕ → Bool → List Text → S → S
  unfolding combined_output
  delete_attempts zero used args s = s
  delete_attempts (suc n) used args s =
      let (t, ok) = combined_output used args s in
      let rest = delete_attempts n true args t in if ok then rest else t

  -- The rule is added and then checked, each with an exec.Cmd of its own.
  pub add_verified : Text → List Text → List Text → S → S × List RuleError
  unfolding combined_output
  add_verified name add check s =
      let (t, added) = combined_output false add s in
      let (u, present) = combined_output false check t in
      if not added
      then (t, RuleError.not_added name ∷ [])
      else (u, if present then [] else RuleError.not_verified name ∷ [])

  delete_rules : List (List Text) → S → S
  unfolding delete_attempts with_verb
  delete_rules [] s = s
  delete_rules (args ∷ rules) s =
      delete_rules rules (delete_attempts 5 false (with_verb delete_verb args) s)

  -- `number` counts from one.
  add_rules : ℕ → List (List Text) → S → S × List RuleError
  unfolding add_verified with_verb
  add_rules number [] s = (s, [])
  add_rules number (args ∷ rules) s =
      let (t, errors) = add_verified (itoa (pos number)) args (with_verb check_verb args) s in
      let (u, later) = add_rules (suc number) rules t in (u, errors ++ later)

  -- The rules as the code writes them.
  written : List Rule → List (List Text)
  written [] = []
  written (rule ∷ rules) = arguments Place.filter_table append_verb input_chain rule ∷ written rules

  pub ensure_wireguard_firewall : (Text → Option Text) → Text → Text → S → S × List RuleError
  unfolding host_of written delete_rules add_rules
  ensure_wireguard_firewall parse_cidr interface address s =
      let rules = written (firewall_rules interface (host_of (parse_cidr address) address)) in
      add_rules 1 rules (delete_rules rules s)

  delete_clamping : Text → List Text → S → S
  unfolding delete_attempts
  delete_clamping mss [] s = s
  delete_clamping mss (chain ∷ chains) s = delete_clamping mss chains (
      delete_attempts 3 false (arguments Place.mangle_table delete_verb chain (clamping_rule mss))
        s)

  add_clamping : Text → List Text → S → S × List RuleError
  unfolding add_verified
  add_clamping mss [] s = (s, [])
  add_clamping mss (chain ∷ chains) s =
      let (t, errors) =
        add_verified chain (arguments Place.mangle_table append_verb chain (clamping_rule mss))
          (arguments Place.mangle_table check_verb chain (clamping_rule mss)) s in
      let (u, later) = add_clamping mss chains t in (u, errors ++ later)

  unfoldable pub ensure_mss_clamping : ℤ → S → S × List RuleError
  unfolding delete_clamping add_clamping
  ensure_mss_clamping mtu s =
      let mss = itoa (mtu -ℤ pos 40) in
      add_clamping mss clamped_chains (delete_clamping mss clamped_chains s)
