-- ===== src/Control/Firewall/Rules.antt =====
-- What the two functions of main.go leave in the chains of iptables.
use mathlib.Core.List.{append_assoc, append-nil}
use gerbil.Prelude.{
  ℕ, suc, ◌≡◌, refl, ap, ◌∙◌, Bool, true, false, not, ◌&&◌, Option, List, [], ◌∷◌, inl, inr, ◌++◌,
  arith, if◌then◌else◌, Text, Bool-cases, itoa, pos,
}
use gerbil.Control.Firewall.Tool.{
  Rule, Iptables, IsIptables, Place, arguments, append_verb, delete_verb, check_verb, has_rule,
  same_chain,
}
use gerbil.Control.Firewall.{
  RuleError, combined_output, delete_attempts, add_verified, with_verb, written, delete_rules,
  add_rules, host_of, ensure_wireguard_firewall, firewall_rules, input_chain,
}
use gerbil.Control.Firewall.Chains.{
  remove_each, on-remove, has_rule-append, on, on-on, on-same, on-id, on-and, same_chain_refl,
  both_empty,
}

-- Appending a rule never fails.
abbrev pub Accepts : {S : Type 0} → Iptables S → Type 0
Accepts {S} tool =
    (s : S) (p : Place) (chain : Text) (rule : Rule)
    → (tool.run s (arguments p append_verb chain rule)).1 ≡ true

-- The rules for which `-D` succeeds, if it is run for one after the other.
unfoldable pub deleted : {S : Type 0} → Iptables S → List Rule → S → List Rule
deleted tool [] s = []
deleted tool (rule ∷ rules) s =
    let (t, ok) = tool.run s (arguments Place.filter_table delete_verb input_chain rule) in
    let later = deleted tool rules t in if ok then rule ∷ later else later

module _ {S : Type 0} (tool : Iptables S) (lawful : IsIptables tool) where
  -- Only the first attempt runs the command.
  pub delete_attempts_once :
      (n : ℕ) (args : List Text) (s : S)
      → delete_attempts tool (suc (suc n)) false args s ≡ (tool.run s args).0
  unfolding delete_attempts combined_output
  delete_attempts_once n args s = elim (Bool-cases (tool.run s args).1) [
    | inl ok ↦ rw ok refl
    | inr failed ↦ rw failed refl
  ]

  delete_rules_lem :
      (rules : List Rule) (s : S) (q : Place) (other : Text)
      → tool.rules (delete_rules tool (written tool rules) s) q other
        ≡ on
            (same_chain Place.filter_table input_chain q other)
            (remove_each (deleted tool rules s))
            (tool.rules s q other)
  unfolding delete_rules written with_verb deleted
  delete_rules_lem [] s q other = ground arith
  delete_rules_lem (rule ∷ rules) s q other =
      let b = same_chain Place.filter_table input_chain q other in
      let args = arguments Place.filter_table delete_verb input_chain rule in
      let t = (tool.run s args).0 in
      ap (λ u. tool.rules (delete_rules tool (written tool rules) u) q other)
        (delete_attempts_once 3 args s)
      ∙ delete_rules_lem rules t q other
      ∙ ap (on b (remove_each (deleted tool rules t)))
          (lawful.delete s Place.filter_table input_chain rule q other)
      ∙ on-remove b (tool.run s args).1 rule (deleted tool rules t) (tool.rules s q other)

  -- A rule that was added without an error stands at the end of its chain; nothing else changes.
  module _ (name chain : Text) (p : Place) (rule : Rule) (s : S) where
    abbrev pub adding : S × List RuleError
    adding =
        add_verified tool name (arguments p append_verb chain rule)
          (arguments p check_verb chain rule) s

    abbrev added : Bool
    added = (tool.run s (arguments p append_verb chain rule)).1

    abbrev after : S
    after = (tool.run s (arguments p append_verb chain rule)).0

    -- The result, if the first command succeeds or not as `b` says.
    abbrev adding_if : Bool → S × List RuleError
    adding_if b = if not b then (after, RuleError.not_added name ∷ []) else (
      (tool.run after (arguments p check_verb chain rule)).0,
      if (tool.run after (arguments p check_verb chain rule)).1
          then []
          else RuleError.not_verified name ∷ [],
    )

    adding-if : adding ≡ adding_if added
    unfolding add_verified combined_output
    adding-if = refl

    append_added :
        (q : Place) (other : Text)
        → added ≡ true
        → tool.rules after q other
          ≡ on (same_chain p chain q other) (λ c. c ++ rule ∷ []) (tool.rules s q other)
    append_added q other ok =
        let b = same_chain p chain q other in
        lawful.append s p chain rule q other
        ∙ ap (λ a. on (b && a) (λ c. c ++ rule ∷ []) (tool.rules s q other)) ok
        ∙ on-and b (λ c. c ++ rule ∷ []) (tool.rules s q other)

    pub add_verified_lem :
        (q : Place) (other : Text)
        → adding.1 ≡ []
        → tool.rules adding.0 q other
          ≡ on (same_chain p chain q other) (λ c. c ++ rule ∷ []) (tool.rules s q other)
    add_verified_lem q other fine = elim (Bool-cases added) [
      | inl ok ↦
          ap (λ x. tool.rules x.0 q other) (adding-if ∙ ap adding_if ok)
          ∙ lawful.check-same after p chain rule q other
          ∙ append_added q other ok
      | inr failed ↦
          let error : adding.1 ≡ RuleError.not_added name ∷ [] =
            ap (λ x. x.1) (adding-if ∙ ap adding_if failed) in
          absurd (cc)
    ]

    -- A rule that can be added is verified.
    add_verified_fine : added ≡ true → adding.1 ≡ []
    add_verified_fine ok =
        let present : (tool.run after (arguments p check_verb chain rule)).1 ≡ true =
          lawful.check after p chain rule
          ∙ ap (has_rule rule) (
              append_added p chain ok
              ∙ ap (λ b. on b (λ c. c ++ rule ∷ []) (tool.rules s p chain))
                  (same_chain_refl p chain))
          ∙ has_rule-append rule (tool.rules s p chain) in
        ap (λ x. x.1) (adding-if ∙ ap adding_if ok)
        ∙ ap (λ b. if b then [] else RuleError.not_verified name ∷ []) present

  add_rules_lem :
      (number : ℕ) (rules : List Rule) (s : S) (q : Place) (other : Text)
      → (add_rules tool number (written tool rules) s).1 ≡ []
      → tool.rules (add_rules tool number (written tool rules) s).0 q other
        ≡ on
            (same_chain Place.filter_table input_chain q other)
            (λ c. c ++ rules)
            (tool.rules s q other)
  unfolding add_rules written with_verb
  add_rules_lem number [] s q other fine =
      on-id (same_chain Place.filter_table input_chain q other) (λ c. c ++ [])
        (tool.rules s q other) (append-nil (tool.rules s q other))
  add_rules_lem number (rule ∷ rules) s q other fine =
      let b = same_chain Place.filter_table input_chain q other in
      let t = (adding (itoa (pos number)) input_chain Place.filter_table rule s).0 in
      let parts =
        both_empty (adding (itoa (pos number)) input_chain Place.filter_table rule s).1
          (add_rules tool (suc number) (written tool rules) t).1 fine in
      add_rules_lem (suc number) rules t q other parts.1
      ∙ ap (on b (λ c. c ++ rules)) (
          add_verified_lem (itoa (pos number)) input_chain Place.filter_table rule s q other
            parts.0)
      ∙ on-on b (λ c. c ++ rules) (λ c. c ++ rule ∷ []) (tool.rules s q other)
      ∙ on-same b (λ c. (c ++ rule ∷ []) ++ rules) (λ c. c ++ rule ∷ rules) (tool.rules s q other)
          (append_assoc (tool.rules s q other) (rule ∷ []) rules)

  -- Every rule that iptables appends is verified.
  add_rules_fine :
      (number : ℕ) (rules : List Rule) (s : S)
      → Accepts tool
      → (add_rules tool number (written tool rules) s).1 ≡ []
  unfolding add_rules written with_verb
  add_rules_fine number [] s accepts = refl
  add_rules_fine number (rule ∷ rules) s accepts =
      let a = adding (itoa (pos number)) input_chain Place.filter_table rule s in
      let none_of_it : a.1 ≡ [] =
        add_verified_fine (itoa (pos number)) input_chain Place.filter_table rule s
          (accepts s Place.filter_table input_chain rule) in
      ap (λ l. l ++ (add_rules tool (suc number) (written tool rules) a.0).1) none_of_it
      ∙ add_rules_fine (suc number) rules a.0 accepts

  module _ (parse_cidr : Text → Option Text) (interface address : Text) (s : S) where
    abbrev ensured : S × List RuleError
    ensured = ensure_wireguard_firewall tool parse_cidr interface address s

    abbrev expected : List Rule
    expected = firewall_rules interface (host_of (parse_cidr address) address)

    pub ensure_wireguard_firewall-rules :
        (q : Place) (other : Text)
        → ensured.1 ≡ []
        → tool.rules ensured.0 q other
          ≡ on
              (same_chain Place.filter_table input_chain q other)
              (λ c. remove_each (deleted tool expected s) c ++ expected)
              (tool.rules s q other)
    unfolding ensure_wireguard_firewall
    ensure_wireguard_firewall-rules q other fine =
        let b = same_chain Place.filter_table input_chain q other in
        add_rules_lem 1 expected (delete_rules tool (written tool expected) s) q other fine
        ∙ ap (on b (λ c. c ++ expected)) (delete_rules_lem expected s q other)
        ∙ on-on b (λ c. c ++ expected) (remove_each (deleted tool expected s))
            (tool.rules s q other)

    pub ensure_wireguard_firewall-fine : Accepts tool → ensured.1 ≡ []
    unfolding ensure_wireguard_firewall
    ensure_wireguard_firewall-fine accepts =
        add_rules_fine 1 expected (delete_rules tool (written tool expected) s) accepts
