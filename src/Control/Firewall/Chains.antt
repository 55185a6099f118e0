-- ===== src/Control/Firewall/Chains.antt =====
-- Changes of one chain of iptables, and lists of rules.
use gerbil.Prelude.{
  ◌≡◌, refl, sym, Bool, true, false, ◌&&◌, List, [], ◌∷◌, text_beq_iff, ◌++◌, arith, if◌then◌else◌,
  Text,
}
use gerbil.Control.Firewall.Tool.{Rule, Place, rule_beq, has_rule, remove_first, same_chain}

-- The chain without one copy of each of the rules.
abbrev pub remove_each : List Rule → List Rule → List Rule
remove_each [] chain = chain
remove_each (rule ∷ rules) chain = remove_each rules (remove_first rule chain)

pub rule_beq_refl : (r : Rule) → rule_beq r r ≡ true
rule_beq_refl [] = refl
rule_beq_refl (a ∷ r) = ground (arith, rule_beq_refl r, text_beq_iff a a)

pub has_rule-append : (r : Rule) (chain : List Rule) → has_rule r (chain ++ r ∷ []) ≡ true
has_rule-append r [] = rw (rule_beq_refl r) refl
has_rule-append r (x ∷ chain) = ground (arith, has_rule-append r chain)

-- A change of one chain.
abbrev pub on : Bool → (List Rule → List Rule) → List Rule → List Rule
on b f chain = if b then f chain else chain

pub on-on :
    (b : Bool) (f g : List Rule → List Rule) (chain : List Rule)
    → on b f (on b g chain) ≡ on b (λ c. f (g c)) chain
on-on true f g chain = refl
on-on false f g chain = refl

pub on-same :
    (b : Bool) (f g : List Rule → List Rule) (chain : List Rule)
    → f chain ≡ g chain
    → on b f chain ≡ on b g chain
on-same true f g chain e = e
on-same false f g chain e = refl

-- A deletion that succeeds or not, and then others.
pub on-remove :
    (b ok : Bool) (rule : Rule) (rules chain : List Rule)
    → on b (remove_each rules) (on (b && ok) (remove_first rule) chain)
      ≡ on b (remove_each (if ok then rule ∷ rules else rules)) chain
on-remove true true rule rules chain = refl
on-remove true false rule rules chain = refl
on-remove false ok rule rules chain = refl

pub on-id :
    (b : Bool) (f : List Rule → List Rule) (chain : List Rule)
    → f chain ≡ chain
    → chain ≡ on b f chain
on-id true f chain e = sym e
on-id false f chain e = refl

pub on-and :
    (b : Bool) (f : List Rule → List Rule) (chain : List Rule)
    → on (b && true) f chain ≡ on b f chain
on-and true f chain = refl
on-and false f chain = refl

pub same_chain_refl : (p : Place) (chain : Text) → same_chain p chain p chain ≡ true
same_chain_refl Place.filter_table chain = (text_beq_iff chain chain).1 refl
same_chain_refl Place.mangle_table chain = (text_beq_iff chain chain).1 refl

pub both_empty : {A : Type 0} (xs ys : List A) → xs ++ ys ≡ [] → (xs ≡ []) × (ys ≡ [])
both_empty [] ys e = (refl, e)
both_empty (x ∷ xs) ys e = absurd (cc)
