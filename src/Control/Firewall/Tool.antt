-- ===== src/Control/Firewall/Tool.antt =====
-- The program iptables as main.go calls it: its arguments, and what it documents of appending,
-- deleting and checking a rule.
use gerbil.Prelude.{
  ◌≡◌, Bool, true, false, ◌&&◌, List, [], ◌∷◌, ◌++◌, if◌then◌else◌, Text, text_beq, codes,
}

abbrev pub Rule : Type 0
Rule = List Text

-- The table of a rule: the one that is meant without `-t`, or `-t mangle`.
pub data Place : Type 0 where
  filter_table : Place
  mangle_table : Place

abbrev pub append_verb : Text
append_verb = codes "-A"

abbrev pub delete_verb : Text
delete_verb = codes "-D"

abbrev pub check_verb : Text
check_verb = codes "-C"

abbrev pub arguments : Place → Text → Text → Rule → List Text
arguments Place.filter_table verb chain rule = verb ∷ chain ∷ rule
arguments Place.mangle_table verb chain rule = codes "-t" ∷ codes "mangle" ∷ verb ∷ chain ∷ rule

-- A run of the program with the given arguments, and the rules of a chain in their order.
pub record Iptables (S : Type 0) : Type 0 where
  pub run : S → List Text → S × Bool
  pub rules : S → Place → Text → List Rule

abbrev pub rule_beq : Rule → Rule → Bool
rule_beq [] [] = true
rule_beq [] (b ∷ t) = false
rule_beq (a ∷ r) [] = false
rule_beq (a ∷ r) (b ∷ t) = text_beq a b && rule_beq r t

abbrev pub has_rule : Rule → List Rule → Bool
has_rule rule [] = false
has_rule rule (r ∷ rs) = if rule_beq r rule then true else has_rule rule rs

abbrev pub remove_first : Rule → List Rule → List Rule
remove_first rule [] = []
remove_first rule (r ∷ rs) = if rule_beq r rule then rs else r ∷ remove_first rule rs

abbrev same_table : Place → Place → Bool
same_table Place.filter_table Place.filter_table = true
same_table Place.mangle_table Place.mangle_table = true
same_table _ _ = false

abbrev pub same_chain : Place → Text → Place → Text → Bool
same_chain p chain q other = same_table p q && text_beq chain other

-- What iptables documents: `-A` appends a rule to the chain or fails, `-D` deletes the first
-- matching rule or fails, for example without the lock of xtables, `-C` finds out whether there is one and changes nothing. No other chain changes.
pub record IsIptables {S : Type 0} (tool : Iptables S) : Type 0 where
  pub append :
      (s : S) (p : Place) (chain : Text) (rule : Rule) (q : Place) (other : Text)
      → let r = tool.run s (arguments p append_verb chain rule) in
        tool.rules r.0 q other ≡ (
          if same_chain p chain q other && r.1
          then tool.rules s q other ++ rule ∷ []
          else tool.rules s q other)
  pub delete :
      (s : S) (p : Place) (chain : Text) (rule : Rule) (q : Place) (other : Text)
      → let r = tool.run s (arguments p delete_verb chain rule) in
        tool.rules r.0 q other ≡ (
          if same_chain p chain q other && r.1
          then remove_first rule (tool.rules s q other)
          else tool.rules s q other)
  pub check :
      (s : S) (p : Place) (chain : Text) (rule : Rule)
      → (tool.run s (arguments p check_verb chain rule)).1 ≡ has_rule rule (tool.rules s p chain)
  pub check-same :
      (s : S) (p : Place) (chain : Text) (rule : Rule) (q : Place) (other : Text)
      → tool.rules (tool.run s (arguments p check_verb chain rule)).0 q other ≡ tool.rules s q other
