-- ===== src/Control/Firewall/Clamping.antt =====
-- What `ensureMSSClamping` of main.go leaves in the chains of iptables.
use gerbil.Prelude.{◌≡◌, refl, ap, ◌∙◌, List, [], ◌∷◌, ◌++◌, ◌&&◌, Text, codes, ℤ, pos, ◌-ℤ◌, itoa}
use gerbil.Control.Firewall.Tool.{
  Rule, Iptables, IsIptables, Place, remove_first, same_chain, arguments, delete_verb,
}
use gerbil.Control.Firewall.{
  delete_clamping, add_clamping, ensure_mss_clamping, clamping_rule, clamped_chains,
}
use gerbil.Control.Firewall.Chains.{on, both_empty}
use gerbil.Control.Firewall.Rules.{adding, delete_attempts_once, add_verified_lem}

-- One change for each of the chains.
abbrev changes : (List Rule → List Rule) → List Text → Place → Text → List Rule → List Rule
changes f [] q other rules = rules
changes f (chain ∷ chains) q other rules =
    changes f chains q other (on (same_chain Place.mangle_table chain q other) f rules)

module _ {S : Type 0} (tool : Iptables S) (lawful : IsIptables tool) (mss : Text) (q : Place)
    (other : Text) where
  -- The chain after `-D` was run for the chains one after the other.
  cleared : List Text → S → List Rule → List Rule
  cleared [] s rules = rules
  cleared (chain ∷ chains) s rules =
      let (t, ok) =
        tool.run s (arguments Place.mangle_table delete_verb chain (clamping_rule mss)) in
      cleared chains t (
        on (same_chain Place.mangle_table chain q other && ok) (remove_first (clamping_rule mss))
          rules)

  delete_clamping_lem :
      (chains : List Text) (s : S)
      → tool.rules (delete_clamping tool mss chains s) q other
        ≡ cleared chains s (tool.rules s q other)
  unfolding delete_clamping cleared
  delete_clamping_lem [] s = refl
  delete_clamping_lem (chain ∷ chains) s =
      let rule = clamping_rule mss in
      let args = arguments Place.mangle_table delete_verb chain rule in
      let t = (tool.run s args).0 in
      ap (λ u. tool.rules (delete_clamping tool mss chains u) q other)
        (delete_attempts_once tool lawful 1 args s)
      ∙ delete_clamping_lem chains t
      ∙ ap (cleared chains t) (lawful.delete s Place.mangle_table chain rule q other)

  add_clamping_lem :
      (chains : List Text) (s : S)
      → (add_clamping tool mss chains s).1 ≡ []
      → tool.rules (add_clamping tool mss chains s).0 q other
        ≡ changes (λ c. c ++ clamping_rule mss ∷ []) chains q other (tool.rules s q other)
  unfolding add_clamping
  add_clamping_lem [] s fine = refl
  add_clamping_lem (chain ∷ chains) s fine =
      let a = adding tool lawful chain chain Place.mangle_table (clamping_rule mss) s in
      let parts = both_empty a.1 (add_clamping tool mss chains a.0).1 fine in
      add_clamping_lem chains a.0 parts.1
      ∙ ap (changes (λ c. c ++ clamping_rule mss ∷ []) chains q other) (
          add_verified_lem tool lawful chain chain Place.mangle_table (clamping_rule mss) s q other
            parts.0)

-- What stands in the chains afterwards, if `-D` is run for them one after the other from the state
-- `t`: the rule at the end, and before it the chain, less its first copy of the rule where `-D`
-- succeeds.
pub AreClamped : {S : Type 0} → Iptables S → Rule → S → S → List Text → S → Type 0
AreClamped tool rule s result [] t = Unit
AreClamped tool rule s result (chain ∷ chains) t =
    let (u, ok) = tool.run t (arguments Place.mangle_table delete_verb chain rule) in
    (tool.rules result Place.mangle_table chain
      ≡ on ok (remove_first rule) (tool.rules s Place.mangle_table chain) ++ rule ∷ [])
    × AreClamped tool rule s result chains u

-- Where it returns no error, ensureMSSClamping has left in each of the three chains what was
-- there, less the first copy of the rule for the MTU less 40 exactly where -D succeeds, if it is
-- run for the chains in turn, and that rule behind it.
pub ensure_mss_clamping_lem :
    {S : Type 0} (tool : Iptables S) (mtu : ℤ) (s : S)
    → IsIptables tool
    → let rule = clamping_rule (itoa (mtu -ℤ pos 40)) in
      let result = ensure_mss_clamping tool mtu s in
      result.1 ≡ [] → AreClamped tool rule s result.0 clamped_chains s
unfolding ensure_mss_clamping AreClamped cleared
ensure_mss_clamping_lem tool mtu s lawful fine =
    let mss = itoa (mtu -ℤ pos 40) in
    let before = delete_clamping tool mss clamped_chains s in
    let in_chain : (chain : Text)
        → tool.rules (add_clamping tool mss clamped_chains before).0 Place.mangle_table chain
          ≡ changes (λ c. c ++ clamping_rule mss ∷ []) clamped_chains Place.mangle_table chain
              (cleared tool lawful mss Place.mangle_table chain clamped_chains s
                (tool.rules s Place.mangle_table chain)) =
      λ chain.
        add_clamping_lem tool lawful mss Place.mangle_table chain clamped_chains before fine
        ∙ ap (changes (λ c. c ++ clamping_rule mss ∷ []) clamped_chains Place.mangle_table chain)
            (delete_clamping_lem tool lawful mss Place.mangle_table chain clamped_chains s) in
    (in_chain (codes "INPUT"), (in_chain (codes "OUTPUT"), (in_chain (codes "FORWARD"), tt)))
