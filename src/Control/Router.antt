-- ===== src/Control/Router.antt =====
-- Which peer networks the /router proxy of main.go may reach: the trie of `routerCIDRNode` and
-- `unrestrictedRouterNetworks`. An address is its bits, the most significant first; a network is the
-- bits of its prefix, with the width of its family. Networks of another width are left out by the
-- code and have no place here.
pub mod Cover
pub mod Marks
pub mod Families
pub mod Blocking
use gerbil.Prelude.{
  ℕ, suc, zero, ◌+◌, Bool, true, false, not, ◌&&◌, ◌||◌, List, [], ◌∷◌, ◌++◌, if◌then◌else◌, ◌==◌,
  length,
}

-- A nil pointer, or a node with its two children and the indexes of the networks that end there.
pub data Trie : Type 0 where
  missing : Trie
  node : (zero_child one_child : Trie) (network_indexes : List ℕ) → Trie

pub record Network : Type 0 where
  pub prefix : List Bool
  pub is_v6 : Bool

-- The loop over the bits of a prefix, which makes the nodes that are missing.
pub insert : List Bool → ℕ → Trie → Trie
insert [] index Trie.missing = Trie.node Trie.missing Trie.missing (index ∷ [])
insert [] index (Trie.node l r indexes) = Trie.node l r (indexes ++ index ∷ [])
insert (b ∷ bits) index Trie.missing =
    let child = insert bits index Trie.missing in
    if b then Trie.node Trie.missing child [] else Trie.node child Trie.missing []
insert (b ∷ bits) index (Trie.node l r indexes) =
    let left = insert bits index l in
    let right = insert bits index r in
    if b then Trie.node l right indexes else Trie.node left r indexes

pub router_cidr_covered : Trie → Bool
router_cidr_covered Trie.missing = false
router_cidr_covered (Trie.node l r []) = router_cidr_covered l && router_cidr_covered r
router_cidr_covered (Trie.node l r (i ∷ indexes)) = true

-- The code follows no nil pointer here: it marks only a trie that is covered.
pub mark_router_cidr_cover : Trie → List ℕ → List ℕ
mark_router_cidr_cover Trie.missing blocked = blocked
mark_router_cidr_cover (Trie.node l r []) blocked =
    mark_router_cidr_cover r (mark_router_cidr_cover l blocked)
mark_router_cidr_cover (Trie.node l r (i ∷ indexes)) blocked = i ∷ indexes ++ blocked

-- A key of the map `blocked`.
pub is_blocked : ℕ → List ℕ → Bool
is_blocked index [] = false
is_blocked index (i ∷ blocked) = (i == index) || is_blocked index blocked

abbrev pub empty_root : Trie
empty_root = Trie.node Trie.missing Trie.missing []

abbrev pub same_family : Bool → Bool → Bool
same_family true b = b
same_family false b = not b

-- The trie of one family: the networks, numbered from `index` on, that are not blocked.
pub build : Bool → List ℕ → ℕ → List Network → Trie → Trie
unfolding insert is_blocked
build v6 blocked index [] trie = trie
build v6 blocked index (n ∷ networks) trie = build v6 blocked (suc index) networks (
    if not (is_blocked index blocked) && same_family v6 n.is_v6
    then insert n.prefix index trie
    else trie)

pub mark_if_covered : Trie → List ℕ → List ℕ
unfolding router_cidr_covered mark_router_cidr_cover
mark_if_covered trie blocked =
    if router_cidr_covered trie then mark_router_cidr_cover trie blocked else blocked

-- One round of the loop: the new set, and whether it has changed.
pub round : List Network → List ℕ → List ℕ × Bool
unfolding build mark_if_covered router_cidr_covered
round networks blocked =
    let v4 = build false blocked 0 networks empty_root in
    let v6 = build true blocked 0 networks empty_root in
    (
      mark_if_covered v6 (mark_if_covered v4 blocked),
      router_cidr_covered v4 || router_cidr_covered v6,
    )

pub rounds : ℕ → List Network → List ℕ → List ℕ
unfolding round
rounds zero networks blocked = blocked
rounds (suc fuel) networks blocked =
    let (blocked', changed) = round networks blocked in
    let rest = rounds fuel networks blocked' in if changed then rest else blocked'

-- Each round that goes on blocks a network, so that their number and one more rounds are enough.
unfoldable pub unrestricted_router_networks : List Network → List ℕ
unfolding rounds
unrestricted_router_networks networks = rounds (suc (length networks)) networks []
