-- ===== src/Proxy/Dialing/Reached.antt =====
-- Where `dialRoute` of proxy/proxy.go connects to.
use gerbil.Prelude.{
  ◌≡◌, ◌⊎◌, inl, inr, refl, Bool, true, false, Option, none, some, List, [], ◌∷◌, ◌++◌, Text, All,
  Bool-cases, ap, subst,
}
use gerbil.Proxy.Routes.{RouteRecord}
use gerbil.Proxy.Dialing.{
  IpAddr, Prefix, DialResult, dial_route, dial_resolved, dial_first, is_allowed, all_allowed,
  all_allowed-All, dial_first_lem,
}

-- The target of a local route is dialled by its name; that of a remote route is an address within
-- the allowed networks.
abbrev pub IsReached : List Prefix → RouteRecord → DialResult → Type 0
IsReached networks route target =
    ((route.remote ≡ false) × (target ≡ DialResult.connected_name route.target_host))
    ⊎ ((route.remote ≡ true)
        × (ip : IpAddr) × (target ≡ DialResult.connected ip)
        × (is_allowed networks ip ≡ true))

All-middle :
    {A : Type 0} (P : A → Type 0) (before : List A) (x : A) (after : List A)
    → All P (before ++ x ∷ after)
    → P x
All-middle P [] x after h = h.0
All-middle P (b ∷ before) x after h = All-middle P before x after h.1

-- A dial without a connection.
abbrev pub IsFailed : DialResult → Type 0
IsFailed (DialResult.connected_name host) = ⊥
IsFailed (DialResult.connected ip) = ⊥
IsFailed _ = Unit {0}

dial_first-IsReached :
    (networks : List Prefix) (dials : IpAddr → Bool) (ips : List IpAddr)
    → all_allowed networks ips ≡ true
    → let target = (dial_first dials ips).1 in
      IsFailed target
      ⊎ ((ip : IpAddr) × (target ≡ DialResult.connected ip) × (is_allowed networks ip ≡ true))
dial_first-IsReached networks dials ips allowed = elim (dial_first_lem dials ips) [
  | inl (e, failed) ↦ rw e (inl tt)
  | inr (before, ip, after, split, failed, hit, e) ↦ inr (
    ip,
    ap (λ r. r.1) e,
    All-middle (λ a. is_allowed networks a ≡ true) before ip after
        (subst (λ l. All (λ a. is_allowed networks a ≡ true) l) split
          (all_allowed-All networks ips allowed)),
  )
]

dial_resolved-IsReached :
    (networks : List Prefix) (dials : IpAddr → Bool) (found : Option (List IpAddr))
    → let target = (dial_resolved found networks dials).1 in
      IsFailed target
      ⊎ ((ip : IpAddr) × (target ≡ DialResult.connected ip) × (is_allowed networks ip ≡ true))
unfolding dial_resolved
dial_resolved-IsReached networks dials none = inl tt
dial_resolved-IsReached networks dials (some []) = inl tt
dial_resolved-IsReached networks dials (some (ip ∷ ips)) =
    elim (Bool-cases (all_allowed networks (ip ∷ ips))) [
      | inl allowed ↦ rw allowed (dial_first-IsReached networks dials (ip ∷ ips) allowed)
      | inr outside ↦ rw outside (inl tt)
    ]

pub dial_route-IsReached :
    (networks : List Prefix) (lookup_net_ip : Text → Option (List IpAddr)) (dials : IpAddr → Bool)
    (dials_name : Text → Bool) (route : RouteRecord)
    → let target = (dial_route route networks lookup_net_ip dials dials_name).1 in
      IsFailed target ⊎ IsReached networks route target
unfolding dial_route
dial_route-IsReached networks lookup_net_ip dials dials_name route =
    elim (Bool-cases route.remote) [
      | inl remote ↦
          rw remote
            (elim (dial_resolved-IsReached networks dials (lookup_net_ip route.target_host)) [
              | inl failed ↦ inl failed
              | inr (ip, e, allowed) ↦ inr (inr (refl, ip, e, allowed))
            ])
      | inr local ↦ elim (Bool-cases (dials_name route.target_host)) [
        | inl hit ↦ rw (local, hit) (inr (inl (refl, refl)))
        | inr miss ↦ rw (local, miss) (inl tt)
      ]
    ]
