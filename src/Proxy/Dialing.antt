-- ===== src/Proxy/Dialing.antt =====
-- `dialRoute` of proxy/proxy.go: a remote target is resolved, every address is held against the
-- allowed networks, and the addresses are dialled in turn. Addresses are those of net/netip
-- without zones. The dial attempts are listed.
pub mod Reached
use gerbil.Prelude.{
  ℕ, ◌+◌, ◌*◌, ◌-◌, ◌/◌, ◌%◌, ◌^◌, ◌<◌, ◌≡◌, ◌⊎◌, inl, inr, refl, Bool, true, false, not, ◌&&◌,
  ◌||◌, Option, none, some, List, [], ◌∷◌, ◌++◌, arith, if◌then◌else◌, ◌==◌, leb, Text, All,
  Bool-cases, ap,
}
use gerbil.Proxy.Routes.{RouteRecord}

pub data IpAddr : Type 0 where
  v4 : (bits : ℕ) → IpAddr
  v6 : (bits : ℕ) → IpAddr

-- Addr.Unmap: an IPv4-mapped IPv6 address is its IPv4 address.
unmap : IpAddr → IpAddr
unmap (IpAddr.v4 n) = IpAddr.v4 n
unmap (IpAddr.v6 n) = if n / 2 ^ 32 == 65535 then IpAddr.v4 (n % 2 ^ 32) else IpAddr.v6 n

pub record Prefix : Type 0 where
  pub addr : IpAddr
  pub length : ℕ

-- Prefix.Contains: the family and the leading bits agree.
matches : IpAddr → ℕ → IpAddr → Bool
matches (IpAddr.v4 a) bits (IpAddr.v4 n) =
    leb bits 32 && (n / 2 ^ (32 - bits) == a / 2 ^ (32 - bits))
matches (IpAddr.v4 a) bits (IpAddr.v6 n) = false
matches (IpAddr.v6 a) bits (IpAddr.v4 n) = false
matches (IpAddr.v6 a) bits (IpAddr.v6 n) =
    leb bits 128 && (n / 2 ^ (128 - bits) == a / 2 ^ (128 - bits))

-- The loop over the allowed networks.
pub is_allowed : List Prefix → IpAddr → Bool
unfolding unmap matches
is_allowed [] ip = false
is_allowed (network ∷ networks) ip =
    matches network.addr network.length (unmap ip) || is_allowed networks ip

pub all_allowed : List Prefix → List IpAddr → Bool
unfolding is_allowed
all_allowed networks [] = true
all_allowed networks (ip ∷ ips) = is_allowed networks ip && all_allowed networks ips

pub data DialResult : Type 0 where
  unresolved : DialResult
  no_addresses : DialResult
  outside_networks : DialResult
  unreachable : DialResult
  connected_name : (host : Text) → DialResult
  connected : (ip : IpAddr) → DialResult

-- The loop of dials, with its attempts. `dials` says which succeed.
pub dial_first : (IpAddr → Bool) → List IpAddr → List IpAddr × DialResult
dial_first dials [] = ([], DialResult.unreachable)
dial_first dials (ip ∷ ips) =
    let (attempts, result) = dial_first dials ips in
    if dials ip then (ip ∷ [], DialResult.connected ip) else (ip ∷ attempts, result)

pub dial_resolved : Option (List IpAddr) → List Prefix → (IpAddr → Bool) → List IpAddr × DialResult
unfolding all_allowed dial_first
dial_resolved none networks dials = ([], DialResult.unresolved)
dial_resolved (some []) networks dials = ([], DialResult.no_addresses)
dial_resolved (some (ip ∷ ips)) networks dials =
    if all_allowed networks (ip ∷ ips)
    then dial_first dials (ip ∷ ips)
    else ([], DialResult.outside_networks)

-- A route that is not remote is dialled by name.
unfoldable pub dial_route :
    RouteRecord
    → List Prefix
    → (Text → Option (List IpAddr))
    → (IpAddr → Bool)
    → (Text → Bool)
    → List IpAddr × DialResult
unfolding dial_resolved
dial_route route networks lookup_net_ip dials dials_name =
    if not route.remote
    then (
      [],
      if dials_name route.target_host
          then DialResult.connected_name route.target_host
          else DialResult.unreachable,
    )
    else dial_resolved (lookup_net_ip route.target_host) networks dials

-- What dialling does with the addresses: the attempts are a beginning of them, all but the last
-- attempt failed, and the last is the connection if there is one.
abbrev pub Tried : (IpAddr → Bool) → List IpAddr → List IpAddr × DialResult → Type 0
Tried dials ips r =
    ((r ≡ (ips, DialResult.unreachable)) × All (λ ip. dials ip ≡ false) ips)
    ⊎ ((before : List IpAddr) × (ip : IpAddr) × (after : List IpAddr) × (ips ≡ before ++ ip ∷ after)
        × All (λ a. dials a ≡ false) before
        × (dials ip ≡ true)
        × (r ≡ (before ++ ip ∷ [], DialResult.connected ip)))

pub dial_first_lem :
    (dials : IpAddr → Bool) (ips : List IpAddr) → Tried dials ips (dial_first dials ips)
unfolding dial_first
dial_first_lem dials [] = inl (refl, tt)
dial_first_lem dials (ip ∷ ips) = elim (Bool-cases (dials ip)) [
  | inl hit ↦ rw hit (inr ([], ip, ips, refl, tt, hit, refl))
  | inr miss ↦ rw miss (elim (dial_first_lem dials ips) [
    | inl (e, failed) ↦ inl (rw e refl, (refl, failed))
    | inr (before, a, after, split, failed, hit, e) ↦
        inr (ip ∷ before, a, after, ap (λ l. ip ∷ l) split, (miss, failed), hit, rw e refl)
  ])
]

pub all_allowed-All :
    (networks : List Prefix) (ips : List IpAddr)
    → all_allowed networks ips ≡ true
    → All (λ ip. is_allowed networks ip ≡ true) ips
unfolding all_allowed
all_allowed-All networks [] h = tt
all_allowed-All networks (ip ∷ ips) h = (ground arith, all_allowed-All networks ips (ground arith))

-- If a remote route's host resolves, dialRoute dials nothing when there is no address or one of
-- them is outside the allowed networks; otherwise every address is allowed, and it dials them in
-- order up to the first that answers, and connects to that one if there is one.
pub dial_route_lem :
    (route : RouteRecord) (networks : List Prefix) (lookup_net_ip : Text → Option (List IpAddr))
    (dials : IpAddr → Bool) (dials_name : Text → Bool) (ips : List IpAddr)
    → route.remote ≡ true
    → lookup_net_ip route.target_host ≡ some ips
    → let r = dial_route route networks lookup_net_ip dials dials_name in
      ((r.0 ≡ []) × ((ips ≡ []) ⊎ (all_allowed networks ips ≡ false)))
      ⊎ (All (λ ip. is_allowed networks ip ≡ true) ips × Tried dials ips r)
unfolding dial_route dial_resolved
dial_route_lem route networks lookup_net_ip dials dials_name [] remote found =
    rw (remote, found) (inl (refl, inl refl))
dial_route_lem route networks lookup_net_ip dials dials_name (ip ∷ ips) remote found =
    elim (Bool-cases (all_allowed networks (ip ∷ ips))) [
      | inl allowed ↦
          rw (remote, found, dial_resolved, allowed)
            (inr (all_allowed-All networks (ip ∷ ips) allowed, dial_first_lem dials (ip ∷ ips)))
      | inr outside ↦ rw (remote, found, dial_resolved, outside) (inl (refl, inr refl))
    ]

-- An IPv4-mapped IPv6 address is within the allowed networks if and only if its IPv4 address is.
is_allowed_mapped :
    (networks : List Prefix) (n : ℕ)
    → n < 2 ^ 32
    → is_allowed networks (IpAddr.v6 (65535 * 2 ^ 32 + n)) ≡ is_allowed networks (IpAddr.v4 n)
unfolding is_allowed unmap
is_allowed_mapped [] n h = refl
is_allowed_mapped (network ∷ networks) n h = ground (arith, is_allowed_mapped networks n h)
