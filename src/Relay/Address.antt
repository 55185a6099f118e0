-- ===== src/Relay/Address.antt =====
-- UDP addresses and the keys made of them (relay/relay.go): `net.UDPAddr.String`, the mapping
-- keys of `notifyServer` and `UpdateProxyMapping`, the connection keys of
-- `getOrCreateConnection`, and `containsIP`. Zones of link-local IPv6 addresses are left out.
use gerbil.Prelude.{
  ℕ, ◌+◌, Bool, true, false, ◌||◌, ◌&&◌, Option, none, some, [], ◌∷◌, ◌++◌, if◌then◌else◌, ◌==◌,
  ltb, Text, text_beq, ℤ, itoa, itoa_ℕ, length, take, text_eq, leb,
}

-- net.UDPAddr: the textual form of its IP (`IP.String()`), and its port.
pub record UdpAddr : Type 0 where
  pub ip : Text
  pub port : ℕ

unfoldable pub contains_byte : ℕ → Text → Bool
contains_byte c [] = false
contains_byte c (d ∷ s) = (d == c) || contains_byte c s

-- net.JoinHostPort brackets a host that holds a colon.
join_host_port : Text → Text → Text
unfolding contains_byte
join_host_port host port =
    if contains_byte b':' host then b'[' ∷ host ++ b']' ∷ b':' ∷ port else host ++ b':' ∷ port

-- UDPAddr.String
unfoldable pub addr_string : UdpAddr → Text
unfolding join_host_port
addr_string a = join_host_port a.ip (itoa_ℕ a.port)

-- fmt.Sprintf("%s:%d", ip, port)
unfoldable pub ip_port_key : Text → ℤ → Text
ip_port_key ip port = ip ++ b':' ∷ itoa port

-- The key of `getOrCreateConnection`.
unfoldable pub connection_key : UdpAddr → UdpAddr → Text
unfolding addr_string
connection_key dest remote = addr_string dest ++ b'-' ∷ addr_string remote

-- key[:len(p)] == p, with the length test in front.
unfoldable pub has_prefix : Text → Text → Bool
has_prefix p s = leb (length p) (length s) && text_beq (take (length p) s) p

-- What follows the first dash, if there is one.
unfoldable pub after_dash : Text → Option Text
after_dash [] = none
after_dash (c ∷ s) = if c == b'-' then some s else after_dash s

unfoldable pub remote_has_ip : Option Text → Text → Text → Bool
unfolding has_prefix
remote_has_ip none ip ip_with_colon = false
remote_has_ip (some rest) ip ip_with_colon =
    ltb 0 (length rest)
    && (leb (length ip + 1) (length rest) && text_beq (take (length ip + 1) rest) ip_with_colon)

unfoldable pub contains_ip : Text → Text → Bool
unfolding has_prefix after_dash remote_has_ip
contains_ip key ip =
    let ip_with_colon = ip ++ b':' ∷ [] in
    if has_prefix ip_with_colon key then true else remote_has_ip (after_dash key) ip ip_with_colon
