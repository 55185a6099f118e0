-- ===== src/Relay/Keys.antt =====
-- What the address keys of relay/relay.go tell apart: `containsIP` on the connection keys, and
-- the two spellings of a mapping key.
use mathlib.Core.List.{append_assoc, append-nil}
use gerbil.Prelude.{
  ℕ, ◌+◌, ◌≡◌, ◌↔◌, refl, true, false, ◌||◌, some, [], ◌∷◌, ◌++◌, arith, Text, text_beq, pos, itoa,
  itoa_ℕ, length, ap, lt→ltb, ◌<◌, length-append, Bool-cases, inl, inr, itoa_ℕ-Digits, Digits,
}
use gerbil.Relay.Address.{
  UdpAddr, contains_byte, addr_string, ip_port_key, connection_key, has_prefix, after_dash,
  contains_ip, remote_has_ip,
}

-- The textual form of an IPv4 address: neither a colon nor a dash.
pub record IsV4Text (ip : Text) : Type 0 where
  pub no_colon : contains_byte b':' ip ≡ false
  pub no_dash : contains_byte b'-' ip ≡ false

has_prefix-colon :
    (ip host rest : Text)
    → contains_byte b':' ip ≡ false
    → contains_byte b':' host ≡ false
    → has_prefix (ip ++ b':' ∷ []) (host ++ b':' ∷ rest) ≡ text_beq host ip
unfolding has_prefix contains_byte
has_prefix-colon [] [] rest h k = ground arith
has_prefix-colon [] (c ∷ host) rest h k = ground arith
has_prefix-colon (b ∷ ip) [] rest h k = ground arith
has_prefix-colon (b ∷ ip) (c ∷ host) rest h k = ground (arith, has_prefix-colon ip host rest)

after_dash-append :
    (s r : Text) → contains_byte b'-' s ≡ false → after_dash (s ++ b'-' ∷ r) ≡ some r
unfolding after_dash contains_byte
after_dash-append [] r h = refl
after_dash-append (c ∷ s) r h = ground (arith, after_dash-append s r)

contains_byte-append :
    (c : ℕ) (s t : Text) → contains_byte c (s ++ t) ≡ (contains_byte c s || contains_byte c t)
unfolding contains_byte
contains_byte-append c [] t = refl
contains_byte-append c (d ∷ s) t = ground (arith, contains_byte-append c s t)

Digits-no_dash : (s : Text) → Digits s → contains_byte b'-' s ≡ false
unfolding contains_byte
Digits-no_dash [] d = refl
Digits-no_dash (c ∷ s) d = ground (arith, Digits-no_dash s d.1)

addr_string_v4 : (a : UdpAddr) → IsV4Text a.ip → addr_string a ≡ a.ip ++ b':' ∷ itoa_ℕ a.port
unfolding addr_string
addr_string_v4 a v = rw v.no_colon refl

remote_has_ip_prefix :
    (ip rest : Text)
    → 0 < length rest
    → remote_has_ip (some rest) ip (ip ++ b':' ∷ []) ≡ has_prefix (ip ++ b':' ∷ []) rest
unfolding remote_has_ip
remote_has_ip_prefix ip rest h =
    let e : length (ip ++ b':' ∷ []) ≡ length ip + 1 = length-append ip (b':' ∷ []) in
    rw (lt→ltb 0 (length rest) h, e, has_prefix) refl

contains_ip_key :
    (host ip r : Text)
    → contains_byte b'-' host ≡ false
    → 0 < length r
    → contains_ip (host ++ b'-' ∷ r) ip
      ≡ (has_prefix (ip ++ b':' ∷ []) (host ++ b'-' ∷ r) || has_prefix (ip ++ b':' ∷ []) r)
unfolding contains_ip
contains_ip_key host ip r no_dash h =
    rw (after_dash-append host r no_dash, remote_has_ip_prefix ip r h) (ground arith)

host_no_dash :
    (a : UdpAddr) → contains_byte b'-' a.ip ≡ false → contains_byte b'-' (addr_string a) ≡ false
unfolding addr_string contains_byte
host_no_dash a h = ground (
  arith,
  contains_byte-append b'-' a.ip (b':' ∷ itoa_ℕ a.port),
  contains_byte-append b'-' a.ip (b']' ∷ b':' ∷ itoa_ℕ a.port),
  Digits-no_dash (itoa_ℕ a.port) (itoa_ℕ-Digits a.port),
)

has_prefix-addr_string :
    (a : UdpAddr) (ip r : Text)
    → IsV4Text a.ip
    → contains_byte b':' ip ≡ false
    → has_prefix (ip ++ b':' ∷ []) (addr_string a ++ r) ≡ text_beq a.ip ip
has_prefix-addr_string a ip r v h =
    rw (addr_string_v4 a v, append_assoc, has_prefix-colon ip a.ip _ h v.no_colon) refl

has_prefix-addr_string_v6 :
    (a : UdpAddr) (ip r : Text)
    → contains_byte b':' a.ip ≡ true
    → contains_byte b'[' ip ≡ false
    → has_prefix (ip ++ b':' ∷ []) (addr_string a ++ r) ≡ false
unfolding addr_string has_prefix contains_byte
has_prefix-addr_string_v6 a [] r v h = ground arith
has_prefix-addr_string_v6 a (c ∷ ip) r v h = ground arith

addr_string_pos : (a : UdpAddr) → 0 < length (addr_string a)
unfolding addr_string
addr_string_pos a = ground (
  arith,
  length-append a.ip (b':' ∷ itoa_ℕ a.port),
  length-append a.ip (b']' ∷ b':' ∷ itoa_ℕ a.port),
)

-- For a connection between two IPv4 addresses and an IP without a colon, containsIP on the key
-- answers whether the IP is that of the destination or that of the client.
pub contains_ip-connection_key :
    (dest remote : UdpAddr) (ip : Text)
    → IsV4Text dest.ip
    → IsV4Text remote.ip
    → contains_byte b':' ip ≡ false
    → contains_ip (connection_key dest remote) ip ≡ (text_beq dest.ip ip || text_beq remote.ip ip)
unfolding connection_key
contains_ip-connection_key dest remote ip d r h =
    rw
      (
        contains_ip_key (addr_string dest) ip (addr_string remote) (host_no_dash dest d.no_dash)
            (addr_string_pos remote),
        has_prefix-addr_string dest ip _ d h,
      )
      (ap (λ b. text_beq dest.ip ip || b)
        (rw (append-nil (addr_string remote)) at (has_prefix-addr_string remote ip [] r h)))

-- On the key of a connection between two IPv6 addresses, the destination's without a dash,
-- containsIP never finds an IP that has no bracket.
contains_ip-connection_key_v6 :
    (dest remote : UdpAddr) (ip : Text)
    → contains_byte b':' dest.ip ≡ true
    → contains_byte b'-' dest.ip ≡ false
    → contains_byte b':' remote.ip ≡ true
    → contains_byte b'[' ip ≡ false
    → contains_ip (connection_key dest remote) ip ≡ false
unfolding connection_key
contains_ip-connection_key_v6 dest remote ip d dash r h =
    rw
      (
        contains_ip_key (addr_string dest) ip (addr_string remote) (host_no_dash dest dash)
            (addr_string_pos remote),
        has_prefix-addr_string_v6 dest ip _ d h,
      )
      (rw (append-nil (addr_string remote)) at (has_prefix-addr_string_v6 remote ip [] r h))

-- The key under which UpdateProxyMapping stores the mapping of an address is the one by which
-- handleWireGuardPacket looks it up if and only if the IP has no colon.
pub ip_port_key-addr_string :
    (a : UdpAddr)
    → (ip_port_key a.ip (pos a.port) ≡ addr_string a) ↔ (contains_byte b':' a.ip ≡ false)
unfolding ip_port_key addr_string itoa
ip_port_key-addr_string a = elim (Bool-cases (contains_byte b':' a.ip)) [
  | inl colon ↦ rw colon ((λ e. absurd (longer e)), (λ e. cc))
  | inr plain ↦ rw plain ((λ _. refl), (λ _. refl))
]
  where
    longer : a.ip ++ b':' ∷ itoa_ℕ a.port ≡ b'[' ∷ a.ip ++ b']' ∷ b':' ∷ itoa_ℕ a.port → ⊥
    longer e = omega (
      arith,
      ap length e,
      length-append a.ip (b':' ∷ itoa_ℕ a.port),
      length-append a.ip (b']' ∷ b':' ∷ itoa_ℕ a.port),
    )
