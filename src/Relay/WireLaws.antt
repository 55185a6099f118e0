-- ===== src/Relay/WireLaws.antt =====
-- Reading back what a WireGuard peer writes, the bounds of the indices, and which packets
-- `extractWireGuardIndices` of relay/relay.go refuses.
use gerbil.Prelude.{
  ℕ, suc, zero, ◌+◌, ◌/◌, ◌%◌, ◌^◌, ◌≤◌, ◌<◌, ◌≡◌, ◌↔◌, ◌⊎◌, ◌≢◌, true, none, some, [], ◌∷◌, arith,
  Text, length, All,
}
use gerbil.Relay.Wire.{
  byte_at, u32_at, Indices, extract_wire_guard_indices, handshake_initiation, handshake_response,
  transport_data, cookie_reply, is_wire_guard,
}

-- The four little-endian bytes of a number below 2^32.
abbrev put_u32 : ℕ → Text → Text
put_u32 n rest = (n % 256) ∷ (n / 256 % 256) ∷ (n / 65536 % 256) ∷ (n / 16777216) ∷ rest

-- The messages of the WireGuard protocol up to the fields that the relay reads.
pub data Message : Type 0 where
  initiation : (sender : ℕ) (rest : Text) → Message
  response : (sender receiver : ℕ) (rest : Text) → Message
  transport : (receiver : ℕ) (rest : Text) → Message

abbrev pub IsWellFormed : Message → Type 0
IsWellFormed (initiation s rest) = (s < 2 ^ 32) × (4 ≤ length rest)
IsWellFormed (response s r rest) = (s < 2 ^ 32) × (r < 2 ^ 32)
IsWellFormed (transport r rest) = (r < 2 ^ 32) × (4 ≤ length rest)

unfoldable pub encode : Message → Text
encode (initiation s rest) = handshake_initiation ∷ 0 ∷ 0 ∷ 0 ∷ put_u32 s rest
encode (response s r rest) = handshake_response ∷ 0 ∷ 0 ∷ 0 ∷ put_u32 s (put_u32 r rest)
encode (transport r rest) = transport_data ∷ 0 ∷ 0 ∷ 0 ∷ put_u32 r rest

abbrev pub indices : Message → Indices
indices (initiation s rest) = record { receiver_index = 0; sender_index = s }
indices (response s r rest) = record { receiver_index = r; sender_index = s }
indices (transport r rest) = record { receiver_index = r; sender_index = 0 }

-- The indices that extractWireGuardIndices reads from a well-formed handshake initiation,
-- handshake response or transport packet are those that its sender wrote.
pub extract-encode :
    (m : Message) → IsWellFormed m → extract_wire_guard_indices (encode m) ≡ some (indices m)
unfolding extract_wire_guard_indices encode
extract-encode (initiation s rest) w = ground arith
extract-encode (response s r rest) w = ground arith
extract-encode (transport r rest) w = ground arith

abbrev IsBytes : Text → Type 0
IsBytes = All λ b. b < 256

byte_at-lt : (p : Text) (i : ℕ) → IsBytes p → byte_at p i < 256
unfolding byte_at
byte_at-lt [] i h = omega arith
byte_at-lt (b ∷ p) zero h = h.0
byte_at-lt (b ∷ p) (suc i) h = byte_at-lt p i h.1

u32_at-lt : (p : Text) (i : ℕ) → IsBytes p → u32_at p i < 2 ^ 32
unfolding u32_at
u32_at-lt p i h = omega (
  arith,
  byte_at-lt p i h,
  byte_at-lt p (i + 1) h,
  byte_at-lt p (i + 2) h,
  byte_at-lt p (i + 3) h,
)

-- From a packet of bytes extractWireGuardIndices reads only indices below 2^32.
extract_bounds :
    (p : Text) (x : Indices)
    → IsBytes p
    → extract_wire_guard_indices p ≡ some x
    → (x.receiver_index < 2 ^ 32) × (x.sender_index < 2 ^ 32)
unfolding extract_wire_guard_indices
extract_bounds p x h e = ground (arith, u32_at-lt p 4 h, u32_at-lt p 8 h)

-- A packet is accepted exactly if it has twelve bytes and its type is 1, 2 or 4.
extract-eq-none_iff :
    (p : Text)
    → (extract_wire_guard_indices p ≡ none) ↔ (
        (length p < 12)
        ⊎ ((byte_at p 0 ≢ handshake_initiation)
            × (byte_at p 0 ≢ handshake_response)
            × (byte_at p 0 ≢ transport_data)))
unfolding extract_wire_guard_indices
extract-eq-none_iff p = ground arith

-- A cookie reply passes the test of `packetWorker` and is then refused.
pub cookie_reply_refused :
    (rest : Text)
    → (is_wire_guard (cookie_reply ∷ rest) ≡ true)
      × (extract_wire_guard_indices (cookie_reply ∷ rest) ≡ none)
unfolding is_wire_guard extract_wire_guard_indices
cookie_reply_refused rest = ground arith
