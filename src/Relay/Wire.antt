-- ===== src/Relay/Wire.antt =====
-- The WireGuard framing that the relay reads (relay/relay.go): the message types, the
-- little-endian indices, `extractWireGuardIndices`, and the test by which `packetWorker` tells a
-- WireGuard packet from a hole punch message.
use gerbil.Prelude.{
  ℕ, ◌+◌, ◌*◌, Bool, ◌&&◌, Option, none, some, if◌then◌else◌, ◌==◌, ltb, leb, Text, length,
  get_elem?,
}

abbrev pub handshake_initiation : ℕ
handshake_initiation = 1

abbrev pub handshake_response : ℕ
handshake_response = 2

abbrev pub cookie_reply : ℕ
cookie_reply = 3

abbrev pub transport_data : ℕ
transport_data = 4

-- packet[i]; the code reads only below its length test.
unfoldable pub byte_at : Text → ℕ → ℕ
byte_at p i = elim (get_elem? p i) [ none ↦ 0 | some b ↦ b ]

-- binary.LittleEndian.Uint32(packet[i:i+4])
unfoldable pub u32_at : Text → ℕ → ℕ
unfolding byte_at
u32_at p i =
    byte_at p i + 256 * byte_at p (i + 1) + 65536 * byte_at p (i + 2) + 16777216 * byte_at p (i + 3)

pub record Indices : Type 0 where
  pub receiver_index : ℕ
  pub sender_index : ℕ

unfoldable pub extract_wire_guard_indices : Text → Option Indices
unfolding u32_at byte_at
extract_wire_guard_indices packet =
    if ltb (length packet) 12
    then none
    else if byte_at packet 0 == handshake_initiation
    then some (record { receiver_index = 0; sender_index = u32_at packet 4 })
    else if byte_at packet 0 == handshake_response
    then some (record { receiver_index = u32_at packet 8; sender_index = u32_at packet 4 })
    else if byte_at packet 0 == transport_data
    then some (record { receiver_index = u32_at packet 4; sender_index = 0 })
    else none

-- packet.n > 0 && packet.data[0] >= 1 && packet.data[0] <= 4
unfoldable pub is_wire_guard : Text → Bool
unfolding byte_at
is_wire_guard packet =
    ltb 0 (length packet) && (leb 1 (byte_at packet 0) && leb (byte_at packet 0) 4)
