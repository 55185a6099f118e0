-- ===== src/Control/Bandwidth.antt =====
-- Bandwidth accounting of main.go: `calculatePeerBandwidth` over `lastReadings`, and the batches of
-- `reportPeerBandwidth`. Counters are numbers of bytes; the reports hold bytes, which the code
-- divides by 1024 * 1024 as it stores them. Times are nanoseconds.
pub mod Readings
pub mod Totals
pub mod Batches
use gerbil.Prelude.{
  ℕ, suc, zero, ◌+◌, ◌-◌, Bool, true, false, not, ◌||◌, Option, none, some, List, [], ◌∷◌,
  if◌then◌else◌, ltb, Text, text_eq, text_beq, take, drop, length, atoi, ℤ, pos, negsuc,
}
use gerbil.Table.{Table, load, store, delete_if}

-- What the device tells of a peer.
pub record PeerStatus : Type 0 where
  pub public_key : Text
  pub receive_bytes : ℕ
  pub transmit_bytes : ℕ

pub record PeerReading : Type 0 where
  pub bytes_received : ℕ
  pub bytes_transmitted : ℕ
  pub last_checked : ℕ

pub record PeerBandwidth : Type 0 where
  pub public_key : Text
  pub bytes_in : ℕ
  pub bytes_out : ℕ

abbrev pub Readings : Type 0
Readings = Table Text PeerReading

abbrev pub reading_of : PeerStatus → ℕ → PeerReading
reading_of p now = record {
  bytes_received = p.receive_bytes;
  bytes_transmitted = p.transmit_bytes;
  last_checked = now;
}

-- The difference of two counters; a counter that went down has started anew.
abbrev counted : ℕ → ℕ → ℕ
counted current last = if ltb current last then current else current - last

pub measure : Option PeerReading → PeerStatus → ℕ → PeerBandwidth
measure none p now = record { public_key = p.public_key; bytes_in = 0; bytes_out = 0 }
measure (some last) p now =
    if ltb last.last_checked now
    then record {
      public_key = p.public_key;
      bytes_in = counted p.receive_bytes last.bytes_received;
      bytes_out = counted p.transmit_bytes last.bytes_transmitted;
    }
    else record { public_key = p.public_key; bytes_in = 0; bytes_out = 0 }

-- The loop over the peers of the device.
pub read_peers : List PeerStatus → ℕ → Readings → Readings × List PeerBandwidth
unfolding measure
read_peers [] now readings = (readings, [])
read_peers (p ∷ ps) now readings =
    let report = measure (load p.public_key readings) p now in
    let (readings', reports) = read_peers ps now (store p.public_key (reading_of p now) readings) in
    (readings', report ∷ reports)

-- currentPeerKeys
unfoldable pub is_current : Text → List PeerStatus → Bool
is_current key [] = false
is_current key (p ∷ ps) = text_beq p.public_key key || is_current key ps

pub calculate_peer_bandwidth : List PeerStatus → ℕ → Readings → Readings × List PeerBandwidth
unfolding read_peers is_current
calculate_peer_bandwidth peers now readings =
    let (readings', reports) = read_peers peers now readings in
    (delete_if (λ key r. not (is_current key peers)) readings', reports)

positive_or : ℕ → Option ℤ → ℕ
positive_or default (some (pos (suc n))) = suc n
positive_or default _ = default

-- GERBIL_BANDWIDTH_BATCH_SIZE, a positive number, or 250.
pub load_bandwidth_report_batch_size : Text → ℕ
unfolding positive_or
load_bandwidth_report_batch_size env = positive_or 250 (atoi env)

-- bandwidths[start:end], from each start on. The fuel bounds the number of rounds.
pub batches {ℓ} : {A : Type ℓ} → ℕ → ℕ → List A → List (List A)
batches zero size xs = []
batches (suc fuel) size [] = []
batches (suc fuel) size (x ∷ xs) = take size (x ∷ xs) ∷ batches fuel size (drop size (x ∷ xs))

-- Every batch is sent; the result counts those that failed.
send_batches : (List PeerBandwidth → Bool) → List (List PeerBandwidth) → ℕ
send_batches sends [] = 0
send_batches sends (b ∷ bs) =
    let failed = send_batches sends bs in if sends b then failed else suc failed

-- The new readings, the batches in the order of their requests, and how many failed. Where the
-- device cannot be read nothing is sent.
report_peer_bandwidth :
    ℕ
    → Option (List PeerStatus)
    → ℕ
    → Readings
    → (List PeerBandwidth → Bool)
    → Readings × Option (List (List PeerBandwidth) × ℕ)
unfolding calculate_peer_bandwidth batches send_batches
report_peer_bandwidth size none now readings sends = (readings, none)
report_peer_bandwidth size (some peers) now readings sends =
    let (readings', reports) = calculate_peer_bandwidth peers now readings in
    let sent = batches (length reports) size reports in
    (readings', some (sent, send_batches sends sent))
