-- ===== src/Control/Bandwidth/Totals.antt =====
-- What main.go reports of a peer over many rounds adds up to what its counter has grown by.
use gerbil.Prelude.{
  ℕ, ◌+◌, ◌≤◌, ◌<◌, ◌≡◌, refl, false, Option, none, some, List, [], ◌∷◌, arith, if◌then◌else◌, Text,
  text_eq, text_beq, text_beq_iff, ap, ◌∙◌, Bool-cases, inl, inr,
}
use gerbil.Table.{load, IsMap}
use gerbil.Control.Bandwidth.{
  PeerStatus, PeerReading, PeerBandwidth, Readings, reading_of, measure, is_current,
  calculate_peer_bandwidth,
}
use gerbil.Control.Bandwidth.Readings.{
  AreDistinct, find_peer, reports_of, calculate_peer_bandwidth_lem,
}

-- The bytes received that a list of reports gives a peer.
reported_in : Text → List PeerBandwidth → ℕ
reported_in key [] = 0
reported_in key (b ∷ bs) =
    (if text_beq b.public_key key then b.bytes_in else 0) + reported_in key bs

-- Rounds of `calculatePeerBandwidth`: what the device tells, and when.
abbrev pub Rounds : Type 0
Rounds = List (List PeerStatus × ℕ)

pub total_in : Text → Rounds → Readings → ℕ
unfolding reported_in
total_in key [] readings = 0
total_in key ((peers, now) ∷ rounds) readings =
    let (readings', reports) = calculate_peer_bandwidth peers now readings in
    reported_in key reports + total_in key rounds readings'

abbrev received : Option PeerStatus → ℕ → ℕ
received none n = n
received (some p) n = p.receive_bytes

-- The counter of the peer in the last round.
abbrev pub final_in : Text → Rounds → ℕ → ℕ
final_in key [] n = n
final_in key ((peers, now) ∷ rounds) n = final_in key rounds (received (find_peer key peers) n)

-- In every round the device has the peer, its counter has not gone down, and time has passed.
abbrev pub IsGrowing : Text → Rounds → PeerReading → Type 0
IsGrowing key [] r = Unit
IsGrowing key ((peers, now) ∷ rounds) r =
    AreDistinct peers
    × ((p : PeerStatus) × (find_peer key peers ≡ some p)
        × (r.bytes_received ≤ p.receive_bytes)
        × (r.last_checked < now)
        × IsGrowing key rounds (reading_of p now))

measure-key :
    (o : Option PeerReading) (p : PeerStatus) (now : ℕ)
    → (measure o p now).public_key ≡ p.public_key
unfolding measure
measure-key none p now = refl
measure-key (some last) p now = ground arith

reported_in-absent :
    (key : Text) (ps : List PeerStatus) (now : ℕ) (readings : Readings)
    → is_current key ps ≡ false
    → reported_in key (reports_of ps now readings) ≡ 0
unfolding reported_in is_current
reported_in-absent key [] now readings h = refl
reported_in-absent key (p ∷ ps) now readings h =
    rw (measure-key (load p.public_key readings) p now)
      (ground (arith, reported_in-absent key ps now readings (ground arith)))

reported_in-found :
    (key : Text) (ps : List PeerStatus) (now : ℕ) (readings : Readings) (p : PeerStatus)
    → AreDistinct ps
    → find_peer key ps ≡ some p
    → reported_in key (reports_of ps now readings) ≡ (measure (load key readings) p now).bytes_in
unfolding reported_in find_peer
reported_in-found key [] now readings p d h = absurd (cc)
reported_in-found key (q ∷ ps) now readings p d h = elim (Bool-cases (text_beq q.public_key key)) [
  | inl same ↦
      let e : q.public_key ≡ key = (text_beq_iff q.public_key key).0 same in
      let qp : q ≡ p = ground (arith, rw same at h) in
      let absent : reported_in key (reports_of ps now readings) ≡ 0 =
        reported_in-absent key ps now readings (rw e at d.0) in
      rw (measure-key (load q.public_key readings) q now, same, absent, ← qp, e) (omega arith)
  | inr other ↦
      rw (measure-key (load q.public_key readings) q now, other)
        (omega (arith, reported_in-found key ps now readings p d.1 (rw other at h)))
]

measured_growth :
    (r : PeerReading) (p : PeerStatus) (now : ℕ)
    → r.bytes_received ≤ p.receive_bytes
    → r.last_checked < now
    → (measure (some r) p now).bytes_in + r.bytes_received ≡ p.receive_bytes
unfolding measure
measured_growth r p now grown passed = ground arith

-- Over any rounds of calculatePeerBandwidth in each of which the device names every peer once,
-- has the peer, its receive counter has not gone down and time has passed, the received bytes
-- reported of a peer that had a reading add up to what the counter has grown by: nothing is lost
-- or counted twice.
pub total_in_lem :
    (key : Text) (rounds : Rounds) (readings : Readings) (r : PeerReading)
    → IsMap readings
    → load key readings ≡ some r
    → IsGrowing key rounds r
    → total_in key rounds readings + r.bytes_received ≡ final_in key rounds r.bytes_received
unfolding total_in
total_in_lem key [] readings r m h g = omega arith
total_in_lem key ((peers, now) ∷ rounds) readings r m h (d, (p, found, grown, passed, g)) =
    let (loads, reports, m') = calculate_peer_bandwidth_lem peers now readings m d in
    let here : load key (calculate_peer_bandwidth peers now readings).0 ≡ some (reading_of p now) =
      loads key ∙ rw found refl in
    let rest =
      total_in_lem key rounds (calculate_peer_bandwidth peers now readings).0 (reading_of p now) m'
        here g in
    let first : reported_in key (calculate_peer_bandwidth peers now readings).1
        ≡ (measure (some r) p now).bytes_in =
      ap (reported_in key) reports
      ∙ reported_in-found key peers now readings p d found
      ∙ ap (λ o. (measure o p now).bytes_in) h in
    rw found (omega (arith, rest, first, measured_growth r p now grown passed))
