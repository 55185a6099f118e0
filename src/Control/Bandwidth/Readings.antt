-- ===== src/Control/Bandwidth/Readings.antt =====
-- What `calculatePeerBandwidth` of main.go reports, and which readings it keeps.
use gerbil.Prelude.{
  ℕ, ◌≡◌, refl, Bool, true, false, not, Option, none, some, List, [], ◌∷◌, arith, if◌then◌else◌,
  Text, text_eq, text_beq, text_beq_iff, ap, ◌∙◌, Bool-cases, inl, inr,
}
use gerbil.Table.{load, store, IsMap, load-store, load-delete_if, unless}
use gerbil.Table.Laws.{store-IsMap, delete_if-IsMap}
use gerbil.Control.Bandwidth.{
  PeerStatus, PeerReading, PeerBandwidth, Readings, reading_of, measure, read_peers, is_current,
  calculate_peer_bandwidth,
}

-- The device names every peer once.
abbrev pub AreDistinct : List PeerStatus → Type 0
AreDistinct [] = Unit
AreDistinct (p ∷ ps) = (is_current p.public_key ps ≡ false) × AreDistinct ps

unfoldable pub find_peer : Text → List PeerStatus → Option PeerStatus
find_peer key [] = none
find_peer key (p ∷ ps) =
    let rest = find_peer key ps in if text_beq p.public_key key then some p else rest

abbrev reading_after : ℕ → Option PeerStatus → Option PeerReading → Option PeerReading
reading_after now none old = old
reading_after now (some p) old = some (reading_of p now)

find-none :
    (key : Text) (ps : List PeerStatus) → is_current key ps ≡ false → find_peer key ps ≡ none
unfolding find_peer is_current
find-none key [] h = refl
find-none key (p ∷ ps) h = ground (arith, find-none key ps)

read_peers-load :
    (ps : List PeerStatus) (now : ℕ) (readings : Readings) (key : Text)
    → AreDistinct ps
    → load key (read_peers ps now readings).0
      ≡ reading_after now (find_peer key ps) (load key readings)
unfolding read_peers find_peer
read_peers-load [] now readings key d = refl
read_peers-load (p ∷ ps) now readings key d =
    read_peers-load ps now (store p.public_key (reading_of p now) readings) key d.1
    ∙ elim (Bool-cases (text_beq p.public_key key)) [
      | inl same ↦
          let e = (text_beq_iff p.public_key key).0 same in
          let absent : find_peer key ps ≡ none = find-none key ps (rw e at d.0) in
          rw (same, absent) (load-store p.public_key key (reading_of p now) readings ∙ rw same refl)
      | inr other ↦ rw other (
          ap (reading_after now (find_peer key ps))
            (load-store p.public_key key (reading_of p now) readings ∙ rw other refl))
    ]

read_peers-IsMap :
    (ps : List PeerStatus) (now : ℕ) (readings : Readings)
    → IsMap readings
    → IsMap (read_peers ps now readings).0
unfolding read_peers
read_peers-IsMap [] now readings m = m
read_peers-IsMap (p ∷ ps) now readings m =
    read_peers-IsMap ps now (store p.public_key (reading_of p now) readings)
      (store-IsMap p.public_key (reading_of p now) readings m)

abbrev pub reports_of : List PeerStatus → ℕ → Readings → List PeerBandwidth
reports_of [] now readings = []
reports_of (p ∷ ps) now readings =
    measure (load p.public_key readings) p now ∷ reports_of ps now readings

reports_of-store :
    (ps : List PeerStatus) (now : ℕ) (readings : Readings) (key : Text) (r : PeerReading)
    → is_current key ps ≡ false
    → reports_of ps now (store key r readings) ≡ reports_of ps now readings
unfolding is_current
reports_of-store [] now readings key r h = refl
reports_of-store (p ∷ ps) now readings key r h =
    let e : load p.public_key (store key r readings) ≡ load p.public_key readings = ground (
      arith,
      load-store key p.public_key r readings,
      text_beq_iff key p.public_key,
      text_beq_iff p.public_key key,
    ) in
    rw (e, reports_of-store ps now readings key r (ground arith)) refl

read_peers-reports_of :
    (ps : List PeerStatus) (now : ℕ) (readings : Readings)
    → AreDistinct ps
    → (read_peers ps now readings).1 ≡ reports_of ps now readings
unfolding read_peers
read_peers-reports_of [] now readings d = refl
read_peers-reports_of (p ∷ ps) now readings d =
    ap (λ l. measure (load p.public_key readings) p now ∷ l)
      (read_peers-reports_of ps now (store p.public_key (reading_of p now) readings) d.1
        ∙ reports_of-store ps now readings p.public_key (reading_of p now) d.0)

find-some :
    (key : Text) (ps : List PeerStatus)
    → is_current key ps ≡ true
    → (p : PeerStatus) × (find_peer key ps ≡ some p)
unfolding find_peer is_current
find-some key [] h = absurd (cc)
find-some key (p ∷ ps) h = elim (Bool-cases (text_beq p.public_key key)) [
  | inl same ↦ (p, rw same refl)
  | inr other ↦ let (q, e) = find-some key ps (rw other at h) in (q, rw other e)
]

unless-const : (b : Bool) (o : Option PeerReading) → unless (λ r. b) o ≡ (if b then none else o)
unless-const true none = refl
unless-const true (some r) = refl
unless-const false none = refl
unless-const false (some r) = refl

-- If the device names every peer once and the keys of lastReadings are distinct,
-- calculatePeerBandwidth keeps a reading of exactly the peers of the device, the new one, reports
-- each peer in order, measured against its old reading, and keeps the keys distinct.
pub calculate_peer_bandwidth_lem :
    (peers : List PeerStatus) (now : ℕ) (readings : Readings)
    → IsMap readings
    → AreDistinct peers
    → ((key : Text)
        → load key (calculate_peer_bandwidth peers now readings).0
          ≡ reading_after now (find_peer key peers) none)
      × ((calculate_peer_bandwidth peers now readings).1 ≡ reports_of peers now readings)
      × IsMap (calculate_peer_bandwidth peers now readings).0
unfolding calculate_peer_bandwidth
calculate_peer_bandwidth_lem peers now readings m d = (
  (λ key.
      load-delete_if (λ k r. not (is_current k peers)) key (read_peers peers now readings).0
        (read_peers-IsMap peers now readings m)
      ∙ unless-const (not (is_current key peers)) (load key (read_peers peers now readings).0)
      ∙ kept key),
  read_peers-reports_of peers now readings d,
  delete_if-IsMap (λ k r. not (is_current k peers)) (read_peers peers now readings).0
      (read_peers-IsMap peers now readings m),
)
  where
    kept :
        (key : Text)
        → (if not (is_current key peers) then none else load key (read_peers peers now readings).0)
          ≡ reading_after now (find_peer key peers) none
    kept key = elim (Bool-cases (is_current key peers)) [
      | inl here ↦
          let (p, e) = find-some key peers here in
          rw (here, e) (read_peers-load peers now readings key d ∙ rw e refl)
      | inr gone ↦ rw (gone, find-none key peers gone) refl
    ]
