-- ===== src/Control/Examples/Accounting.antt =====
-- Three rounds of the bandwidth accounting of main.go.
use gerbil.Prelude.{ℕ, ◌+◌, ◌≡◌, refl, some, List, [], ◌∷◌, arith, Text, text_eq, codes}
use gerbil.Table.{load, IsMap}
use gerbil.Control.Bandwidth.{PeerStatus, PeerReading, Readings, is_current}
use gerbil.Control.Bandwidth.Readings.{AreDistinct, find_peer}
use gerbil.Control.Bandwidth.Totals.{Rounds, total_in, final_in, IsGrowing, total_in_lem}

abbrev key : Text
key = codes "k"

abbrev stale : Text
stale = codes "s"

abbrev peer : ℕ → PeerStatus
peer n = record { public_key = key; receive_bytes = n; transmit_bytes = 0 }

abbrev first : PeerReading
first = record { bytes_received = 100; bytes_transmitted = 0; last_checked = 1 }

abbrev readings : Readings
readings = (key, first) ∷ (stale, first) ∷ []

readings-IsMap : IsMap readings
unfolding load
readings-IsMap = (refl, (refl, tt))

known : load key readings ≡ some first
unfolding load
known = refl

one_peer : (n : ℕ) → AreDistinct (peer n ∷ [])
unfolding is_current
one_peer n = (refl, tt)

found : (n : ℕ) → find_peer key (peer n ∷ []) ≡ some (peer n)
unfolding find_peer
found n = refl

abbrev rounds : Rounds
rounds = (peer 150 ∷ [], 10) ∷ (peer 150 ∷ [], 20) ∷ (peer 400 ∷ [], 30) ∷ []

growing : IsGrowing key rounds first
growing = (
  one_peer 150,
  (
    peer 150,
    found 150,
    omega arith,
    omega arith,
    (
      one_peer 150,
      (
        peer 150,
        found 150,
        omega arith,
        omega arith,
        (one_peer 400, (peer 400, found 400, omega arith, omega arith, tt)),
      ),
    ),
  ),
)

total_in_lem_example : total_in key rounds readings + 100 ≡ final_in key rounds 100
total_in_lem_example = total_in_lem key rounds readings first readings-IsMap known growing

abbrev three : List ℕ
three = 1 ∷ 2 ∷ 3 ∷ []
