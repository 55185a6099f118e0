-- ===== src/Control/Examples/Shaping.antt =====
-- Bandwidth limits of main.go: a listing of two filters, and the removal of a peer's limit.
use gerbil.Prelude.{◌≡◌, ◌↔◌, refl, true, Option, none, some, [], ◌∷◌, ◌++◌, Text, codes, inl, inr}
use gerbil.Strings.{has_byte, contains, starts_with, split_at, fields, drop_empty}
use gerbil.Control.Shaping.Exec.{Answers, run}
use gerbil.Control.Shaping.Commands.{Settings, wg, class_of, delete_filter}
use gerbil.Control.Shaping.{
  plain_ip, last_octet, handle_of, is_listed, is_deleted, remove_peer_bandwidth_limit,
  setup_peer_bandwidth_limit, ensure_ifb_device, link_found,
}
use gerbil.Control.Shaping.Removal.{Ran, listing}
use gerbil.Control.Shaping.Limits.{
  Shows, ListsLonger, remove_peer_bandwidth_limit_lem, removal_hits_longer,
}

abbrev settings : Settings
settings = record {
  interface_name = codes "wg0";
  ifb_name = codes "ifb0";
  bandwidth_limit = codes "50mbit";
  ifb_loaded = true;
}

abbrev parse_cidr : Text → Option Text
parse_cidr s = none

abbrev own_line : Text
own_line = codes "filter parent 1: u32 fh 800::800 flowid 1:4"

abbrev other_line : Text
other_line = codes "filter parent 1: u32 fh 800::801 flowid 1:42"

-- Each command prints the same two lines.
abbrev answers : Answers
answers ran command = record { printed = own_line ++ 10 ∷ other_line; succeeded = true }

abbrev peer_ip : Text
peer_ip = codes "10.0.0.4"

plain : plain_ip parse_cidr peer_ip ≡ some peer_ip
unfolding plain_ip starts_with
plain = refl

octet : last_octet peer_ip ≡ some (codes "4")
unfolding last_octet
octet = refl

listed_longer :
    ListsLonger
      (class_of (wg settings) (codes "4"))
      (codes "2")
      (codes "800::801")
      (listing (wg settings) answers [])
unfolding is_deleted handle_of fields split_at contains starts_with drop_empty is_listed
listed_longer = inr (inl (refl, refl))

-- The removal of the limit of 10.0.0.4 deletes the filter of a peer whose class is 1:42.
removal_hits_longer_example :
    Ran
      (delete_filter (wg settings) (codes "800::801"))
      (remove_peer_bandwidth_limit settings parse_cidr peer_ip answers []).0
removal_hits_longer_example =
    removal_hits_longer settings parse_cidr peer_ip peer_ip (codes "4") (codes "2")
      (codes "800::801") answers plain octet listed_longer

remove_peer_bandwidth_limit_lem_example :
    ((remove_peer_bandwidth_limit settings parse_cidr peer_ip answers []).1 ≡ some tt)
    × (Ran
          (delete_filter (wg settings) (codes "800::800"))
          (remove_peer_bandwidth_limit settings parse_cidr peer_ip answers []).0
        ↔ Shows (codes "1:4") (codes "800::800") (listing (wg settings) answers []))
unfolding has_byte
remove_peer_bandwidth_limit_lem_example =
    remove_peer_bandwidth_limit_lem settings parse_cidr peer_ip (codes "10") (codes "0") (codes "0")
      (codes "4") (codes "800::800") answers plain refl refl refl refl

-- The first limit on a device that prints no `htb` makes the root, the classes and the filters.
set_up : (setup_peer_bandwidth_limit settings parse_cidr peer_ip answers []).1 ≡ some tt
unfolding setup_peer_bandwidth_limit run contains starts_with
set_up = refl

ifb_ready : (ensure_ifb_device settings link_found answers []).1 ≡ some tt
unfolding ensure_ifb_device run contains starts_with
ifb_ready = refl
