-- ===== src/Control/Shaping.antt =====
-- Bandwidth limits of peers in main.go: `ensureIFBDevice`, `setupPeerBandwidthLimit` and
-- `removePeerBandwidthLimit`. The commands that they run are listed, the last one first. What a
-- command prints and whether it succeeds is an argument, and may depend on all commands before.
pub mod Exec
pub mod Commands
pub mod Removal
pub mod Limits
use gerbil.Prelude.{
  ℕ, suc, Bool, true, false, not, ◌&&◌, ◌||◌, Option, none, some, List, [], ◌∷◌, ◌++◌,
  if◌then◌else◌, ◌==◌, Text, text_beq, codes,
}
use gerbil.Strings.{contains, split_at, fields}
use gerbil.Control.Shaping.Exec.{Shell, Output, run, return, abort, ◌>>=◌, ◌>>◌}
use gerbil.Control.Shaping.Commands.{
  Device, Settings, wg, ifb, class_of, show_qdiscs, add_root, class_command, filter_command,
  show_filters, delete_filter, delete_class, add_link, set_link_up, add_ingress, redirect_ingress,
}

-- net.ParseCIDR where the text has a slash.
unfoldable pub plain_ip : (Text → Option Text) → Text → Option Text
unfolding contains
plain_ip parse_cidr peer_ip =
    if contains peer_ip (b'/' ∷ []) then parse_cidr peer_ip else some peer_ip

-- The last of exactly four parts.
fourth : List Text → Option Text
fourth (a ∷ b ∷ c ∷ d ∷ []) = some d
fourth _ = none

unfoldable pub last_octet : Text → Option Text
unfolding fourth split_at
last_octet ip = fourth (split_at (λ c. c == b'.') ip)

octet_of : Option Text → Shell Text
octet_of none = abort
octet_of (some octet) = return octet

get_ip : Option Text → Shell Text
get_ip none = abort
get_ip (some ip) = return ip

-- A command whose failure ends the function.
must : List Text → Shell Text
must command = do out ← run command; if out.succeeded then return out.printed else abort

-- A class that is there already is replaced.
add_class : Device → Text → Settings → Shell Bool
add_class device octet settings = do
  out ← run (class_command (codes "add") device octet settings.bandwidth_limit)
  if out.succeeded
      then return true
      else if contains out.printed (codes "File exists")
      then (do
        again ← run (class_command (codes "replace") device octet settings.bandwidth_limit)
        return again.succeeded)
      else return false

require : Bool → Shell (Unit {0})
require true = return tt
require false = abort

ensure_root : Device → Shell (Unit {0})
unfolding must
ensure_root device = do
  printed ← must (show_qdiscs device)
  if contains printed (codes "htb") then return tt else (must (add_root device) >> return tt)

-- The part for the IFB device: its failures are only logged.
limit_ingress : Settings → Text → Text → Shell (Unit {0})
unfolding add_class
limit_ingress settings ip octet =
    if settings.ifb_loaded
    then (do
      added ← add_class (ifb settings) octet settings
      out ← run (filter_command (ifb settings) (codes "src") ip octet)
      return tt)
    else return tt

-- netlink.LinkByName
pub data Link : Type 0 where
  link_found : Link
  link_not_found : Link
  link_failed : Link

ensure_link : Link → Device → Shell (Unit {0})
unfolding must
ensure_link Link.link_found device = return tt
ensure_link Link.link_not_found device = must (add_link device) >> return tt
ensure_link Link.link_failed device = abort

ensure_ingress : Device → Shell (Unit {0})
unfolding must
ensure_ingress device = do
  printed ← must (show_qdiscs device)
  if contains printed (codes "ingress") then return tt else (must (add_ingress device) >> return tt)

ensure_redirect : Device → Device → Shell (Unit {0})
unfolding must
ensure_redirect from to = do
  out ← run (show_filters from (codes "ffff:"))
  if out.succeeded && contains out.printed to.name
      then return tt
      else (must (redirect_ingress from to) >> return tt)

unfoldable pub ensure_ifb_device : Settings → Link → Shell (Unit {0})
unfolding must ensure_root ensure_link ensure_ingress ensure_redirect
ensure_ifb_device settings link =
    if settings.ifb_loaded
    then (do
      ensure_link link (ifb settings)
      printed ← must (set_link_up (ifb settings))
      ensure_ingress (wg settings)
      ensure_redirect (wg settings) (ifb settings)
      ensure_root (ifb settings))
    else return tt

unfoldable pub setup_peer_bandwidth_limit :
    Settings → (Text → Option Text) → Text → Shell (Unit {0})
unfolding plain_ip last_octet get_ip octet_of ensure_root add_class require limit_ingress
setup_peer_bandwidth_limit settings parse_cidr peer_ip = do
  ip ← get_ip (plain_ip parse_cidr peer_ip)
  ensure_root (wg settings)
  octet ← octet_of (last_octet ip)
  added ← add_class (wg settings) octet settings
  require added
  out ← run (filter_command (wg settings) (codes "dst") ip octet)
  limit_ingress settings ip octet

-- The field after the first `fh` that has one.
unfoldable pub handle_of : List Text → Text
handle_of [] = []
handle_of (part ∷ []) = []
handle_of (part ∷ next ∷ parts) =
    let later = handle_of (next ∷ parts) in if text_beq part (codes "fh") then next else later

-- strings.Contains(line, "flowid "+classID) && strings.Contains(line, "fh ")
unfoldable pub is_listed : Text → Text → Bool
unfolding contains
is_listed class line = contains line (codes "flowid " ++ class) && contains line (codes "fh ")

is_empty : Text → Bool
is_empty [] = true
is_empty (c ∷ s) = false

-- Whether the loop deletes the filter of the line.
unfoldable pub is_deleted : Text → Text → Bool
unfolding is_listed is_empty handle_of
is_deleted class line = is_listed class line && not (is_empty (handle_of (fields line)))

pub delete_filters : Device → Text → List Text → Shell (Unit {0})
unfolding is_deleted
delete_filters device class [] = return tt
delete_filters device class (line ∷ lines) =
    if is_deleted class line
    then (run (delete_filter device (handle_of (fields line))) >> delete_filters device class lines)
    else delete_filters device class lines

-- The filters and the class on one device.
pub remove_on : Device → Text → Shell (Unit {0})
unfolding delete_filters
remove_on device octet = do
  listing ← run (show_filters device device.handle)
  if listing.succeeded
      then delete_filters device (class_of device octet) (split_at (λ c. c == 10) listing.printed)
      else return tt
  out ← run (delete_class device octet)
  return tt

pub remove_peer_bandwidth_limit : Settings → (Text → Option Text) → Text → Shell (Unit {0})
unfolding plain_ip last_octet get_ip octet_of remove_on
remove_peer_bandwidth_limit settings parse_cidr peer_ip = do
  ip ← get_ip (plain_ip parse_cidr peer_ip)
  octet ← octet_of (last_octet ip)
  remove_on (wg settings) octet
  if settings.ifb_loaded then remove_on (ifb settings) octet else return tt
