-- ===== src/Control/Shaping/Commands.antt =====
-- The devices and the commands of the bandwidth limits in main.go, word by word.
use gerbil.Prelude.{Bool, [], ◌∷◌, ◌++◌, Text, codes}
use gerbil.Control.Shaping.Exec.{Command}

-- A device, and the handle of its root: `1:` on the WireGuard interface, `2:` on the IFB device.
pub record Device : Type 0 where
  pub name : Text
  pub handle : Text

pub record Settings : Type 0 where
  pub interface_name : Text
  pub ifb_name : Text
  pub bandwidth_limit : Text
  pub ifb_loaded : Bool

abbrev pub wg : Settings → Device
wg settings = record { name = settings.interface_name; handle = codes "1:" }

abbrev pub ifb : Settings → Device
ifb settings = record { name = settings.ifb_name; handle = codes "2:" }

-- fmt.Sprintf("1:%s", lastOctet)
abbrev pub class_of : Device → Text → Text
class_of device octet = device.handle ++ octet

abbrev pub show_qdiscs : Device → Command
show_qdiscs device = codes "tc" ∷ codes "qdisc" ∷ codes "show" ∷ codes "dev" ∷ device.name ∷ []

abbrev pub add_root : Device → Command
add_root device =
    codes "tc"
    ∷ codes "qdisc"
    ∷ codes "add"
    ∷ codes "dev"
    ∷ device.name
    ∷ codes "root"
    ∷ codes "handle"
    ∷ device.handle
    ∷ codes "htb"
    ∷ codes "default"
    ∷ codes "9999"
    ∷ []

abbrev pub class_command : Text → Device → Text → Text → Command
class_command verb device octet rate =
    codes "tc"
    ∷ codes "class"
    ∷ verb
    ∷ codes "dev"
    ∷ device.name
    ∷ codes "parent"
    ∷ device.handle
    ∷ codes "classid"
    ∷ class_of device octet
    ∷ codes "htb"
    ∷ codes "rate"
    ∷ rate
    ∷ codes "ceil"
    ∷ rate
    ∷ []

abbrev pub filter_command : Device → Text → Text → Text → Command
filter_command device side ip octet =
    codes "tc"
    ∷ codes "filter"
    ∷ codes "add"
    ∷ codes "dev"
    ∷ device.name
    ∷ codes "protocol"
    ∷ codes "ip"
    ∷ codes "parent"
    ∷ device.handle
    ∷ codes "prio"
    ∷ codes "1"
    ∷ codes "u32"
    ∷ codes "match"
    ∷ codes "ip"
    ∷ side
    ∷ ip
    ∷ codes "flowid"
    ∷ class_of device octet
    ∷ []

abbrev pub show_filters : Device → Text → Command
show_filters device parent =
    codes "tc"
    ∷ codes "filter"
    ∷ codes "show"
    ∷ codes "dev"
    ∷ device.name
    ∷ codes "parent"
    ∷ parent
    ∷ []

abbrev pub delete_filter : Device → Text → Command
delete_filter device handle =
    codes "tc"
    ∷ codes "filter"
    ∷ codes "del"
    ∷ codes "dev"
    ∷ device.name
    ∷ codes "parent"
    ∷ device.handle
    ∷ codes "handle"
    ∷ handle
    ∷ codes "prio"
    ∷ codes "1"
    ∷ codes "u32"
    ∷ []

abbrev pub delete_class : Device → Text → Command
delete_class device octet =
    codes "tc"
    ∷ codes "class"
    ∷ codes "del"
    ∷ codes "dev"
    ∷ device.name
    ∷ codes "classid"
    ∷ class_of device octet
    ∷ []

abbrev pub add_link : Device → Command
add_link device =
    codes "ip" ∷ codes "link" ∷ codes "add" ∷ device.name ∷ codes "type" ∷ codes "ifb" ∷ []

abbrev pub set_link_up : Device → Command
set_link_up device =
    codes "ip" ∷ codes "link" ∷ codes "set" ∷ codes "dev" ∷ device.name ∷ codes "up" ∷ []

abbrev pub add_ingress : Device → Command
add_ingress device =
    codes "tc"
    ∷ codes "qdisc"
    ∷ codes "add"
    ∷ codes "dev"
    ∷ device.name
    ∷ codes "handle"
    ∷ codes "ffff:"
    ∷ codes "ingress"
    ∷ []

abbrev pub redirect_ingress : Device → Device → Command
redirect_ingress from to =
    codes "tc"
    ∷ codes "filter"
    ∷ codes "add"
    ∷ codes "dev"
    ∷ from.name
    ∷ codes "parent"
    ∷ codes "ffff:"
    ∷ codes "protocol"
    ∷ codes "ip"
    ∷ codes "u32"
    ∷ codes "match"
    ∷ codes "u32"
    ∷ codes "0"
    ∷ codes "0"
    ∷ codes "action"
    ∷ codes "mirred"
    ∷ codes "egress"
    ∷ codes "redirect"
    ∷ codes "dev"
    ∷ to.name
    ∷ []
