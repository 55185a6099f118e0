-- ===== src/Proxy/Header.antt =====
-- The PROXY protocol of proxy/proxy.go, version 1: `parseProxyProtocolHeader` and the two builders.
-- A connection is what its first read returns. Text is bytes, and white space is that of ASCII.
pub mod Fields
pub mod Laws
pub mod Chain
pub mod Replay
use gerbil.Prelude.{
  ℕ, Bool, true, false, not, ◌&&◌, ◌||◌, Option, none, some, List, [], ◌∷◌, ◌++◌, if◌then◌else◌,
  ◌==◌, leb, Text, text_beq, codes, ℤ, pos, itoa, atoi,
}
use gerbil.Proxy.Routes.{has_name}

-- net.IP: its String, and whether To4 returns an address.
pub record Ip : Type 0 where
  pub text : Text
  pub is_v4 : Bool

-- net.Addr: a *net.TCPAddr, or an address of another type.
pub data Addr : Type 0 where
  tcp : (ip : Ip) (port : ℕ) → Addr
  other : Addr

pub record ProxyProtocolInfo : Type 0 where
  pub protocol : Text
  pub src_ip : Text
  pub dest_ip : Text
  pub src_port : ℤ
  pub dest_port : ℤ

abbrev pub proxy_word : Text
proxy_word = codes "PROXY"

abbrev pub unknown_word : Text
unknown_word = codes "UNKNOWN"

abbrev pub tcp4 : Text
tcp4 = codes "TCP4"

abbrev pub tcp6 : Text
tcp6 = codes "TCP6"

abbrev pub mapped_prefix : Text
mapped_prefix = codes "::ffff:"

abbrev pub crlf : Text
crlf = 13 ∷ 10 ∷ []

abbrev unknown_header : Text
unknown_header = proxy_word ++ b' ' ∷ unknown_word ++ crlf

pub determine_proxy_protocol_and_target_ip : Ip → Ip → Text × Text
determine_proxy_protocol_and_target_ip client target =
    if client.is_v4
    then (if target.is_v4 then (tcp4, target.text) else (tcp6, target.text))
    else if target.is_v4
    then (tcp6, mapped_prefix ++ target.text)
    else (tcp6, target.text)

pub normalize_proxy_protocol_ip : Ip → Text → Text
normalize_proxy_protocol_ip ip protocol =
    if text_beq protocol tcp6 && ip.is_v4 then mapped_prefix ++ ip.text else ip.text

-- fmt.Sprintf("PROXY %s %s %s %d %d\r\n", ...), and its line.
pub print_line : ProxyProtocolInfo → Text
print_line info =
    proxy_word
    ++ (b' '
        ∷ (info.protocol
            ++ (b' '
                ∷ (info.src_ip
                    ++ (b' '
                        ∷ (info.dest_ip
                            ++ (b' ' ∷ (itoa info.src_port ++ (b' ' ∷ itoa info.dest_port)))))))))

pub print_header : ProxyProtocolInfo → Text
unfolding print_line
print_header info = print_line info ++ crlf

-- What both builders put into the header.
pub header_info : Ip → ℤ → Ip → ℕ → ProxyProtocolInfo
unfolding determine_proxy_protocol_and_target_ip normalize_proxy_protocol_ip
header_info source source_port target target_port =
    let (protocol, target_ip) = determine_proxy_protocol_and_target_ip source target in
    record {
      protocol = protocol;
      src_ip = normalize_proxy_protocol_ip source protocol;
      dest_ip = target_ip;
      src_port = source_port;
      dest_port = pos target_port;
    }

pub build_proxy_protocol_header : Addr → Addr → Text
unfolding header_info print_header
build_proxy_protocol_header Addr.other target = unknown_header
build_proxy_protocol_header (Addr.tcp ip port) Addr.other = unknown_header
build_proxy_protocol_header (Addr.tcp ip port) (Addr.tcp target target_port) =
    print_header (header_info ip (pos port) target target_port)

from_source : Option Ip → ProxyProtocolInfo → Ip → ℕ → Text
unfolding header_info print_header
from_source none info target target_port = unknown_header
from_source (some source) info target target_port =
    print_header (header_info source info.src_port target target_port)

-- `parse_ip` is net.ParseIP.
pub build_proxy_protocol_header_from_info : (Text → Option Ip) → ProxyProtocolInfo → Addr → Text
unfolding from_source
build_proxy_protocol_header_from_info parse_ip info Addr.other = unknown_header
build_proxy_protocol_header_from_info parse_ip info (Addr.tcp target target_port) =
    from_source (parse_ip info.src_ip) info target target_port

abbrev pub is_space : ℕ → Bool
is_space c = (leb 9 c && leb c 13) || c == b' '

abbrev pub push : Text → List Text → List Text
push [] words = words
push (c ∷ word) words = (c ∷ word) ∷ words

-- The word that a text starts with, if any, and the words after it.
pub split_words : Text → Text × List Text
split_words [] = ([], [])
split_words (c ∷ s) =
    let (word, words) = split_words s in
    if is_space c then ([], push word words) else (c ∷ word, words)

-- strings.Fields
pub fields : Text → List Text
unfolding split_words
fields s = let (word, words) = split_words s in push word words

-- bytes.Index of CRLF: what stands before it and after it.
pub split_line : Text → Option (Text × Text)
split_line [] = none
split_line (c ∷ []) = none
split_line (c ∷ d ∷ s) =
    let rest = split_line (d ∷ s) in
    if (c == 13) && (d == 10)
    then some ([], s)
    else elim rest [ none ↦ none | some (line, after) ↦ some (c ∷ line, after) ]

-- What the caller goes on with: the header's contents, the bytes to be read before the connection's
-- own, and whether the deadline of the first read is still set.
pub record Parsed : Type 0 where
  pub info : Option ProxyProtocolInfo
  pub replay : Text
  pub deadline : Bool

-- A connection that is treated as TLS, with all that was read.
abbrev pub regular : Text → Option Parsed
regular buffer = some (record { info = none; replay = buffer; deadline = false })

pub from_ports : Option ℤ → Option ℤ → Text → Text → Text → Text → Option Parsed
from_ports none dest_port protocol src dest remaining = none
from_ports (some src_port) none protocol src dest remaining = none
from_ports (some src_port) (some dest_port) protocol src dest remaining = some (record {
  info = some (record {
    protocol = protocol;
    src_ip = src;
    dest_ip = dest;
    src_port = src_port;
    dest_port = dest_port;
  });
  replay = remaining;
  deadline = false;
})

-- Six words, two, or another number of them.
pub from_parts : List Text → Text → Text → Option Parsed
unfolding from_ports
from_parts (word ∷ protocol ∷ src ∷ dest ∷ src_port ∷ dest_port ∷ []) remaining buffer =
    if text_beq word proxy_word
    then from_ports (atoi src_port) (atoi dest_port) protocol src dest remaining
    else regular buffer
from_parts (word ∷ kind ∷ []) remaining buffer =
    if text_beq word proxy_word && text_beq kind unknown_word
    then some (record { info = none; replay = []; deadline = true })
    else regular buffer
from_parts _ remaining buffer = regular buffer

pub from_line : Option (Text × Text) → Text → Option Parsed
unfolding from_parts fields
from_line none buffer = regular buffer
from_line (some (line, remaining)) buffer = from_parts (fields line) remaining buffer

-- A failed read is treated as a regular connection.
pub from_read : Option Text → Option Parsed
unfolding from_line split_line
from_read none = regular []
from_read (some buffer) = from_line (split_line buffer) buffer

-- The result is nothing where the code returns an error. The deadlines are set without error.
pub parse_proxy_protocol_header : List Text → Text → Option Text → Option Parsed
unfolding has_name from_read
parse_proxy_protocol_header trusted_upstreams remote_host first_read =
    if not (has_name remote_host trusted_upstreams) then regular [] else from_read first_read
