-- ===== src/Control/Loading.antt =====
-- What main.go loads at the start: the private key, the signing key of the remote configuration, and
-- the configuration from a file or from the server. JSON, base64, Ed25519, WireGuard keys, URLs, files
-- and HTTP answers are arguments.
pub mod Laws
pub mod Signed
use gerbil.Prelude.{
  ℕ, ◌%◌, Bool, true, false, not, ◌&&◌, ◌||◌, Option, none, some, List, [], ◌∷◌, ◌++◌,
  if◌then◌else◌, ◌==◌, leb, Text, text_beq, codes, ℤ, length,
}
use gerbil.Control.Peers.{Peer}

pub record WgConfig : Type 0 where
  pub private_key : Text
  pub listen_port : ℤ
  pub relay_port : ℤ
  pub ip_address : Text
  pub peers : List Peer

-- What net/url parses: the scheme, the host with its port, and both apart.
pub record Url : Type 0 where
  pub scheme : Text
  pub host : Text
  pub hostname : Text
  pub port : Text

unfoldable pub has_https : Option Url → Bool
has_https none = false
has_https (some url) = text_beq url.scheme (codes "https") && not (text_beq url.hostname [])

-- ValidateRemoteConfigURL of proxy/proxy.go.
unfoldable pub validate_proxy_url : (Text → Option Url) → Text → Bool
unfolding has_https
validate_proxy_url parse_url url = text_beq url [] || has_https (parse_url url)

unfoldable pub secure_url : Option Url → Bool
secure_url none = false
secure_url (some url) =
    if text_beq url.scheme []
    then false
    else if text_beq url.host []
    then false
    else text_beq url.scheme (codes "https")

-- ValidateRemoteConfigURL of relay/relay.go.
unfoldable pub validate_relay_url : (Text → Option Url) → Text → Bool
unfolding secure_url
validate_relay_url parse_url url = secure_url (parse_url url)

-- The path of the private key: nothing, something that cannot be opened or inspected, or a file with
-- its mode and its contents, which may be unreadable.
pub data KeyFile : Type 0 where
  absent : KeyFile
  closed : KeyFile
  file : (mode : ℕ) (contents : Option Text) → KeyFile

-- The libraries for keys, and what the random source and the file system do in this run: whether the
-- new file can be created, what part is written before an error, and whether it can be closed.
pub record KeyWorld (K : Type 0) : Type 0 where
  pub parse_key : Text → Option K
  pub print_key : K → Text
  pub generate : Option K
  pub creates : Bool
  pub breaks_off : Option Text
  pub closes : Bool

pub parsed_contents : {K : Type 0} → KeyWorld K → Option Text → Option K
parsed_contents world none = none
parsed_contents world (some contents) = world.parse_key contents

-- A new file belongs to its owner alone: 0600.
abbrev pub owner_only : ℕ
owner_only = 384

unfoldable pub save_key : {K : Type 0} → KeyWorld K → Option K → KeyFile × Option K
save_key world none = (KeyFile.absent, none)
save_key world (some key) =
    if not world.creates then (KeyFile.absent, none) else elim world.breaks_off [
      | some part ↦ (KeyFile.file owner_only (some part), none)
      | none ↦
          if not world.closes
          then (KeyFile.file owner_only (some (world.print_key key)), none)
          else (KeyFile.file owner_only (some (world.print_key key)), some key)
    ]

-- The file afterwards, and the key unless an error is returned.
unfoldable pub load_or_generate_private_key :
    {K : Type 0} → KeyWorld K → KeyFile → KeyFile × Option K
unfolding parsed_contents save_key
load_or_generate_private_key world KeyFile.absent = save_key world world.generate
load_or_generate_private_key world KeyFile.closed = (KeyFile.closed, none)
load_or_generate_private_key world (KeyFile.file mode contents) =
    if mode % 64 == 0
    then (KeyFile.file mode contents, parsed_contents world contents)
    else (KeyFile.file mode contents, none)

abbrev public_key_size : ℕ
public_key_size = 32

unfoldable pub sized : Option Text → Option Text
sized none = none
sized (some key) = if length key == public_key_size then some key else none

unfoldable pub parse_remote_config_signing_key : (Text → Option Text) → Text → Option Text
unfolding sized
parse_remote_config_signing_key decode encoded =
    if text_beq encoded [] then none else sized (decode encoded)

abbrev pub remote_config_max_body_bytes : ℕ
remote_config_max_body_bytes = 1048576

-- What the server answers: nothing, or a status, the bytes of its body as far as they can be read,
-- and the signature header.
pub data ConfigReply : Type 0 where
  unreachable : ConfigReply
  answered : (status : ℕ) (body : Option Text) (signature : Text) → ConfigReply

-- The libraries that judge an answer. json.Unmarshal leaves a configuration that may be filled in part,
-- and says whether there was no error.
pub record ConfigLibrary : Type 0 where
  pub parse_url : Text → Option Url
  pub decode_base64 : Text → Option Text
  pub verify : Text → Text → Text → Bool
  pub unmarshal : Text → WgConfig × Bool

-- What loadRemoteConfig returns: a configuration, an error with the part that has been decoded, or an
-- error with an empty configuration.
pub data RemoteConfig : Type 0 where
  loaded : (config : WgConfig) → RemoteConfig
  broken : (config : WgConfig) → RemoteConfig
  failed : RemoteConfig

unfoldable pub from_json : WgConfig × Bool → RemoteConfig
from_json (config, true) = RemoteConfig.loaded config
from_json (config, false) = RemoteConfig.broken config

unfoldable pub is_signed : ConfigLibrary → Text → Text → Option Text → Bool
is_signed lib signing_key body none = false
is_signed lib signing_key body (some signature) =
    (length signing_key == public_key_size) && lib.verify signing_key body signature

unfoldable pub with_body : ConfigLibrary → Text → Option Text → Text → RemoteConfig
unfolding is_signed from_json
with_body lib signing_key none signature = RemoteConfig.failed
with_body lib signing_key (some body) signature =
    if not (leb (length body) remote_config_max_body_bytes)
    then RemoteConfig.failed
    else if not (is_signed lib signing_key body (lib.decode_base64 signature))
    then RemoteConfig.failed
    else from_json (lib.unmarshal body)

unfoldable pub from_reply : ConfigLibrary → Text → ConfigReply → RemoteConfig
unfolding with_body
from_reply lib signing_key ConfigReply.unreachable = RemoteConfig.failed
from_reply lib signing_key (ConfigReply.answered status body signature) =
    if not (status == 200) then RemoteConfig.failed else with_body lib signing_key body signature

unfoldable pub load_remote_config : ConfigLibrary → Text → Text → ConfigReply → RemoteConfig
unfolding from_reply validate_relay_url
load_remote_config lib url signing_key reply =
    if not (validate_relay_url lib.parse_url url)
    then RemoteConfig.failed
    else from_reply lib signing_key reply

-- The contents of the file, if they can be read.
pub load_config : ConfigLibrary → Option Text → Option WgConfig
load_config lib none = none
load_config lib (some contents) =
    let (config, fine) = lib.unmarshal contents in if fine then some config else none

-- One round of the loop in main: it ends when the configuration has a private key. The program's own
-- key, which is printed and not empty, is put in where there was no error.
unfoldable pub after_round : Text → RemoteConfig → Option WgConfig
after_round printed (RemoteConfig.loaded config) = some (record config { private_key = printed })
after_round printed (RemoteConfig.broken config) =
    if text_beq config.private_key [] then none else some config
after_round printed RemoteConfig.failed = none

-- The loop that fetches until a configuration comes; the answers of the server are in a list, and
-- nothing is left of it where the fetching goes on.
unfoldable pub fetch_config :
    ConfigLibrary → Text → Text → Text → List ConfigReply → Option WgConfig
unfolding load_remote_config after_round
fetch_config lib url signing_key printed [] = none
fetch_config lib url signing_key printed (reply ∷ replies) =
    let later = fetch_config lib url signing_key printed replies in
    elim (after_round printed (load_remote_config lib url signing_key reply)) [
      | some config ↦ some config
      | none ↦ later
    ]
