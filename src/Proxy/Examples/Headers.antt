-- ===== src/Proxy/Examples/Headers.antt =====
-- PROXY headers of proxy/proxy.go between two proxies.
use gerbil.Prelude.{
  ◌≡◌, inl, refl, true, false, Option, none, some, [], ◌∷◌, ◌++◌, if◌then◌else◌, Text, codes,
  text_beq, ◌||◌,
}
use gerbil.Proxy.Routes.{has_name}
use gerbil.Proxy.Header.{
  Ip, Addr, build_proxy_protocol_header, parse_proxy_protocol_header, mapped_prefix,
}
use gerbil.Proxy.Header.Fields.{IsWord}
use gerbil.Proxy.Header.Replay.{unknown_loses}

abbrev pub client : Ip
client = record { text = codes "9.9.9.9"; is_v4 = true }

abbrev pub target : Ip
target = record { text = codes "fd::1"; is_v4 = false }

abbrev pub next : Ip
next = record { text = codes "9.0.0.1"; is_v4 = true }

-- net.ParseIP on the two spellings of the client.
abbrev pub parse_ip : Text → Option Ip
parse_ip s =
    if text_beq s client.text || text_beq s (mapped_prefix ++ client.text)
    then some client
    else none

abbrev pub upstream : Text
upstream = codes "10.0.0.9"

trusted : has_name upstream (upstream ∷ []) ≡ true
unfolding has_name
trusted = refl

pub client-IsWord : IsWord client.text
client-IsWord = record {
  not_empty = λ e. cc;
  plain = (refl, (refl, (refl, (refl, (refl, (refl, (refl, tt)))))));
}

pub target-IsWord : IsWord target.text
target-IsWord = record { not_empty = λ e. cc; plain = (refl, (refl, (refl, (refl, (refl, tt))))) }

abbrev pub hello : Text
hello = 22 ∷ 3 ∷ 1 ∷ []

unknown_loses_example :
    parse_proxy_protocol_header
      (upstream ∷ [])
      upstream
      (some (build_proxy_protocol_header Addr.other (Addr.tcp target 443) ++ hello))
    ≡ some (record { info = none; replay = []; deadline = true })
unknown_loses_example =
    unknown_loses (upstream ∷ []) upstream hello Addr.other (Addr.tcp target 443) trusted (inl refl)
