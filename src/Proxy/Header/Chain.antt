-- ===== src/Proxy/Header/Chain.antt =====
-- Two proxies in a row (proxy/proxy.go): what the first writes with `buildProxyProtocolHeader`, the
-- second reads, and hands on with `buildProxyProtocolHeaderFromInfo`.
use gerbil.Prelude.{
  ap, ◌∙◌, ◌⊎◌, ℕ, ◌≡◌, ◌<◌, ◌^◌, refl, true, false, Option, some, List, ◌++◌, Text, pos, inl, inr,
  Bool-cases,
}
use gerbil.Proxy.Routes.{has_name}
use gerbil.Proxy.Header.{
  Ip, Addr, ProxyProtocolInfo, header_info, build_proxy_protocol_header,
  build_proxy_protocol_header_from_info, from_source, parse_proxy_protocol_header, tcp4, tcp6,
  mapped_prefix, determine_proxy_protocol_and_target_ip, normalize_proxy_protocol_ip,
}
use gerbil.Proxy.Header.Fields.{IsWord}
use gerbil.Proxy.Header.Laws.{IsPrintable, parse-print_header}

mapped-IsWord : (text : Text) → IsWord text → IsWord (mapped_prefix ++ text)
mapped-IsWord text w = record {
  not_empty = λ e. cc;
  plain = (refl, (refl, (refl, (refl, (refl, (refl, (refl, w.plain)))))));
}

tcp4-IsWord : IsWord tcp4
tcp4-IsWord = record { not_empty = λ e. cc; plain = (refl, (refl, (refl, (refl, tt)))) }

tcp6-IsWord : IsWord tcp6
tcp6-IsWord = record { not_empty = λ e. cc; plain = (refl, (refl, (refl, (refl, tt)))) }

header_info-IsPrintable :
    (client target : Ip) (port target_port : ℕ)
    → IsWord client.text
    → IsWord target.text
    → port < 2 ^ 63
    → target_port < 2 ^ 63
    → IsPrintable (header_info client (pos port) target target_port)
unfolding header_info determine_proxy_protocol_and_target_ip normalize_proxy_protocol_ip
header_info-IsPrintable client target port target_port wc wt small small' =
    elim (Bool-cases client.is_v4) [
      | inl c ↦ elim (Bool-cases target.is_v4) [
        | inl t ↦
            rw (c, t)
              (record {
                protocol_word = tcp4-IsWord;
                src_word = wc;
                dest_word = wt;
                src_port = (port, refl, small);
                dest_port = (target_port, refl, small');
              })
        | inr t ↦
            rw (c, t)
              (record {
                protocol_word = tcp6-IsWord;
                src_word = mapped-IsWord client.text wc;
                dest_word = wt;
                src_port = (port, refl, small);
                dest_port = (target_port, refl, small');
              })
      ]
      | inr c ↦ elim (Bool-cases target.is_v4) [
        | inl t ↦
            rw (c, t)
              (record {
                protocol_word = tcp6-IsWord;
                src_word = wc;
                dest_word = mapped-IsWord target.text wt;
                src_port = (port, refl, small);
                dest_port = (target_port, refl, small');
              })
        | inr t ↦
            rw (c, t)
              (record {
                protocol_word = tcp6-IsWord;
                src_word = wc;
                dest_word = wt;
                src_port = (port, refl, small);
                dest_port = (target_port, refl, small');
              })
      ]
    ]

source_text :
    (client target : Ip) (port target_port : ℕ)
    → let src = (header_info client (pos port) target target_port).src_ip in
      (src ≡ client.text) ⊎ (src ≡ mapped_prefix ++ client.text)
unfolding header_info normalize_proxy_protocol_ip determine_proxy_protocol_and_target_ip
source_text client target port target_port = elim (Bool-cases client.is_v4) [
  | inl c ↦ elim (Bool-cases target.is_v4) [
    | inl t ↦ rw (c, t) (inl refl)
    | inr t ↦ rw (c, t) (inr refl)
  ]
  | inr c ↦ elim (Bool-cases target.is_v4) [
    | inl t ↦ rw (c, t) (inl refl)
    | inr t ↦ rw (c, t) (inl refl)
  ]
]

-- The next proxy finds the client's address in the header, mapped or not.
parse_ip-source :
    (parse_ip : Text → Option Ip) (client target : Ip) (port target_port : ℕ)
    → parse_ip client.text ≡ some client
    → parse_ip (mapped_prefix ++ client.text) ≡ some client
    → parse_ip (header_info client (pos port) target target_port).src_ip ≡ some client
parse_ip-source parse_ip client target port target_port bare mapped =
    elim (source_text client target port target_port) [
      | inl e ↦ ap parse_ip e ∙ bare
      | inr e ↦ ap parse_ip e ∙ mapped
    ]

module _ (parse_ip : Text → Option Ip) (client target : Ip) (port target_port : ℕ)
    (wc : IsWord client.text) (wt : IsWord target.text) (small : port < 2 ^ 63)
    (small' : target_port < 2 ^ 63) (bare : parse_ip client.text ≡ some client)
    (mapped : parse_ip (mapped_prefix ++ client.text) ≡ some client) where
  -- What a trusted proxy reads.
  pub parse-build :
      (trusted : List Text) (remote_host rest : Text)
      → has_name remote_host trusted ≡ true
      → parse_proxy_protocol_header trusted remote_host (
          some (
            build_proxy_protocol_header (Addr.tcp client port) (Addr.tcp target target_port)
            ++ rest))
        ≡ some (record {
          info = some (header_info client (pos port) target target_port);
          replay = rest;
          deadline = false;
        })
  unfolding build_proxy_protocol_header
  parse-build trusted remote_host rest known =
      parse-print_header trusted remote_host rest (header_info client (pos port) target target_port)
        known (header_info-IsPrintable client target port target_port wc wt small small')

  -- What it writes.
  pub build-from_info :
      (next : Ip) (next_port : ℕ)
      → build_proxy_protocol_header_from_info parse_ip
          (header_info client (pos port) target target_port)
          (Addr.tcp next next_port)
        ≡ build_proxy_protocol_header (Addr.tcp client port) (Addr.tcp next next_port)
  unfolding build_proxy_protocol_header build_proxy_protocol_header_from_info from_source
  build-from_info next next_port =
      rw (parse_ip-source parse_ip client target port target_port bare mapped, from_source) refl

-- A trusted next proxy that reads a PROXY header for a TCP client and target gets its contents
-- and all bytes behind it, with the deadline cleared, and hands on the very header that the first
-- proxy would have written for the next target, if the addresses print as words, the ports are
-- below 2^63, and parsing an IP gives the client for its text with and without ::ffff:.
header_chain :
    (trusted : List Text) (remote_host rest : Text) (parse_ip : Text → Option Ip)
    (client target next : Ip) (port target_port next_port : ℕ)
    → has_name remote_host trusted ≡ true
    → IsWord client.text
    → IsWord target.text
    → port < 2 ^ 63
    → target_port < 2 ^ 63
    → parse_ip client.text ≡ some client
    → parse_ip (mapped_prefix ++ client.text) ≡ some client
    → (info : ProxyProtocolInfo) × (parse_proxy_protocol_header trusted remote_host (
          some (
            build_proxy_protocol_header (Addr.tcp client port) (Addr.tcp target target_port)
            ++ rest))
        ≡ some (record { info = some info; replay = rest; deadline = false }))
      × (build_proxy_protocol_header_from_info parse_ip info (Addr.tcp next next_port)
          ≡ build_proxy_protocol_header (Addr.tcp client port) (Addr.tcp next next_port))
header_chain trusted remote_host rest parse_ip client target next port target_port next_port known
      wc wt small small' bare mapped =
    (
      header_info client (pos port) target target_port,
      parse-build parse_ip client target port target_port wc wt small small' bare mapped trusted
          remote_host rest known,
      build-from_info parse_ip client target port target_port wc wt small small' bare mapped next
          next_port,
    )
