-- ===== src/Proxy/Header/Replay.antt =====
-- Where the bytes go that `parseProxyProtocolHeader` of proxy/proxy.go has read.
use gerbil.Prelude.{
  ◌≡◌, ◌⊎◌, inl, inr, refl, true, false, Option, none, some, List, [], ◌∷◌, ◌++◌, arith, ◌==◌,
  ==_iff, Text, text_beq, text_beq_iff, ℤ, ◌&&◌, Bool-cases, Option-cases, ap, ◌∙◌, atoi,
}
use gerbil.Proxy.Routes.{has_name}
use gerbil.Proxy.Header.{
  Addr, Parsed, split_line, fields, from_ports, from_parts, from_line, from_read, regular, crlf,
  proxy_word, unknown_word, build_proxy_protocol_header, parse_proxy_protocol_header, split_words,
}

split_line_sound :
    (buffer line after : Text)
    → split_line buffer ≡ some (line, after)
    → buffer ≡ line ++ (crlf ++ after)
unfolding split_line
split_line_sound [] line after h = ground arith
split_line_sound (c ∷ []) line after h = ground arith
split_line_sound (c ∷ d ∷ s) line after h = elim (Bool-cases ((c == 13) && (d == 10))) [
  | inl found ↦ ground (arith, ==_iff c 13, ==_iff d 10, rw found at h)
  | inr further ↦ elim (Option-cases (split_line (d ∷ s))) [
    | inl e ↦ absurd (cc (rw (further, e) at h))
    | inr ((l, a), e) ↦
        let tail = split_line_sound (d ∷ s) l a e in
        let same : (c ∷ l ≡ line) × (a ≡ after) = ground (arith, rw (further, e) at h) in
        rw (← same.0, ← same.1) (ap (λ t. c ∷ t) tail)
  ]
]

-- All that was read is still there; or it stood in front of the replay as a header with its CRLF;
-- or it was PROXY UNKNOWN, and what followed is lost, with the deadline still set.
abbrev Accounts : Text → Parsed → Type 0
Accounts buffer r =
    ((r.replay ≡ buffer) × (r.info ≡ none) × (r.deadline ≡ false))
    ⊎ (((line : Text) × (buffer ≡ line ++ (crlf ++ r.replay)) × (r.deadline ≡ false))
        ⊎ ((line : Text) × (after : Text) × (buffer ≡ line ++ (crlf ++ after))
            × (fields line ≡ proxy_word ∷ unknown_word ∷ [])
            × (r ≡ record { info = none; replay = []; deadline = true })))

from_ports-Accounts :
    (o p : Option ℤ) (protocol src dest line remaining buffer : Text) (r : Parsed)
    → buffer ≡ line ++ (crlf ++ remaining)
    → from_ports o p protocol src dest remaining ≡ some r
    → Accounts buffer r
unfolding from_ports
from_ports-Accounts none p protocol src dest line remaining buffer r e h = absurd (cc)
from_ports-Accounts (some o) none protocol src dest line remaining buffer r e h = absurd (cc)
from_ports-Accounts (some o) (some p) protocol src dest line remaining buffer r e h =
    let same : remaining ≡ r.replay = ground arith in
    inr (inl (line, e ∙ ap (λ t. line ++ (crlf ++ t)) same, ground arith))

regular-Accounts : (buffer : Text) (r : Parsed) → regular buffer ≡ some r → Accounts buffer r
regular-Accounts buffer r h = inl (ground arith, ground arith, ground arith)

from_parts-Accounts :
    (words : List Text) (line remaining buffer : Text) (r : Parsed)
    → fields line ≡ words
    → buffer ≡ line ++ (crlf ++ remaining)
    → from_parts words remaining buffer ≡ some r
    → Accounts buffer r
unfolding from_parts
from_parts-Accounts [] line remaining buffer r f e h = regular-Accounts buffer r h
from_parts-Accounts (a ∷ []) line remaining buffer r f e h = regular-Accounts buffer r h
from_parts-Accounts (a ∷ b ∷ []) line remaining buffer r f e h =
    elim (Bool-cases (text_beq a proxy_word && text_beq b unknown_word)) [
      | inl unknown ↦ inr (
          inr (
            line,
            remaining,
            e,
            f ∙ ground (arith, text_beq_iff a proxy_word, text_beq_iff b unknown_word),
            ground (arith, rw unknown at h),
          ))
      | inr other ↦ regular-Accounts buffer r (rw other at h)
    ]
from_parts-Accounts (a ∷ b ∷ c ∷ []) line remaining buffer r f e h = regular-Accounts buffer r h
from_parts-Accounts (a ∷ b ∷ c ∷ d ∷ []) line remaining buffer r f e h = regular-Accounts buffer r h
from_parts-Accounts (a ∷ b ∷ c ∷ d ∷ x ∷ []) line remaining buffer r f e h =
    regular-Accounts buffer r h
from_parts-Accounts (a ∷ b ∷ c ∷ d ∷ x ∷ y ∷ []) line remaining buffer r f e h =
    elim (Bool-cases (text_beq a proxy_word)) [
      | inl is_proxy ↦
          from_ports-Accounts (atoi x) (atoi y) b c d line remaining buffer r e (rw is_proxy at h)
      | inr not_proxy ↦ regular-Accounts buffer r (rw not_proxy at h)
    ]
from_parts-Accounts (a ∷ b ∷ c ∷ d ∷ x ∷ y ∷ z ∷ l) line remaining buffer r f e h =
    regular-Accounts buffer r h

-- Where parseProxyProtocolHeader succeeds on a read from a trusted upstream, all bytes read are
-- replayed with no header and the deadline cleared; or those behind the first CRLF are, with the
-- deadline cleared; or the line was PROXY UNKNOWN, nothing is replayed and the deadline stays
-- set.
parse-Accounts :
    (trusted : List Text) (remote_host buffer : Text) (r : Parsed)
    → has_name remote_host trusted ≡ true
    → parse_proxy_protocol_header trusted remote_host (some buffer) ≡ some r
    → Accounts buffer r
unfolding parse_proxy_protocol_header from_read from_line
parse-Accounts trusted remote_host buffer r known h = elim (Option-cases (split_line buffer)) [
  | inl e ↦ regular-Accounts buffer r (rw (known, e) at h)
  | inr ((line, after), e) ↦
      from_parts-Accounts (fields line) line after buffer r refl
        (split_line_sound buffer line after e) (rw (known, e) at h)
]

-- If the client's or the target's address is not a TCP address, a trusted next proxy that reads
-- the header of buildProxyProtocolHeader together with the bytes that follow it replays none of
-- these bytes and leaves the read deadline set.
pub unknown_loses :
    (trusted : List Text) (remote_host rest : Text) (client target : Addr)
    → has_name remote_host trusted ≡ true
    → (client ≡ Addr.other) ⊎ (target ≡ Addr.other)
    → parse_proxy_protocol_header trusted remote_host
        (some (build_proxy_protocol_header client target ++ rest))
      ≡ some (record { info = none; replay = []; deadline = true })
unfolding parse_proxy_protocol_header from_read from_line from_parts build_proxy_protocol_header
    split_line fields split_words
unknown_loses trusted remote_host rest Addr.other target known h = rw known refl
unknown_loses trusted remote_host rest (Addr.tcp ip port) Addr.other known h = rw known refl
unknown_loses trusted remote_host rest (Addr.tcp ip port) (Addr.tcp ip' port') known (inl e) =
    absurd (cc)
unknown_loses trusted remote_host rest (Addr.tcp ip port) (Addr.tcp ip' port') known (inr e) =
    absurd (cc)
