-- ===== src/Proxy/Header/Laws.antt =====
-- A PROXY header that proxy/proxy.go writes is read back by the next proxy, the client's address
-- survives, and what becomes of the bytes behind a header.
use mathlib.Core.List.{append_assoc}
use gerbil.Prelude.{
  ℕ, ◌≡◌, ◌<◌, ◌^◌, refl, true, false, Option, some, List, [], ◌∷◌, ◌++◌, Text, ℤ, pos, itoa, atoi,
  atoi-itoa_ℕ, itoa_ℕ, itoa_ℕ-Digits, itoa_ℕ-ne, ◌∙◌, ap,
}
use gerbil.Proxy.Routes.{has_name}
use gerbil.Proxy.Header.{
  ProxyProtocolInfo, print_line, print_header, fields, split_line, from_ports, from_parts,
  from_line, from_read, regular, parse_proxy_protocol_header, proxy_word, crlf,
}
use gerbil.Proxy.Header.Fields.{IsWord, split_line-crlf, Digits-plain, fields-six, six-NoCr}

itoa_ℕ-IsWord : (n : ℕ) → IsWord (itoa_ℕ n)
itoa_ℕ-IsWord n = record {
  not_empty = itoa_ℕ-ne n;
  plain = Digits-plain (itoa_ℕ n) (itoa_ℕ-Digits n);
}

proxy_word-IsWord : IsWord proxy_word
proxy_word-IsWord = record {
  not_empty = λ e. cc;
  plain = (refl, (refl, (refl, (refl, (refl, tt)))));
}

-- A number that is printed without a sign and that an int holds.
abbrev IsPort : ℤ → Type 0
IsPort z = (p : ℕ) × (z ≡ pos p) × (p < 2 ^ 63)

port-IsWord : (z : ℤ) → IsPort z → IsWord (itoa z)
unfolding itoa
port-IsWord z (p, e, small) = rw e (itoa_ℕ-IsWord p)

atoi-port : (z : ℤ) → IsPort z → atoi (itoa z) ≡ some z
unfolding itoa
atoi-port z (p, e, small) = rw e (atoi-itoa_ℕ p small)

-- The contents of a header that can be read back.
pub record IsPrintable (info : ProxyProtocolInfo) : Type 0 where
  pub protocol_word : IsWord info.protocol
  pub src_word : IsWord info.src_ip
  pub dest_word : IsWord info.dest_ip
  pub src_port : IsPort info.src_port
  pub dest_port : IsPort info.dest_port

module _ (info : ProxyProtocolInfo) (i : IsPrintable info) where
  split-print_header :
      (rest : Text) → split_line (print_header info ++ rest) ≡ some (print_line info, rest)
  unfolding print_header print_line
  split-print_header rest =
      ap split_line (append_assoc (print_line info) crlf rest)
      ∙ split_line-crlf (print_line info) rest (
          six-NoCr proxy_word info.protocol info.src_ip info.dest_ip (itoa info.src_port)
            (itoa info.dest_port) proxy_word-IsWord i.protocol_word i.src_word i.dest_word
            (port-IsWord info.src_port i.src_port) (port-IsWord info.dest_port i.dest_port))

  fields-print_line :
      fields (print_line info)
      ≡ proxy_word
        ∷ info.protocol
        ∷ info.src_ip
        ∷ info.dest_ip
        ∷ itoa info.src_port
        ∷ itoa info.dest_port
        ∷ []
  unfolding print_line
  fields-print_line =
      fields-six proxy_word info.protocol info.src_ip info.dest_ip (itoa info.src_port)
        (itoa info.dest_port) proxy_word-IsWord i.protocol_word i.src_word i.dest_word
        (port-IsWord info.src_port i.src_port) (port-IsWord info.dest_port i.dest_port)

  from_read-print_header :
      (rest : Text)
      → from_read (some (print_header info ++ rest))
        ≡ some (record { info = some info; replay = rest; deadline = false })
  unfolding from_read from_line from_parts from_ports
  from_read-print_header rest =
      let buffer = print_header info ++ rest in
      ap (λ o. from_line o buffer) (split-print_header rest)
      ∙ ap (λ l. from_parts l rest buffer) fields-print_line
      ∙ ap
          (λ o.
            from_ports o (atoi (itoa info.dest_port)) info.protocol info.src_ip info.dest_ip rest)
          (atoi-port info.src_port i.src_port)
      ∙ ap (λ o. from_ports (some info.src_port) o info.protocol info.src_ip info.dest_ip rest)
          (atoi-port info.dest_port i.dest_port)

pub parse-print_header :
    (trusted : List Text) (remote_host rest : Text) (info : ProxyProtocolInfo)
    → has_name remote_host trusted ≡ true
    → IsPrintable info
    → parse_proxy_protocol_header trusted remote_host (some (print_header info ++ rest))
      ≡ some (record { info = some info; replay = rest; deadline = false })
unfolding parse_proxy_protocol_header
parse-print_header trusted remote_host rest info known i =
    rw known (from_read-print_header info i rest)

pub parse-untrusted :
    (trusted : List Text) (remote_host : Text) (first_read : Option Text)
    → has_name remote_host trusted ≡ false
    → parse_proxy_protocol_header trusted remote_host first_read ≡ regular []
unfolding parse_proxy_protocol_header
parse-untrusted trusted remote_host first_read unknown = rw unknown refl
