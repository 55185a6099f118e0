-- ===== src/Control/Loading/Signed.antt =====
-- Whence a remote configuration of main.go comes.
use mathlib.Core.Option.{some-injective}
use gerbil.Prelude.{
  ℕ, ◌≤◌, ◌≡◌, ◌≢◌, inl, inr, refl, sym, ap, ◌∙◌, true, false, Option, some, List, [], ◌∷◌, arith,
  ◌==◌, ==_iff, leb, leb→le, Text, text_beq, text_beq_iff, length, Bool-cases, Option-cases, subst,
}
use gerbil.Control.Loading.{
  WgConfig, ConfigReply, ConfigLibrary, is_signed, with_body, from_reply, load_remote_config,
  fetch_config, RemoteConfig, from_json, after_round, validate_relay_url,
  remote_config_max_body_bytes,
}

-- An answer with a signed configuration.
pub record IsAuthentic (lib : ConfigLibrary) (signing_key : Text) (remote : RemoteConfig)
    (reply : ConfigReply) : Type 0 where
  body : Text
  header : Text
  signature : Text
  is_answer : reply ≡ ConfigReply.answered 200 (some body) header
  has_bound : length body ≤ remote_config_max_body_bytes
  has_signature : lib.decode_base64 header ≡ some signature
  verified : lib.verify signing_key body signature ≡ true
  unmarshalled : from_json (lib.unmarshal body) ≡ remote

with_body_lem :
    (lib : ConfigLibrary) (signing_key : Text) (remote : RemoteConfig) (body header : Text)
    → with_body lib signing_key (some body) header ≡ remote
    → remote ≢ RemoteConfig.failed
    → IsAuthentic lib signing_key remote (ConfigReply.answered 200 (some body) header)
unfolding with_body is_signed
with_body_lem lib signing_key remote body header e fine =
    elim (Bool-cases (leb (length body) remote_config_max_body_bytes)) [
      | inr long ↦ absurd (fine (sym (rw long at e)))
      | inl short ↦ elim (Option-cases (lib.decode_base64 header)) [
        | inl bad ↦ absurd (fine (sym (rw (short, bad) at e)))
        | inr (signature, decoded) ↦
            elim (Bool-cases (is_signed lib signing_key body (some signature))) [
              | inr unsigned ↦ absurd (fine (sym (rw (short, decoded, unsigned) at e)))
              | inl signed ↦ record {
                body = body;
                header = header;
                signature = signature;
                is_answer = refl;
                has_bound = leb→le (length body) remote_config_max_body_bytes short;
                has_signature = decoded;
                verified = ground arith;
                unmarshalled = rw (short, decoded, signed) at e;
              }
            ]
      ]
    ]

from_reply_lem :
    (lib : ConfigLibrary) (signing_key : Text) (remote : RemoteConfig) (reply : ConfigReply)
    → from_reply lib signing_key reply ≡ remote
    → remote ≢ RemoteConfig.failed
    → IsAuthentic lib signing_key remote reply
unfolding from_reply with_body
from_reply_lem lib signing_key remote ConfigReply.unreachable e fine = absurd (fine (sym e))
from_reply_lem lib signing_key remote (ConfigReply.answered status body header) e fine =
    elim (Bool-cases (status == 200)) [
      | inr other ↦ absurd (fine (sym (rw other at e)))
      | inl good ↦ elim (Option-cases body) [
        | inl unread ↦ absurd (fine (sym (rw (good, unread) at e)))
        | inr (bytes, read) ↦
            subst {A = ℕ × Option Text}
              (λ q. IsAuthentic lib signing_key remote (ConfigReply.answered q.0 q.1 header))
              (ap (λ n. (n, some bytes)) (sym ((==_iff status 200).0 good))
                ∙ ap (λ b. (status, b)) (sym read))
              (with_body_lem lib signing_key remote bytes header (rw (good, read) at e) fine)
      ]
    ]

load_remote_config-refused :
    (lib : ConfigLibrary) (url signing_key : Text) (reply : ConfigReply)
    → validate_relay_url lib.parse_url url ≡ false
    → load_remote_config lib url signing_key reply ≡ RemoteConfig.failed
unfolding load_remote_config
load_remote_config-refused lib url signing_key reply bad = rw bad refl

load_remote_config-accepted :
    (lib : ConfigLibrary) (url signing_key : Text) (reply : ConfigReply)
    → validate_relay_url lib.parse_url url ≡ true
    → load_remote_config lib url signing_key reply ≡ from_reply lib signing_key reply
unfolding load_remote_config
load_remote_config-accepted lib url signing_key reply valid = rw valid refl

load_remote_config_lem :
    (lib : ConfigLibrary) (url signing_key : Text) (reply : ConfigReply)
    → load_remote_config lib url signing_key reply ≢ RemoteConfig.failed
    → (validate_relay_url lib.parse_url url ≡ true)
      × IsAuthentic lib signing_key (load_remote_config lib url signing_key reply) reply
load_remote_config_lem lib url signing_key reply fine =
    elim (Bool-cases (validate_relay_url lib.parse_url url)) [
      | inr bad ↦ absurd (fine (load_remote_config-refused lib url signing_key reply bad))
      | inl valid ↦ (
        valid,
        from_reply_lem lib signing_key _ reply
            (sym (load_remote_config-accepted lib url signing_key reply valid)) fine,
      )
    ]

-- What main takes of an answer: a decoded configuration with the program's own key, or, although
-- there was an error, the part that was decoded with the private key in it.
pub data IsTaken (printed : Text) : RemoteConfig → WgConfig → Type 0 where
  complete :
      (config : WgConfig)
      → IsTaken printed (RemoteConfig.loaded config) (record config { private_key = printed })
  in_part :
      (config : WgConfig)
      → config.private_key ≢ []
      → IsTaken printed (RemoteConfig.broken config) config

after_round-IsTaken :
    (printed : Text) (remote : RemoteConfig) (config : WgConfig)
    → after_round printed remote ≡ some config
    → (remote ≢ RemoteConfig.failed) × IsTaken printed remote config
unfolding after_round
after_round-IsTaken printed (RemoteConfig.loaded c) config e = (
  λ same. cc,
  subst (IsTaken printed (RemoteConfig.loaded c)) (some-injective _ _ e) (IsTaken.complete c),
)
after_round-IsTaken printed (RemoteConfig.broken c) config e =
    elim (Bool-cases (text_beq c.private_key [])) [
      | inl keyless ↦ absurd (cc (rw keyless at e))
      | inr keyed ↦ (
        λ same. cc,
        subst (IsTaken printed (RemoteConfig.broken c)) (some-injective _ _ (rw keyed at e))
            (IsTaken.in_part c (λ nothing. cc ((text_beq_iff c.private_key []).1 nothing))),
      )
    ]
after_round-IsTaken printed RemoteConfig.failed config e = absurd (cc)

pub fetch_config_lem :
    (lib : ConfigLibrary) (url signing_key printed : Text) (config : WgConfig)
    (replies : List ConfigReply)
    → fetch_config lib url signing_key printed replies ≡ some config
    → (validate_relay_url lib.parse_url url ≡ true)
      × (reply : ConfigReply) × (remote : RemoteConfig) × IsAuthentic lib signing_key remote reply
      × IsTaken printed remote config
unfolding fetch_config
fetch_config_lem lib url signing_key printed config [] e = cc
fetch_config_lem lib url signing_key printed config (reply ∷ replies) e =
    let remote = load_remote_config lib url signing_key reply in
    elim (Option-cases (after_round printed remote)) [
      | inl gone ↦
          fetch_config_lem lib url signing_key printed config replies (rw (fetch_config, gone) at e)
      | inr (c, taken) ↦
          let same : some c ≡ some config = rw (fetch_config, taken) at e in
          let (fine, source) = after_round-IsTaken printed remote config (taken ∙ same) in
          let (valid, authentic) = load_remote_config_lem lib url signing_key reply fine in
          (valid, reply, remote, authentic, source)
    ]
