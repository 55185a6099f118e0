-- ===== src/Control/Startup/Laws.antt =====
-- What holds when main.go serves its control API.
use gerbil.Prelude.{
  ◌≤◌, ◌≡◌, ◌≢◌, ◌⊎◌, inl, inr, refl, sym, ap, ◌∙◌, subst, Bool, true, false, ◌&&◌, ◌||◌, Option,
  none, some, [], ◌∷◌, ◌++◌, arith, Text, codes, ℤ, length, Bool-cases,
}
use gerbil.Observability.{Selection, new_backend}
use gerbil.Control.Settings.{Settings}
use gerbil.Control.Loading.{
  WgConfig, RemoteConfig, ConfigReply, load_config, fetch_config, parse_remote_config_signing_key,
}
use gerbil.Control.Loading.Signed.{IsAuthentic, IsTaken, fetch_config_lem}
use gerbil.Control.Startup.{
  StartError, StartWorld, Serving, Result, ◌>>=◌, require, get, is_set, signing_key, clean_url,
  is_selected,
}
use gerbil.Control.Startup.Run.{keyed, get_config, checks, load, start}

bind-done :
    {A B : Type 0} (m : Result A) (f : A → Result B) (b : B)
    → (m >>= f) ≡ Result.done b
    → (a : A) × (m ≡ Result.done a) × (f a ≡ Result.done b)
unfolding ◌>>=◌
bind-done (Result.fatal err) f b e = absurd (cc)
bind-done (Result.done a) f b e = (a, refl, e)

done-injective : {A : Type 0} (a b : A) → Result.done a ≡ Result.done b → a ≡ b
done-injective a b e = cc

require-done :
    (b : Bool) (err : StartError) (u : Unit {0}) → require b err ≡ Result.done u → b ≡ true
unfolding require
require-done true err u e = refl
require-done false err u e = absurd (cc)

get-done :
    {A : Type 0} (o : Option A) (err : StartError) (a : A) → get o err ≡ Result.done a → o ≡ some a
unfolding get
get-done none err a e = absurd (cc)
get-done (some x) err a e = cc

or-cases : (b c : Bool) → (b || c) ≡ true → (b ≡ true) ⊎ (c ≡ true)
or-cases true c h = inl refl
or-cases false c h = inr h

and-left : (b c : Bool) → (b && c) ≡ true → b ≡ true
and-left true c h = refl
and-left false c h = absurd (cc)

is_set-true : (s : Text) → is_set s ≡ true → s ≢ []
is_set-true [] h = absurd (cc)
is_set-true (c ∷ s) h = λ e. cc

is_set-false : (s : Text) → is_set s ≡ false → s ≡ []
is_set-false [] h = refl
is_set-false (c ∷ s) h = absurd (cc)

module _ {K : Type 0} (world : StartWorld K) (settings : Settings) where
  -- Where the configuration comes from: a file alone, or a signed answer of the server alone.
  data Source (key : K) (config : WgConfig) : Type 0 where
    from_file :
        (stored : WgConfig)
        → settings.config_file ≢ []
        → settings.remote_config_url ≡ []
        → load_config world.lib world.config_contents ≡ some stored
        → config ≡ keyed world settings key stored
        → Source key config
    from_server :
        (signing : Text) (remote : RemoteConfig) (reply : ConfigReply)
        → settings.config_file ≡ []
        → settings.remote_config_url ≢ []
        → parse_remote_config_signing_key world.lib.decode_base64 settings.remote_config_key
          ≡ some signing
        → IsAuthentic world.lib signing remote reply
        → IsTaken (world.keys.print_key key) remote config
        → Source key config

  -- The control API is guarded.
  pub record IsGuarded (serving : Serving K) : Type 0 where
    long_token : 32 ≤ length world.token
    source : Source serving.key serving.config
    not_exposed : (serving.listener.is_loopback ≡ true) ⊎ (serving.listener.is_private ≡ true)
    has_listener : world.listens serving.listen_addr ≡ some serving.listener
    selected : serving.backend ≡ new_backend settings.metrics
    is_valid : is_selected serving.backend ≡ true

  -- What the checks establish.
  record IsChecked (checked : Selection × Text × ℤ) : Type 0 where
    token : 32 ≤ length world.token
    a_source : (is_set settings.config_file || is_set settings.remote_config_url) ≡ true
    not_both : (is_set settings.config_file && is_set settings.remote_config_url) ≡ false
    backend : checked.0 ≡ new_backend settings.metrics
    valid : is_selected (new_backend settings.metrics) ≡ true

  checks_lem :
      (checked : Selection × Text × ℤ)
      → checks world settings ≡ Result.done checked
      → IsChecked checked
  unfolding checks
  checks_lem checked e =
      let (u, url, e1) = bind-done _ _ checked e in
      let (u2, built, e2) = bind-done _ _ checked e1 in
      let (address, a, e3) = bind-done _ _ checked e2 in
      let (u3, t, e4) = bind-done _ _ checked e3 in
      let (mtu, m, e5) = bind-done _ _ checked e4 in
      let (u4, s, e6) = bind-done _ _ checked e5 in
      let (u5, b, e7) = bind-done _ _ checked e6 in
      let long = require-done _ _ u3 t in
      let single = require-done _ _ u5 b in
      record {
        token = ground arith;
        a_source = require-done _ _ u4 s;
        not_both = ground arith;
        backend = ap (λ c. c.0) (sym (done-injective _ _ e7));
        valid = and-left _ _ (require-done _ _ u2 built);
      }

  signing_key_lem :
      (signing : Text)
      → is_set settings.remote_config_url ≡ true
      → signing_key world.lib settings ≡ Result.done signing
      → parse_remote_config_signing_key world.lib.decode_base64 settings.remote_config_key
        ≡ some signing
  unfolding signing_key
  signing_key_lem signing remote e = get-done _ _ signing (rw remote at e)

  get_config_file :
      (url signing : Text) (key : K) (config : WgConfig)
      → is_set settings.config_file ≡ true
      → get_config world settings url signing key ≡ Result.done config
      → (stored : WgConfig) × (load_config world.lib world.config_contents ≡ some stored)
        × (config ≡ keyed world settings key stored)
  unfolding get_config
  get_config_file url signing key config set e =
      let (stored, found, same) = bind-done _ _ config (rw set at e) in
      (stored, get-done _ _ stored found, sym (done-injective _ _ same))

  get_config_server :
      (url signing : Text) (key : K) (config : WgConfig)
      → is_set settings.config_file ≡ false
      → get_config world settings url signing key ≡ Result.done config
      → fetch_config world.lib
          (url ++ codes "/gerbil/get-config")
          signing
          (world.keys.print_key key)
          world.replies
        ≡ some config
  unfolding get_config
  get_config_server url signing key config unset e =
      let (answer, found, same) = bind-done _ _ config (rw unset at e) in
      get-done _ _ answer found ∙ ap some (done-injective _ _ same)

  source_lem :
      (signing : Text) (key : K) (config : WgConfig)
      → (is_set settings.config_file || is_set settings.remote_config_url) ≡ true
      → (is_set settings.config_file && is_set settings.remote_config_url) ≡ false
      → signing_key world.lib settings ≡ Result.done signing
      → get_config world settings (clean_url settings.remote_config_url) signing key
        ≡ Result.done config
      → Source key config
  source_lem signing key config some_source single signed got =
      elim (Bool-cases (is_set settings.config_file)) [
        | inl set ↦
            let remote : is_set settings.remote_config_url ≡ false = rw set at single in
            let (stored, loaded, same) =
              get_config_file (clean_url settings.remote_config_url) signing key config set got in
            Source.from_file stored (is_set-true settings.config_file set)
              (is_set-false settings.remote_config_url remote) loaded same
        | inr unset ↦
            let given : is_set settings.remote_config_url ≡ true = rw unset at some_source in
            let fetched =
              get_config_server (clean_url settings.remote_config_url) signing key config unset
                got in
            let (valid, reply, remote, authentic, taken) =
              fetch_config_lem world.lib
                (clean_url settings.remote_config_url ++ codes "/gerbil/get-config") signing
                (world.keys.print_key key) config world.replies fetched in
            Source.from_server signing remote reply (is_set-false settings.config_file unset)
              (is_set-true settings.remote_config_url given) (signing_key_lem signing given signed)
              authentic taken
      ]

  -- Whenever main serves its control API, the token has at least 32 bytes; the configuration
  -- comes from the file alone or from an answer of the server alone that is signed under the
  -- configured key and then either has been decoded and got the program's own private key, or has
  -- been decoded in part, with an error, and keeps the private key that came with it; the
  -- listener has the address that was chosen, which is a loopback or private one; and the metrics
  -- backend is the one that New selects for the settings, which it does not refuse.
  pub start-IsGuarded :
      (serving : Serving K) → start world settings ≡ Result.done serving → IsGuarded serving
  unfolding start load
  start-IsGuarded serving e =
      let (checked, c, e1) = bind-done _ _ serving e in
      let (loaded, l, e2) = bind-done _ _ serving e1 in
      let (signing, s, l1) = bind-done _ _ loaded l in
      let (u, valid, l2) = bind-done _ _ loaded l1 in
      let (key, k, l3) = bind-done _ _ loaded l2 in
      let (config, g, l4) = bind-done _ _ loaded l3 in
      let (u2, up, e3) = bind-done _ _ serving e2 in
      let (listener, li, e4) = bind-done _ _ serving e3 in
      let (u3, safe, e5) = bind-done _ _ serving e4 in
      let ok = checks_lem checked c in
      let same = done-injective _ _ e5 in
      let pair = done-injective _ _ l4 in
      subst IsGuarded same (record {
        long_token = ok.token;
        source =
            subst (λ q. Source q.0 q.1) pair
              (source_lem signing key config ok.a_source ok.not_both s g);
        not_exposed = or-cases listener.is_loopback listener.is_private (require-done _ _ u3 safe);
        has_listener = get-done _ _ listener li;
        selected = ok.backend;
        is_valid = rw ok.backend ok.valid;
      })
