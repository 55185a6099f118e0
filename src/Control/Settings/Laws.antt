-- ===== src/Control/Settings/Laws.antt =====
-- Whence the settings of main.go come.
use mathlib.Core.Option.{some-injective}
use gerbil.Prelude.{
  ◌≡◌, ◌≢◌, ◌⊎◌, Option, inl, inr, refl, sym, ap, ◌∙◌, Bool, true, false, ◌&&◌, ◌||◌, none, some,
  List, [], ◌∷◌, arith, Text, text_beq, text_beq_iff, codes, Bool-cases,
}
use gerbil.Control.Settings.{
  Environment, Given, FlagParsers, last_given, is_empty, or_default, local_overrides_var,
  read_settings, Settings,
}
use gerbil.Control.Settings.Flags.{
  Registered, register, Row, is_registered, flag_rows, kind_of, accepts_value, accepts_all,
  parse_settings,
}

-- A flag that is not registered ends the program.
accepts_all-last_given :
    (parsers : FlagParsers) (flags : Registered) (given : Given) (name : Text)
    → accepts_all parsers flags given ≡ true
    → kind_of name flags ≡ none
    → last_given name given ≡ none
unfolding accepts_all last_given accepts_value
accepts_all-last_given parsers flags [] name accepted missing = refl
accepts_all-last_given parsers flags ((n, value) ∷ given) name accepted missing =
    let later : last_given name given ≡ none =
      accepts_all-last_given parsers flags given name (ground arith) missing in
    elim (Bool-cases (text_beq n name)) [
      | inl same ↦
          let gone : kind_of n flags ≡ none =
            ap (λ m. kind_of m flags) ((text_beq_iff n name).0 same) ∙ missing in
          absurd (cc (rw gone at accepted))
      | inr other ↦ rw (later, other) refl
    ]

-- Whether a row registers the flag.
is_offered : Text → Environment → List Row → Bool
is_offered name env [] = false
is_offered name env (r ∷ rows) =
    (text_beq r.flag name && is_registered env r.when) || is_offered name env rows

kind_of-register :
    (name : Text) (env : Environment) (rows : List Row)
    → is_offered name env rows ≡ false
    → kind_of name (register env rows) ≡ none
unfolding kind_of register is_offered
kind_of-register name env [] h = refl
kind_of-register name env (r ∷ rows) h =
    let later : kind_of name (register env rows) ≡ none =
      kind_of-register name env rows (ground arith) in
    elim (Bool-cases (is_registered env r.when)) [
      | inr absent ↦ rw absent later
      | inl there ↦
          let other : text_beq r.flag name ≡ false = ground arith in rw (there, other) later
    ]

kind_of-overrides :
    (env : Environment)
    → env (codes "LOCAL_OVERRIDES") ≡ []
    → kind_of (codes "local-overrides") (register env flag_rows) ≡ none
unfolding is_offered is_registered is_empty
kind_of-overrides env unset =
    kind_of-register (codes "local-overrides") env flag_rows (rw unset refl)

overrides_of :
    (value : Text) (given : Given)
    → (value ≡ [] → last_given (codes "local-overrides") given ≡ none)
    → local_overrides_var value given ≡ or_default [] (last_given (codes "local-overrides") given)
unfolding local_overrides_var is_empty or_default
overrides_of [] given never = rw (never refl) refl
overrides_of (c ∷ value) given never = refl

set_or_unset :
    (value : Text) (given : Option Text)
    → (value ≡ [] → given ≡ none)
    → (value ≢ []) ⊎ (given ≡ none)
set_or_unset [] given never = inr (never refl)
set_or_unset (c ∷ value) given never = inl (λ e. cc)

-- If flag.Parse accepts the command line, the local overrides are what it gives for
-- local-overrides, or empty, whatever LOCAL_OVERRIDES holds; and LOCAL_OVERRIDES is set or the
-- command line does not give the flag.
pub local_overrides_lem :
    (parsers : FlagParsers) (env : Environment) (given : Given) (settings : Settings)
    → parse_settings parsers env given ≡ some settings
    → (settings.local_overrides ≡ or_default [] (last_given (codes "local-overrides") given))
      × ((env (codes "LOCAL_OVERRIDES") ≢ []) ⊎ (last_given (codes "local-overrides") given ≡ none))
unfolding parse_settings read_settings
local_overrides_lem parsers env given settings parsed =
    elim (Bool-cases (accepts_all parsers (register env flag_rows) given)) [
      | inr refused ↦ absurd (cc (rw refused at parsed))
      | inl accepted ↦
          let read : read_settings parsers env given ≡ settings =
            some-injective _ _ (rw accepted at parsed) in
          let never : env (codes "LOCAL_OVERRIDES") ≡ []
              → last_given (codes "local-overrides") given ≡ none =
            λ unset.
              accepts_all-last_given parsers (register env flag_rows) given
                (codes "local-overrides") accepted (kind_of-overrides env unset) in
          (
            ap (λ s. s.local_overrides) (sym read)
                ∙ overrides_of (env (codes "LOCAL_OVERRIDES")) given never,
            set_or_unset (env (codes "LOCAL_OVERRIDES")) _ never,
          )
    ]
