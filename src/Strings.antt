-- ===== src/Strings.antt =====
-- What main.go uses of the packages strings and net for text: Contains, Cut, Split, Fields over ASCII
-- white space, EqualFold over ASCII, and SplitHostPort.
pub mod Laws
use gerbil.Prelude.{
  ℕ, suc, ◌+◌, ◌-◌, Bool, true, false, not, ◌&&◌, ◌||◌, Option, none, some, List, [], ◌∷◌, ◌++◌,
  if◌then◌else◌, ltb, leb, ◌==◌, Text, text_beq,
}

unfoldable pub starts_with : Text → Text → Bool
starts_with [] s = true
starts_with (p ∷ ps) [] = false
starts_with (p ∷ ps) (c ∷ s) = (p == c) && starts_with ps s

-- strings.Contains(s, part)
unfoldable pub contains : Text → Text → Bool
unfolding starts_with
contains [] part = starts_with part []
contains (c ∷ s) part = starts_with part (c ∷ s) || contains s part

abbrev cons_head : ℕ → List Text → List Text
cons_head c [] = (c ∷ []) ∷ []
cons_head c (p ∷ ps) = (c ∷ p) ∷ ps

-- The parts between the bytes that pass the test.
unfoldable pub split_at : (ℕ → Bool) → Text → List Text
split_at test [] = [] ∷ []
split_at test (c ∷ s) =
    let parts = split_at test s in if test c then [] ∷ parts else cons_head c parts

abbrev is_space : ℕ → Bool
is_space c = (c == 32) || (leb 9 c && leb c 13)

unfoldable pub drop_empty : List Text → List Text
drop_empty [] = []
drop_empty ([] ∷ ps) = drop_empty ps
drop_empty ((c ∷ s) ∷ ps) = (c ∷ s) ∷ drop_empty ps

unfoldable pub fields : Text → List Text
unfolding split_at drop_empty
fields s = drop_empty (split_at is_space s)

abbrev pub drop_prefix : Text → Text → Text
drop_prefix [] s = s
drop_prefix (p ∷ ps) [] = []
drop_prefix (p ∷ ps) (c ∷ s) = drop_prefix ps s

abbrev cons_first : ℕ → Option (Text × Text) → Option (Text × Text)
cons_first c none = none
cons_first c (some (before, after)) = some (c ∷ before, after)

-- strings.Cut(s, part): what stands before and after the first occurrence.
unfoldable pub cut : Text → Text → Option (Text × Text)
unfolding starts_with
cut [] part = if starts_with part [] then some ([], []) else none
cut (c ∷ s) part =
    let later = cons_first c (cut s part) in
    if starts_with part (c ∷ s) then some ([], drop_prefix part (c ∷ s)) else later

to_lower : Text → Text
to_lower [] = []
to_lower (c ∷ s) = (if leb b'A' c && leb c b'Z' then c + 32 else c) ∷ to_lower s

-- strings.EqualFold, if both are ASCII.
unfoldable pub equal_fold : Text → Text → Bool
unfolding to_lower
equal_fold a b = text_beq (to_lower a) (to_lower b)

-- What stands before and after the last colon.
cut_last_colon : Text → Option (Text × Text)
cut_last_colon [] = none
cut_last_colon (c ∷ s) = elim (cut_last_colon s) [
  | some (before, after) ↦ some (c ∷ before, after)
  | none ↦ if c == b':' then some ([], s) else none
]

unfoldable pub has_byte : ℕ → Text → Bool
has_byte c [] = false
has_byte c (d ∷ s) = (d == c) || has_byte c s

no_brackets : Text → Bool
unfolding has_byte
no_brackets s = not (has_byte b'[' s) && not (has_byte b']' s)

bracketed : Option (Text × Text) → Option (Text × Text)
unfolding no_brackets
bracketed none = none
bracketed (some (host, [])) = none
bracketed (some (host, c ∷ port)) =
    if (c == b':') && (no_brackets host && (no_brackets port && not (has_byte b':' port)))
    then some (host, port)
    else none

unbracketed : Option (Text × Text) → Option (Text × Text)
unfolding no_brackets
unbracketed none = none
unbracketed (some (host, port)) =
    if not (has_byte b':' host) && (no_brackets host && no_brackets port)
    then some (host, port)
    else none

-- net.SplitHostPort; none stands for its errors.
unfoldable pub split_host_port : Text → Option (Text × Text)
unfolding bracketed unbracketed cut cut_last_colon
split_host_port [] = none
split_host_port (c ∷ s) =
    if c == b'[' then bracketed (cut s (b']' ∷ [])) else unbracketed (cut_last_colon (c ∷ s))

unfoldable pub drop_spaces : Text → Text
drop_spaces [] = []
drop_spaces (c ∷ s) = if is_space c then drop_spaces s else c ∷ s

unfoldable pub trim_right : Text → Text
trim_right [] = []
trim_right (c ∷ s) =
    let rest = trim_right s in if is_space c && text_beq rest [] then [] else c ∷ rest

-- strings.TrimSpace, over ASCII.
unfoldable pub trim_space : Text → Text
unfolding drop_spaces trim_right
trim_space s = trim_right (drop_spaces s)

-- strings.TrimSuffix
unfoldable pub trim_suffix : Text → Text → Text
trim_suffix [] suffix = []
trim_suffix (c ∷ s) suffix =
    let rest = trim_suffix s suffix in if text_beq (c ∷ s) suffix then [] else c ∷ rest

-- net.JoinHostPort
pub join_host_port : Text → Text → Text
unfolding has_byte
join_host_port host port =
    if has_byte b':' host then b'[' ∷ host ++ b']' ∷ b':' ∷ port else host ++ b':' ∷ port
