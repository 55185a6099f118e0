-- ===== src/Control/Shaping/Removal.antt =====
-- Which filters `removePeerBandwidthLimit` of main.go deletes.
use gerbil.Prelude.{
  ◌≡◌, ◌≢◌, ◌↔◌, ◌⊎◌, inl, inr, refl, true, some, List, [], ◌∷◌, if◌then◌else◌, ◌==◌, Text,
  Bool-cases, ap, sym,
}
use gerbil.Strings.{split_at, fields}
use gerbil.Control.Shaping.Exec.{Command, Output, Answers, run}
use gerbil.Control.Shaping.Commands.{Device, class_of, show_filters, delete_filter, delete_class}
use gerbil.Control.Shaping.{handle_of, is_deleted, delete_filters, remove_on}

-- The command is among those that were run.
abbrev pub Ran : Command → List Command → Type 0
Ran c [] = ⊥
Ran c (d ∷ ran) = (c ≡ d) ⊎ Ran c ran

-- A line of the listing that names the class has the handle.
abbrev pub Lists : Text → Text → List Text → Type 0
Lists class handle [] = ⊥
Lists class handle (line ∷ lines) =
    ((is_deleted class line ≡ true) × (handle_of (fields line) ≡ handle)) ⊎ Lists class handle lines

abbrev lines_of : Output → List Text
lines_of out = if out.succeeded then split_at (λ c. c == 10) out.printed else []

-- The listing of the filters on a device.
abbrev pub listing : Device → Answers → List Command → List Text
listing device answers ran = lines_of (answers ran (show_filters device device.handle))

-- The commands after those of the loop.
pub after_deletions : Device → Text → List Text → List Command → List Command
after_deletions device class [] ran = ran
after_deletions device class (line ∷ lines) ran =
    after_deletions device class lines
      (if is_deleted class line then delete_filter device (handle_of (fields line)) ∷ ran else ran)

delete_filters_lem :
    (device : Device) (class : Text) (lines : List Text) (answers : Answers) (ran : List Command)
    → delete_filters device class lines answers ran
      ≡ (after_deletions device class lines ran, some tt)
unfolding delete_filters after_deletions run
delete_filters_lem device class [] answers ran = refl
delete_filters_lem device class (line ∷ lines) answers ran =
    elim (Bool-cases (is_deleted class line)) [
      | inl gone ↦ rw gone (
          delete_filters_lem device class lines answers
            (delete_filter device (handle_of (fields line)) ∷ ran))
      | inr kept ↦ rw kept (delete_filters_lem device class lines answers ran)
    ]

abbrev pub after_removal : Device → Text → Answers → List Command → List Command
after_removal device octet answers ran =
    delete_class device octet
    ∷ after_deletions device (class_of device octet) (listing device answers ran)
        (show_filters device device.handle ∷ ran)

pub remove_on_lem :
    (device : Device) (octet : Text) (answers : Answers) (ran : List Command)
    → remove_on device octet answers ran ≡ (after_removal device octet answers ran, some tt)
unfolding remove_on run after_deletions
remove_on_lem device octet answers ran =
    let out = answers ran (show_filters device device.handle) in
    elim (Bool-cases out.succeeded) [
      | inr failed ↦ rw failed refl
      | inl listed ↦ rw listed (
          rw
            (delete_filters_lem device (class_of device octet) (split_at (λ c. c == 10) out.printed)
              answers (show_filters device device.handle ∷ ran))
            refl)
    ]

Ran-after_deletions :
    (c : Command) (device : Device) (class : Text) (lines : List Text) (ran : List Command)
    → Ran c ran
    → Ran c (after_deletions device class lines ran)
unfolding after_deletions
Ran-after_deletions c device class [] ran r = r
Ran-after_deletions c device class (line ∷ lines) ran r =
    elim (Bool-cases (is_deleted class line)) [
      | inl gone ↦ rw gone (
          Ran-after_deletions c device class lines
            (delete_filter device (handle_of (fields line)) ∷ ran) (inr r))
      | inr kept ↦ rw kept (Ran-after_deletions c device class lines ran r)
    ]

Lists-Ran :
    (device : Device) (class handle : Text) (lines : List Text) (ran : List Command)
    → Lists class handle lines
    → Ran (delete_filter device handle) (after_deletions device class lines ran)
unfolding after_deletions
Lists-Ran device class handle [] ran l = absurd l
Lists-Ran device class handle (line ∷ lines) ran (inl (gone, e)) = rw gone (
    Ran-after_deletions (delete_filter device handle) device class lines
      (delete_filter device (handle_of (fields line)) ∷ ran)
      (inl (ap (delete_filter device) (sym e))))
Lists-Ran device class handle (line ∷ lines) ran (inr l) =
    Lists-Ran device class handle lines
      (if is_deleted class line then delete_filter device (handle_of (fields line)) ∷ ran else ran)
      l

delete_filter-injective :
    (d e : Device) (h k : Text)
    → delete_filter d h ≡ delete_filter e k
    → (d.handle ≡ e.handle) × (h ≡ k)
delete_filter-injective d e h k eq = (cc, cc)

Ran-Lists :
    (device : Device) (class handle : Text) (lines : List Text) (ran : List Command)
    → Ran (delete_filter device handle) (after_deletions device class lines ran)
    → Lists class handle lines ⊎ Ran (delete_filter device handle) ran
unfolding after_deletions
Ran-Lists device class handle [] ran r = inr r
Ran-Lists device class handle (line ∷ lines) ran r = elim (Bool-cases (is_deleted class line)) [
  | inr kept ↦ elim (Ran-Lists device class handle lines ran (rw kept at r)) [
    | inl l ↦ inl (inr l)
    | inr before ↦ inr before
  ]
  | inl gone ↦
      elim (Ran-Lists device class handle lines
        (delete_filter device (handle_of (fields line)) ∷ ran) (rw gone at r)) [
          | inl l ↦ inl (inr l)
          | inr (inr before) ↦ inr before
          | inr (inl same) ↦
              inl (inl (gone, sym (delete_filter-injective device device handle _ same).1))
        ]
]

-- The loop on a device with another root handle deletes no filter of this one.
other-after_deletions :
    (d e : Device) (handle class : Text) (lines : List Text) (ran : List Command)
    → d.handle ≢ e.handle
    → Ran (delete_filter d handle) (after_deletions e class lines ran)
    → Ran (delete_filter d handle) ran
unfolding after_deletions
other-after_deletions d e handle class [] ran ne r = r
other-after_deletions d e handle class (line ∷ lines) ran ne r =
    elim (Bool-cases (is_deleted class line)) [
      | inr kept ↦ other-after_deletions d e handle class lines ran ne (rw kept at r)
      | inl gone ↦
          elim (other-after_deletions d e handle class lines
            (delete_filter e (handle_of (fields line)) ∷ ran) ne (rw gone at r)) [
              | inr before ↦ before
              | inl same ↦ absurd (ne (delete_filter-injective d e handle _ same).0)
            ]
    ]

pub other-after_removal :
    (d e : Device) (handle octet : Text) (answers : Answers) (ran : List Command)
    → d.handle ≢ e.handle
    → Ran (delete_filter d handle) (after_removal e octet answers ran)
    → Ran (delete_filter d handle) ran
other-after_removal d e handle octet answers ran ne (inl class) = absurd (cc)
other-after_removal d e handle octet answers ran ne (inr r) =
    elim (other-after_deletions d e handle (class_of e octet) (listing e answers ran)
      (show_filters e e.handle ∷ ran) ne r) [ inl show ↦ absurd (cc) | inr before ↦ before ]

pub Ran-after_removal :
    (c : Command) (device : Device) (octet : Text) (answers : Answers) (ran : List Command)
    → Ran c ran
    → Ran c (after_removal device octet answers ran)
Ran-after_removal c device octet answers ran r = inr (
    Ran-after_deletions c device (class_of device octet) (listing device answers ran)
      (show_filters device device.handle ∷ ran) (inr r))

pub Ran-after_removal_iff :
    (device : Device) (octet handle : Text) (answers : Answers)
    → Ran (delete_filter device handle) (after_removal device octet answers [])
      ↔ Lists (class_of device octet) handle (listing device answers [])
Ran-after_removal_iff device octet handle answers = (
  ran_lists,
  (λ l. inr (
      Lists-Ran device (class_of device octet) handle (listing device answers [])
        (show_filters device device.handle ∷ []) l)),
)
  where
    ran_lists :
        Ran (delete_filter device handle) (after_removal device octet answers [])
        → Lists (class_of device octet) handle (listing device answers [])
    ran_lists (inl class) = absurd (cc)
    ran_lists (inr r) =
        elim (Ran-Lists device (class_of device octet) handle (listing device answers [])
          (show_filters device device.handle ∷ []) r) [
            | inl l ↦ l
            | inr (inl show) ↦ absurd (cc)
            | inr (inr impossible) ↦ absurd impossible
          ]
