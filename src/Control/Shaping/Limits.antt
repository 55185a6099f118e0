-- ===== src/Control/Shaping/Limits.antt =====
-- The whole of `removePeerBandwidthLimit` of main.go: what it deletes on the WireGuard interface, and
-- that the filters of other peers are among it.
use gerbil.Prelude.{
  ◌≡◌, ◌≢◌, All, not, false, ◌==◌, text_beq, text_beq_iff, ◌∙◌, ◌↔◌, ◌⊎◌, inl, inr, refl, true,
  Option, some, List, [], ◌∷◌, ◌++◌, arith, if◌then◌else◌, Text, codes, Bool-cases, ap, subst, sym,
}
use mathlib.Core.List.{append_assoc}
use gerbil.Strings.{contains, fields, split_at, has_byte}
use gerbil.Strings.Laws.{contains-append}
use gerbil.Control.Shaping.Exec.{Command, Answers}
use gerbil.Control.Shaping.Commands.{Settings, wg, ifb, class_of, delete_filter}
use gerbil.Control.Shaping.{
  plain_ip, fourth, is_empty, last_octet, handle_of, is_listed, is_deleted,
  remove_peer_bandwidth_limit,
}
use gerbil.Control.Shaping.Removal.{
  Ran, Lists, listing, after_removal, remove_on_lem, other-after_removal, Ran-after_removal,
  Ran-after_removal_iff,
}

-- The commands of both devices.
removal-eq :
    (settings : Settings) (parse_cidr : Text → Option Text) (peer_ip ip octet : Text)
    (answers : Answers) (ran : List Command)
    → plain_ip parse_cidr peer_ip ≡ some ip
    → last_octet ip ≡ some octet
    → remove_peer_bandwidth_limit settings parse_cidr peer_ip answers ran ≡ (
      if settings.ifb_loaded
          then after_removal
              (ifb settings)
              octet
              answers
              (after_removal (wg settings) octet answers ran)
          else after_removal (wg settings) octet answers ran,
      some tt,
    )
unfolding remove_peer_bandwidth_limit
removal-eq settings parse_cidr peer_ip ip octet answers ran e f =
    rw (e, f)
      (rw (remove_on_lem (wg settings) octet answers ran) (elim (Bool-cases settings.ifb_loaded) [
        | inl loaded ↦ rw loaded (
            rw
              (remove_on_lem (ifb settings) octet answers
                (after_removal (wg settings) octet answers ran))
              refl)
        | inr missing ↦ rw missing refl
      ]))

module _ (settings : Settings) (parse_cidr : Text → Option Text) (peer_ip ip octet : Text)
    (answers : Answers) (parsed : plain_ip parse_cidr peer_ip ≡ some ip)
    (fourth : last_octet ip ≡ some octet) where
  abbrev commands : List Command
  commands = (remove_peer_bandwidth_limit settings parse_cidr peer_ip answers []).0

  removal_Ran :
      (handle : Text)
      → Ran (delete_filter (wg settings) handle) commands
        ↔ Ran (delete_filter (wg settings) handle) (after_removal (wg settings) octet answers [])
  removal_Ran handle =
      subst
        (λ ran.
          Ran (delete_filter (wg settings) handle) ran
          ↔ Ran (delete_filter (wg settings) handle) (after_removal (wg settings) octet answers []))
        (sym (
          ap (λ r. r.0) (removal-eq settings parse_cidr peer_ip ip octet answers [] parsed fourth)))
        (elim (Bool-cases settings.ifb_loaded) [
          | inr missing ↦ rw missing ((λ r. r), (λ r. r))
          | inl loaded ↦ rw loaded (
            (λ r.
                other-after_removal (wg settings) (ifb settings) handle octet answers
                  (after_removal (wg settings) octet answers []) (ground arith) r),
            (λ r.
                Ran-after_removal (delete_filter (wg settings) handle) (ifb settings) octet answers
                  (after_removal (wg settings) octet answers []) r),
          )
        ])

  removal_Lists :
      (handle : Text)
      → ((remove_peer_bandwidth_limit settings parse_cidr peer_ip answers []).1 ≡ some tt)
        × (Ran (delete_filter (wg settings) handle) commands
            ↔ Lists (class_of (wg settings) octet) handle (listing (wg settings) answers []))
  removal_Lists handle = (
    ap (λ r. r.1) (removal-eq settings parse_cidr peer_ip ip octet answers [] parsed fourth),
    (
      (λ r.
          (Ran-after_removal_iff (wg settings) octet handle answers).0 ((removal_Ran handle).0 r)),
      (λ l.
          (removal_Ran handle).1 ((Ran-after_removal_iff (wg settings) octet handle answers).1 l)),
    ),
  )

-- The handle of a filter: the word after the first `fh`.
abbrev IsHandle : Text → List Text → Type 0
IsHandle handle words =
    (handle ≢ [])
    × (before : List Text) × (after : List Text) × (words ≡ before ++ codes "fh" ∷ handle ∷ after)
    × All (λ word. text_beq word (codes "fh") ≡ false) before

-- A line of the listing shows a filter with the handle, and contains flowid and the class.
abbrev pub Shows : Text → Text → List Text → Type 0
Shows class handle [] = ⊥
Shows class handle (line ∷ lines) =
    ((contains line (codes "flowid " ++ class) ≡ true)
      × (contains line (codes "fh ") ≡ true)
      × IsHandle handle (fields line))
    ⊎ Shows class handle lines

handle_of-IsHandle : (words : List Text) → handle_of words ≢ [] → IsHandle (handle_of words) words
unfolding handle_of
handle_of-IsHandle [] h = absurd (h refl)
handle_of-IsHandle (w ∷ []) h = absurd (h refl)
handle_of-IsHandle (w ∷ next ∷ words) h = elim (Bool-cases (text_beq w (codes "fh"))) [
  | inl fh ↦
      rw fh (
        (rw fh at h),
        [],
        words,
        ap (λ v. v ∷ next ∷ words) ((text_beq_iff w (codes "fh")).0 fh),
        tt,
      )
  | inr other ↦
      let (full, before, after, split, differ) =
        handle_of-IsHandle (next ∷ words) (rw other at h) in
      rw other (full, w ∷ before, after, ap (λ l. w ∷ l) split, (other, differ))
]

handle_of-before :
    (before after : List Text) (handle : Text)
    → All (λ word. text_beq word (codes "fh") ≡ false) before
    → handle_of (before ++ codes "fh" ∷ handle ∷ after) ≡ handle
unfolding handle_of
handle_of-before [] after handle h = refl
handle_of-before (w ∷ []) after handle (h, hs) = rw h (handle_of-before [] after handle tt)
handle_of-before (w ∷ v ∷ before) after handle (h, hs) =
    rw h (handle_of-before (v ∷ before) after handle hs)

not_empty : (s : Text) → not (is_empty s) ≡ true → s ≢ []
unfolding is_empty
not_empty [] h = absurd (cc)
not_empty (c ∷ s) h = λ e. cc

empty-not : (s : Text) → s ≢ [] → not (is_empty s) ≡ true
unfolding is_empty
empty-not [] h = absurd (h refl)
empty-not (c ∷ s) h = refl

is_deleted-parts :
    (class line : Text)
    → is_deleted class line ≡ true
    → (contains line (codes "flowid " ++ class) ≡ true)
      × (contains line (codes "fh ") ≡ true)
      × (not (is_empty (handle_of (fields line))) ≡ true)
unfolding is_deleted is_listed
is_deleted-parts class line h = (ground (arith, h), ground (arith, h), ground (arith, h))

Lists-Shows :
    (class handle : Text) (lines : List Text) → Lists class handle lines → Shows class handle lines
Lists-Shows class handle [] l = l
Lists-Shows class handle (line ∷ lines) (inr l) = inr (Lists-Shows class handle lines l)
Lists-Shows class handle (line ∷ lines) (inl (gone, e)) =
    let (flowid, fh, full) = is_deleted-parts class line gone in
    inl (
      flowid,
      fh,
      subst (λ h. IsHandle h (fields line)) e
          (handle_of-IsHandle (fields line) (not_empty (handle_of (fields line)) full)),
    )

Shows-Lists :
    (class handle : Text) (lines : List Text) → Shows class handle lines → Lists class handle lines
unfolding is_deleted is_listed
Shows-Lists class handle [] l = l
Shows-Lists class handle (line ∷ lines) (inr l) = inr (Shows-Lists class handle lines l)
Shows-Lists class handle (line ∷ lines) (inl (flowid, fh, (full, before, after, split, differ))) =
    let found : handle_of (fields line) ≡ handle =
      ap handle_of split ∙ handle_of-before before after handle differ in
    inl (rw (flowid, fh, found) (empty-not handle full), found)

split_at-before :
    (part rest : Text)
    → has_byte b'.' part ≡ false
    → split_at (λ c. c == b'.') (part ++ b'.' ∷ rest) ≡ part ∷ split_at (λ c. c == b'.') rest
unfolding split_at has_byte
split_at-before [] rest h = refl
split_at-before (c ∷ part) rest h =
    let other : (c == b'.') ≡ false = ground (arith, h) in
    let later = split_at-before part rest (ground (arith, h)) in rw (other, later) refl

split_at-last :
    (part : Text) → has_byte b'.' part ≡ false → split_at (λ c. c == b'.') part ≡ part ∷ []
unfolding split_at has_byte
split_at-last [] h = refl
split_at-last (c ∷ part) h =
    let other : (c == b'.') ≡ false = ground (arith, h) in
    let later = split_at-last part (ground (arith, h)) in rw (other, later) refl

last_octet-fourth :
    (a b c d : Text)
    → has_byte b'.' a ≡ false
    → has_byte b'.' b ≡ false
    → has_byte b'.' c ≡ false
    → has_byte b'.' d ≡ false
    → last_octet (a ++ b'.' ∷ (b ++ b'.' ∷ (c ++ b'.' ∷ d))) ≡ some d
unfolding last_octet fourth
last_octet-fourth a b c d ha hb hc hd = ap fourth (
    split_at-before a (b ++ b'.' ∷ (c ++ b'.' ∷ d)) ha
    ∙ ap (λ l. a ∷ l) (split_at-before b (c ++ b'.' ∷ d) hb)
    ∙ ap (λ l. a ∷ b ∷ l) (split_at-before c d hc)
    ∙ ap (λ l. a ∷ b ∷ c ∷ l) (split_at-last d hd))

-- For a peer IP of four parts, none with a dot, whatever the commands print,
-- removePeerBandwidthLimit returns no error, and deletes on the WireGuard interface exactly the
-- filters with a handle of which the listing has a line that contains flowid 1: and the last
-- part, contains fh with a blank, and has the handle as the word after its first word fh.
pub remove_peer_bandwidth_limit_lem :
    (settings : Settings) (parse_cidr : Text → Option Text) (peer_ip a b c d handle : Text)
    (answers : Answers)
    → plain_ip parse_cidr peer_ip ≡ some (a ++ b'.' ∷ (b ++ b'.' ∷ (c ++ b'.' ∷ d)))
    → has_byte b'.' a ≡ false
    → has_byte b'.' b ≡ false
    → has_byte b'.' c ≡ false
    → has_byte b'.' d ≡ false
    → let result = remove_peer_bandwidth_limit settings parse_cidr peer_ip answers [] in
      (result.1 ≡ some tt)
      × (Ran (delete_filter (wg settings) handle) result.0
          ↔ Shows (codes "1:" ++ d) handle (listing (wg settings) answers []))
remove_peer_bandwidth_limit_lem settings parse_cidr peer_ip a b c d handle answers parsed ha hb hc
      hd =
    let (fine, exactly) =
      removal_Lists settings parse_cidr peer_ip (a ++ b'.' ∷ (b ++ b'.' ∷ (c ++ b'.' ∷ d))) d
        answers parsed (last_octet-fourth a b c d ha hb hc hd) handle in
    let lines = listing (wg settings) answers [] in
    (
      fine,
      (
        (λ r. Lists-Shows (codes "1:" ++ d) handle lines (exactly.0 r)),
        (λ l. exactly.1 (Shows-Lists (codes "1:" ++ d) handle lines l)),
      ),
    )

-- A line of the listing that `setupPeerBandwidthLimit` may have caused for another peer: it has a
-- handle, and names a class that begins with this peer's.
abbrev pub ListsLonger : Text → Text → Text → List Text → Type 0
ListsLonger class more handle [] = ⊥
ListsLonger class more handle (line ∷ lines) =
    ((is_deleted (class ++ more) line ≡ true) × (handle_of (fields line) ≡ handle))
    ⊎ ListsLonger class more handle lines

is_deleted-append :
    (class more line : Text) → is_deleted (class ++ more) line ≡ true → is_deleted class line ≡ true
unfolding is_deleted is_listed
is_deleted-append class more line h =
    let longer : contains line ((codes "flowid " ++ class) ++ more) ≡ true =
      rw (append_assoc (codes "flowid ") class more) (ground (arith, h)) in
    let found = contains-append line (codes "flowid " ++ class) more longer in
    ground (arith, h, found)

ListsLonger-Lists :
    (class more handle : Text) (lines : List Text)
    → ListsLonger class more handle lines
    → Lists class handle lines
ListsLonger-Lists class more handle [] l = absurd l
ListsLonger-Lists class more handle (line ∷ lines) (inl (gone, e)) =
    inl (is_deleted-append class more line gone, e)
ListsLonger-Lists class more handle (line ∷ lines) (inr l) =
    inr (ListsLonger-Lists class more handle lines l)

-- If the listing has a filter of another peer whose class begins with this peer's (1:42 after
-- 1:4), or is the same, removePeerBandwidthLimit deletes that filter too.
pub removal_hits_longer :
    (settings : Settings) (parse_cidr : Text → Option Text) (peer_ip ip octet more handle : Text)
    (answers : Answers)
    → plain_ip parse_cidr peer_ip ≡ some ip
    → last_octet ip ≡ some octet
    → ListsLonger (class_of (wg settings) octet) more handle (listing (wg settings) answers [])
    → Ran
        (delete_filter (wg settings) handle)
        (remove_peer_bandwidth_limit settings parse_cidr peer_ip answers []).0
removal_hits_longer settings parse_cidr peer_ip ip octet more handle answers parsed fourth l =
    (removal_Lists settings parse_cidr peer_ip ip octet answers parsed fourth handle).1.1 (
      ListsLonger-Lists (class_of (wg settings) octet) more handle
        (listing (wg settings) answers []) l)
