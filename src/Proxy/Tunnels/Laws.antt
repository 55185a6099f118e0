-- ===== src/Proxy/Tunnels/Laws.antt =====
-- Which tunnels of proxy/proxy.go an update of the local names closes, and that a connection leaves
-- nothing behind.
use gerbil.Prelude.{
  ℕ, ◌≡◌, ◌≢◌, ◌⊎◌, ◌↔◌, inl, inr, refl, Bool, true, false, not, ◌&&◌, ◌||◌, Option, none, some,
  List, [], ◌∷◌, ◌++◌, arith, if◌then◌else◌, ◌==◌, ==_iff, Text, text_eq, text_beq, text_beq_iff,
  Bool-cases, Option-cases, ◌∙◌,
}
use gerbil.Table.{load, store, load-store, load-delete}
use gerbil.Proxy.Routes.{has_name}
use gerbil.Proxy.Tunnels.{
  Tunnels, conns_of, register, others, keep, unregister, unregister_found, removed_snis,
  close_found, close_tunnels, drop_removed,
}

abbrev pub has_conn : ℕ → List ℕ → Bool
has_conn c [] = false
has_conn c (d ∷ ds) = d == c || has_conn c ds

pub has_conn-append :
    (c : ℕ) (xs ys : List ℕ) → has_conn c (xs ++ ys) ≡ (has_conn c xs || has_conn c ys)
has_conn-append c [] ys = refl
has_conn-append c (x ∷ xs) ys = ground (arith, has_conn-append c xs ys)

has_name-removed_snis :
    (name : Text) (old new : List Text)
    → has_name name (removed_snis old new) ≡ (has_name name old && not (has_name name new))
unfolding removed_snis has_name
has_name-removed_snis name [] new = refl
has_name-removed_snis name (x ∷ old) new = elim (Bool-cases (text_beq x name)) [
  | inl same ↦
      rw ((text_beq_iff x name).0 same)
        (ground (arith, has_name-removed_snis name old new, text_beq_iff name name))
  | inr other ↦ ground (arith, has_name-removed_snis name old new)
]

close_found-load :
    (t : Tunnels) (sni name : Text)
    → load name (close_found (load sni t.active_tunnels) t sni).active_tunnels
      ≡ (if text_beq sni name then none else load name t.active_tunnels)
unfolding close_found load
close_found-load t sni name = elim (Option-cases (load sni t.active_tunnels)) [
  | inl e ↦
      rw (e, close_found)
        (elim (Bool-cases (text_beq sni name)) [
          | inl same ↦ rw (same, ← (text_beq_iff sni name).0 same, e) refl
          | inr other ↦ rw other refl
        ])
  | inr (conns, e) ↦ rw (e, close_found) (load-delete sni name t.active_tunnels)
]

close_tunnels-load :
    (snis : List Text) (t : Tunnels) (name : Text)
    → load name (close_tunnels snis t).active_tunnels
      ≡ (if has_name name snis then none else load name t.active_tunnels)
unfolding close_tunnels has_name
close_tunnels-load [] t name = refl
close_tunnels-load (x ∷ snis) t name = ground (
  arith,
  close_tunnels-load snis (close_found (load x t.active_tunnels) t x) name,
  close_found-load t x name,
)

-- The connections of the tunnel of a name.
abbrev IsConnOf : Tunnels → Text → ℕ → Type 0
IsConnOf t name c = has_conn c (conns_of (load name t.active_tunnels)) ≡ true

close_found-closed :
    (t : Tunnels) (sni : Text) (c : ℕ)
    → has_conn c (close_found (load sni t.active_tunnels) t sni).closed
      ≡ (has_conn c (conns_of (load sni t.active_tunnels)) || has_conn c t.closed)
unfolding conns_of close_found
close_found-closed t sni c = elim (Option-cases (load sni t.active_tunnels)) [
  | inl e ↦ rw (e, close_found) refl
  | inr (conns, e) ↦ rw (e, close_found) (has_conn-append c conns t.closed)
]

close_tunnels-stay :
    (snis : List Text) (t : Tunnels) (c : ℕ)
    → has_conn c t.closed ≡ true
    → has_conn c (close_tunnels snis t).closed ≡ true
unfolding close_tunnels
close_tunnels-stay [] t c h = h
close_tunnels-stay (x ∷ snis) t c h =
    close_tunnels-stay snis (close_found (load x t.active_tunnels) t x) c
      (ground (arith, close_found-closed t x c))

close_tunnels-closed :
    (snis : List Text) (t : Tunnels) (name : Text) (c : ℕ)
    → has_name name snis ≡ true
    → IsConnOf t name c
    → has_conn c (close_tunnels snis t).closed ≡ true
unfolding close_tunnels has_name
close_tunnels-closed [] t name c h k = absurd (cc)
close_tunnels-closed (x ∷ snis) t name c h k = elim (Bool-cases (text_beq x name)) [
  | inl same ↦ close_tunnels-stay snis (close_found (load x t.active_tunnels) t x) c (
      let e : x ≡ name = (text_beq_iff x name).0 same in
      let its : IsConnOf t x c = rw e k in ground (arith, close_found-closed t x c, its))
  | inr other ↦
      close_tunnels-closed snis (close_found (load x t.active_tunnels) t x) name c (rw other at h)
        (rw (close_found-load t x name, other) k)
]

close_tunnels-only :
    (snis : List Text) (t : Tunnels) (c : ℕ)
    → has_conn c (close_tunnels snis t).closed ≡ true
    → (has_conn c t.closed ≡ true)
      ⊎ ((name : Text) × (has_name name snis ≡ true) × IsConnOf t name c)
unfolding close_tunnels has_name conns_of
close_tunnels-only [] t c h = inl h
close_tunnels-only (x ∷ snis) t c h =
    elim (close_tunnels-only snis (close_found (load x t.active_tunnels) t x) c h) [
      | inl before ↦ elim (Bool-cases (has_conn c (conns_of (load x t.active_tunnels)))) [
        | inl its ↦ inr (x, ground (arith, text_beq_iff x x), its)
        | inr none_of_its ↦ inl (ground (arith, close_found-closed t x c))
      ]
      | inr (name, listed, conn) ↦ elim (Bool-cases (text_beq x name)) [
        | inl same ↦ absurd (cc (rw (close_found-load t x name, same) at conn))
        | inr other ↦ inr (name, ground arith, rw (close_found-load t x name, other) at conn)
      ]
    ]

-- UpdateLocalSNIs drops the tunnels of exactly the names that were local and are not in the new
-- list, and closes exactly the connections of these, besides those closed before.
pub drop_removed_lem :
    (old new : List Text) (t : Tunnels)
    → ((name : Text)
        → load name (drop_removed old new t).active_tunnels ≡ (
            if has_name name old && not (has_name name new)
            then none
            else load name t.active_tunnels))
      × ((c : ℕ)
          → (has_conn c (drop_removed old new t).closed ≡ true) ↔ (
              (has_conn c t.closed ≡ true)
              ⊎ ((name : Text) × (has_name name old ≡ true)
                  × (has_name name new ≡ false)
                  × IsConnOf t name c)))
unfolding drop_removed
drop_removed_lem old new t = (
  (λ name.
      close_tunnels-load (removed_snis old new) t name
      ∙ ground (arith, has_name-removed_snis name old new)),
  (λ c. (
    (λ h. elim (close_tunnels-only (removed_snis old new) t c h) [
      | inl before ↦ inl before
      | inr (name, listed, conn) ↦ inr (
        name,
        ground (arith, has_name-removed_snis name old new),
        ground (arith, has_name-removed_snis name old new),
        conn,
      )
    ]),
    (λ h. elim h [
      | inl before ↦ close_tunnels-stay (removed_snis old new) t c before
      | inr (name, was, gone, conn) ↦
          close_tunnels-closed (removed_snis old new) t name c
            (ground (arith, has_name-removed_snis name old new)) conn
    ]),
  )),
)

others-append :
    (conn : ℕ) (xs : List ℕ) → has_conn conn xs ≡ false → others conn (xs ++ conn ∷ []) ≡ xs
unfolding others
others-append conn [] h = ground (arith, ==_iff conn conn)
others-append conn (x ∷ xs) h = ground (arith, others-append conn xs (ground arith))

-- After a store of the tunnel with the connection, the rest is what was there.
keep-load :
    (o : Option (List ℕ)) (t t' : Tunnels) (hostname name : Text) (conns : List ℕ)
    → load hostname t.active_tunnels ≡ o
    → o ≢ some []
    → t'.active_tunnels ≡ store hostname conns t.active_tunnels
    → load name (keep t' hostname (conns_of o)).active_tunnels ≡ load name t.active_tunnels
unfolding keep conns_of
keep-load none t t' hostname name conns e ne f = rw f (
    ground (
      arith,
      load-delete hostname name (store hostname conns t.active_tunnels),
      load-store hostname name conns t.active_tunnels,
      text_beq_iff hostname name,
    ))
keep-load (some []) t t' hostname name conns e ne f = absurd (ne refl)
keep-load (some (c ∷ cs)) t t' hostname name conns e ne f = rw f (
    ground (
      arith,
      load-store hostname name (c ∷ cs) (store hostname conns t.active_tunnels),
      load-store hostname name conns t.active_tunnels,
      text_beq_iff hostname name,
    ))

-- A connection that was not in the tunnel of a host name, which is absent or not empty, leaves
-- every tunnel as it was once it is registered and removed.
unregister-register :
    (t : Tunnels) (hostname name : Text) (conn : ℕ)
    → load hostname t.active_tunnels ≢ some []
    → has_conn conn (conns_of (load hostname t.active_tunnels)) ≡ false
    → load name (unregister (register t hostname conn) hostname conn).active_tunnels
      ≡ load name t.active_tunnels
unfolding unregister register unregister_found
unregister-register t hostname name conn not_empty new =
    let o = load hostname t.active_tunnels in
    let conns = conns_of o ++ conn ∷ [] in
    let stored : load hostname (store hostname conns t.active_tunnels) ≡ some conns =
      load-store hostname hostname conns t.active_tunnels
      ∙ ground (arith, text_beq_iff hostname hostname) in
    rw (stored, unregister_found, others-append conn (conns_of o) new)
      (keep-load o t (record t { active_tunnels = store hostname conns t.active_tunnels }) hostname
        name conns refl not_empty refl)
