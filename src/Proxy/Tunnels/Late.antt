-- ===== src/Proxy/Tunnels/Late.antt =====
-- A race of proxy/proxy.go: a connection that is registered after `UpdateLocalSNIs` has dropped its
-- name.
use gerbil.Prelude.{
  ℕ, ◌≡◌, refl, true, false, none, some, List, [], ◌∷◌, ◌++◌, arith, ==_iff, Text, text_eq,
  text_beq_iff, ◌∙◌, All, ap,
}
use gerbil.Table.{load, store, load-store}
use gerbil.Proxy.Routes.{has_name}
use gerbil.Proxy.Tunnels.{Tunnels, conns_of, register, drop_removed}
use gerbil.Proxy.Tunnels.Laws.{has_conn, has_conn-append, drop_removed_lem}

-- Updates of the local names one after the other, from the names `old`.
abbrev pub updates : List Text → List (List Text) → Tunnels → Tunnels
updates old [] t = t
updates old (new ∷ news) t = updates new news (drop_removed old new t)

updates-load :
    (hostname : Text) (old : List Text) (news : List (List Text)) (t : Tunnels)
    → has_name hostname old ≡ false
    → All (λ new. has_name hostname new ≡ false) news
    → load hostname (updates old news t).active_tunnels ≡ load hostname t.active_tunnels
updates-load hostname old [] t gone never = refl
updates-load hostname old (new ∷ news) t gone never =
    updates-load hostname new news (drop_removed old new t) never.0 never.1
    ∙ (drop_removed_lem old new t).0 hostname
    ∙ ground arith

register-has_conn :
    (t : Tunnels) (hostname : Text) (conn : ℕ)
    → has_conn conn (conns_of (load hostname (register t hostname conn).active_tunnels)) ≡ true
unfolding register conns_of
register-has_conn t hostname conn =
    let conns = conns_of (load hostname t.active_tunnels) in
    let stored : load hostname (store hostname (conns ++ conn ∷ []) t.active_tunnels)
        ≡ some (conns ++ conn ∷ []) =
      load-store hostname hostname (conns ++ conn ∷ []) t.active_tunnels
      ∙ ground (arith, text_beq_iff hostname hostname) in
    ap (λ o. has_conn conn (conns_of o)) stored
    ∙ ground (arith, has_conn-append conn conns (conn ∷ []), ==_iff conn conn)

-- If UpdateLocalSNIs takes a name from the local ones while a connection for it is being set up,
-- the connection is registered when the update has already dropped the tunnels of the name, and
-- no further update drops it as long as the name does not become local again.
pub late_tunnel_stays :
    (old new : List Text) (news : List (List Text)) (t : Tunnels) (hostname : Text) (conn : ℕ)
    → has_name hostname old ≡ true
    → has_name hostname new ≡ false
    → All (λ names. has_name hostname names ≡ false) news
    → (load hostname (drop_removed old new t).active_tunnels ≡ none)
      × (has_conn conn (
            conns_of (
              load hostname
                (updates new news
                  (register (drop_removed old new t) hostname conn)).active_tunnels))
          ≡ true)
late_tunnel_stays old new news t hostname conn was gone never = (
  (drop_removed_lem old new t).0 hostname ∙ ground arith,
  ap (λ o. has_conn conn (conns_of o))
        (updates-load hostname new news (register (drop_removed old new t) hostname conn) gone
          never)
      ∙ register-has_conn (drop_removed old new t) hostname conn,
)
