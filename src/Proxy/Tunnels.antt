-- ===== src/Proxy/Tunnels.antt =====
-- The active tunnels of proxy/proxy.go: the registration of a connection by `handleConnection`, its
-- deferred removal, and the end of `UpdateLocalSNIs`, which closes the tunnels of names that are
-- local no more. Connections are numbered; those that `UpdateLocalSNIs` closes are listed.
pub mod Laws
pub mod Late
use gerbil.Prelude.{
  ℕ, Bool, true, false, not, ◌||◌, Option, none, some, List, [], ◌∷◌, ◌++◌, if◌then◌else◌, ◌==◌,
  Text, text_eq,
}
use gerbil.Table.{Table, load, store, delete}
use gerbil.Proxy.Routes.{has_name}

pub record Tunnels : Type 0 where
  pub active_tunnels : Table Text (List ℕ)
  pub closed : List ℕ

-- The connections of a name; a new tunnel has none.
unfoldable pub conns_of : Option (List ℕ) → List ℕ
conns_of none = []
conns_of (some conns) = conns

pub register : Tunnels → Text → ℕ → Tunnels
unfolding conns_of
register t hostname conn = record t {
  active_tunnels =
      store hostname (conns_of (load hostname t.active_tunnels) ++ conn ∷ []) t.active_tunnels;
}

pub others : ℕ → List ℕ → List ℕ
others conn [] = []
others conn (c ∷ conns) = if c == conn then others conn conns else c ∷ others conn conns

-- The tunnel without the connection; an empty one is deleted.
pub keep : Tunnels → Text → List ℕ → Tunnels
keep t hostname [] = record t { active_tunnels = delete hostname t.active_tunnels }
keep t hostname (c ∷ conns) = record t {
  active_tunnels = store hostname (c ∷ conns) t.active_tunnels;
}

unregister_found : Option (List ℕ) → Tunnels → Text → ℕ → Tunnels
unfolding others keep
unregister_found none t hostname conn = t
unregister_found (some conns) t hostname conn = keep t hostname (others conn conns)

pub unregister : Tunnels → Text → ℕ → Tunnels
unfolding unregister_found
unregister t hostname conn = unregister_found (load hostname t.active_tunnels) t hostname conn

-- The old names that are not among the new ones.
pub removed_snis : List Text → List Text → List Text
unfolding has_name
removed_snis [] full_domains = []
removed_snis (sni ∷ snis) full_domains =
    if has_name sni full_domains
    then removed_snis snis full_domains
    else sni ∷ removed_snis snis full_domains

close_found : Option (List ℕ) → Tunnels → Text → Tunnels
close_found none t sni = t
close_found (some conns) t sni = record {
  active_tunnels = delete sni t.active_tunnels;
  closed = conns ++ t.closed;
}

pub close_tunnels : List Text → Tunnels → Tunnels
unfolding close_found
close_tunnels [] t = t
close_tunnels (sni ∷ snis) t = close_tunnels snis (close_found (load sni t.active_tunnels) t sni)

pub drop_removed : List Text → List Text → Tunnels → Tunnels
unfolding removed_snis close_tunnels
drop_removed local_snis full_domains t = close_tunnels (removed_snis local_snis full_domains) t
