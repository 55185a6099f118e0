-- ===== src/Proxy/Admission.antt =====
-- How many connections the proxy holds (proxy/proxy.go): `acceptConnections` with its two limits,
-- and the deferred calls at the end of a connection. Connections are numbered. One goroutine accepts;
-- each of its atomic operations, and each of those of the handlers, is a step of its own.
pub mod Counts
use gerbil.Prelude.{
  atoi, ℕ, suc, ◌≡◌, Bool, true, false, Option, none, some, List, [], ◌∷◌, ◌++◌, if◌then◌else◌,
  ◌==◌, Text, text_eq, ℤ, pos, ◌+ℤ◌, ◌-ℤ◌, lebℤ, eqℤ,
}
use gerbil.Table.{Table, load, store, delete}

-- Where the accept loop is with a connection: between connections, behind the test of
-- activeConnections, behind LoadOrStore, behind the test of the counter, behind its Add.
pub data Accepting : Type 0 where
  idle : Accepting
  admitted : (conn : ℕ) (ip : Text) → Accepting
  loaded : (conn : ℕ) (ip : Text) (counter : ℕ) → Accepting
  passed : (conn : ℕ) (ip : Text) (counter : ℕ) → Accepting
  counted : (conn : ℕ) (ip : Text) (counter : ℕ) → Accepting

-- Where a handler is: it runs; it has given back activeConnections; it has brought its counter to 0.
pub data Stage : Type 0 where
  running : Stage
  left : Stage
  emptied : Stage

pub record Handler : Type 0 where
  pub conn : ℕ
  pub ip : Text
  pub counter : ℕ
  pub stage : Stage

-- activeConnections; the counters that perIPConnections has pointed to, by number, each 0 at first;
-- the number of the next new counter; perIPConnections; the accept loop; the handlers; the
-- connections closed by the accept loop.
pub record Admission : Type 0 where
  pub active_connections : ℤ
  pub counters : ℕ → ℤ
  pub next_counter : ℕ
  pub per_ip_connections : Table Text ℕ
  pub accepting : Accepting
  pub handlers : List Handler
  pub rejected : List ℕ

abbrev pub init : Admission
init = record {
  active_connections = pos 0;
  counters = λ c. pos 0;
  next_counter = 0;
  per_ip_connections = [];
  accepting = Accepting.idle;
  handlers = [];
  rejected = [];
}

-- A limit from the environment: a positive number that an int64 holds, or else the default.
unfoldable pub positive_or : ℕ → Option ℤ → ℕ
positive_or default (some (pos (suc n))) = suc n
positive_or default _ = default

unfoldable pub load_limit : ℕ → Text → ℕ
unfolding positive_or
load_limit default env = positive_or default (atoi env)

abbrev pub default_max_sni_connections : ℕ
default_max_sni_connections = 4096

abbrev pub default_max_sni_connections_per_ip : ℕ
default_max_sni_connections_per_ip = 256

unfoldable pub set_counter : ℕ → ℤ → (ℕ → ℤ) → ℕ → ℤ
set_counter c n counters d = if d == c then n else counters d

-- Accept, and the test of activeConnections.
unfoldable pub accept : ℕ → Admission → ℕ → Text → Admission
accept max_connections s conn ip =
    if lebℤ (pos max_connections) s.active_connections
    then record s { rejected = conn ∷ s.rejected }
    else record s { accepting = Accepting.admitted conn ip }

-- LoadOrStore(remoteHost, new(atomic.Int64))
unfoldable pub load_counter : Admission → ℕ → Text → Option ℕ → Admission
load_counter s conn ip none = record s {
  next_counter = suc s.next_counter;
  per_ip_connections = store ip s.next_counter s.per_ip_connections;
  accepting = Accepting.loaded conn ip s.next_counter;
}
load_counter s conn ip (some c) = record s { accepting = Accepting.loaded conn ip c }

-- The test of the counter.
unfoldable pub check_counter : ℕ → Admission → ℕ → Text → ℕ → Admission
check_counter max_per_ip s conn ip c =
    if lebℤ (pos max_per_ip) (s.counters c)
    then record s { accepting = Accepting.idle; rejected = conn ∷ s.rejected }
    else record s { accepting = Accepting.passed conn ip c }

-- perIPCounter.Add(1)
unfoldable pub add_counter : Admission → ℕ → Text → ℕ → Admission
unfolding set_counter
add_counter s conn ip c = record s {
  counters = set_counter c (s.counters c +ℤ pos 1) s.counters;
  accepting = Accepting.counted conn ip c;
}

-- activeConnections.Add(1), and the goroutine of the handler.
unfoldable pub start_handler : Admission → ℕ → Text → ℕ → Admission
start_handler s conn ip c = record s {
  active_connections = s.active_connections +ℤ pos 1;
  accepting = Accepting.idle;
  handlers = record { conn = conn; ip = ip; counter = c; stage = Stage.running } ∷ s.handlers;
}

-- activeConnections.Add(-1), by a handler that stands between others.
unfoldable pub leave : Admission → List Handler → Handler → List Handler → Admission
leave s before h after = record s {
  active_connections = s.active_connections -ℤ pos 1;
  handlers = before ++ record h { stage = Stage.left } ∷ after;
}

-- perIPCounter.Add(-1): the goroutine ends, or goes on where the counter is 0.
unfoldable pub give_back : Admission → List Handler → Handler → List Handler → Admission
unfolding set_counter
give_back s before h after =
    let n = s.counters h.counter -ℤ pos 1 in
    record s {
      counters = set_counter h.counter n s.counters;
      handlers =
          before ++ (if eqℤ n (pos 0) then record h { stage = Stage.emptied } ∷ after else after);
    }

unfoldable pub compare_and_delete : Text → ℕ → Option ℕ → Table Text ℕ → Table Text ℕ
compare_and_delete ip c none t = t
compare_and_delete ip c (some d) t = if d == c then delete ip t else t

-- CompareAndDelete(remoteHost, counterVal)
unfoldable pub drop_counter : Admission → List Handler → Handler → List Handler → Admission
unfolding compare_and_delete
drop_counter s before h after = record s {
  per_ip_connections =
      compare_and_delete h.ip h.counter (load h.ip s.per_ip_connections) s.per_ip_connections;
  handlers = before ++ after;
}

-- The steps of the proxy. The accept loop does one operation after the other, and a handler of any
-- connection may do its next one in between.
pub data Step (max_connections max_per_ip : ℕ) : Admission → Admission → Type 0 where
  accepts :
      (s : Admission) (conn : ℕ) (ip : Text)
      → s.accepting ≡ Accepting.idle
      → Step max_connections max_per_ip s (accept max_connections s conn ip)
  loads :
      (s : Admission) (conn : ℕ) (ip : Text)
      → s.accepting ≡ Accepting.admitted conn ip
      → Step max_connections max_per_ip s (load_counter s conn ip (load ip s.per_ip_connections))
  checks :
      (s : Admission) (conn : ℕ) (ip : Text) (c : ℕ)
      → s.accepting ≡ Accepting.loaded conn ip c
      → Step max_connections max_per_ip s (check_counter max_per_ip s conn ip c)
  adds :
      (s : Admission) (conn : ℕ) (ip : Text) (c : ℕ)
      → s.accepting ≡ Accepting.passed conn ip c
      → Step max_connections max_per_ip s (add_counter s conn ip c)
  starts :
      (s : Admission) (conn : ℕ) (ip : Text) (c : ℕ)
      → s.accepting ≡ Accepting.counted conn ip c
      → Step max_connections max_per_ip s (start_handler s conn ip c)
  leaves :
      (s : Admission) (before : List Handler) (h : Handler) (after : List Handler)
      → s.handlers ≡ before ++ h ∷ after
      → h.stage ≡ Stage.running
      → Step max_connections max_per_ip s (leave s before h after)
  gives_back :
      (s : Admission) (before : List Handler) (h : Handler) (after : List Handler)
      → s.handlers ≡ before ++ h ∷ after
      → h.stage ≡ Stage.left
      → Step max_connections max_per_ip s (give_back s before h after)
  drops :
      (s : Admission) (before : List Handler) (h : Handler) (after : List Handler)
      → s.handlers ≡ before ++ h ∷ after
      → h.stage ≡ Stage.emptied
      → Step max_connections max_per_ip s (drop_counter s before h after)

pub data Reachable (max_connections max_per_ip : ℕ) : Admission → Type 0 where
  start : Reachable max_connections max_per_ip init
  step :
      (s t : Admission)
      → Reachable max_connections max_per_ip s
      → Step max_connections max_per_ip s t
      → Reachable max_connections max_per_ip t
