-- ===== src/Proxy/Examples/Connections.antt =====
-- Admission and tunnels of proxy/proxy.go on small states.
use gerbil.Prelude.{
  ℕ, atoi, none, ◌-ℤ◌, ◌+ℤ◌, ◌≡◌, ◌≢◌, refl, false, some, [], ◌∷◌, Text, text_eq, codes,
}
use gerbil.Table.{load, store, delete}
use gerbil.Proxy.Admission.{
  load_limit, default_max_sni_connections, default_max_sni_connections_per_ip, Admission, init,
  Stage, Handler, set_counter, accept, load_counter, check_counter, add_counter, start_handler,
  leave, give_back, drop_counter, Step, Reachable, positive_or, compare_and_delete,
}
use gerbil.Proxy.Admission.Counts.{IsCounted, configured-IsCounted}
use gerbil.Proxy.Tunnels.{Tunnels, conns_of}
use gerbil.Proxy.Tunnels.Laws.{has_conn}

abbrev ip : Text
ip = codes "198.51.100.4"

abbrev m : ℕ
m = load_limit default_max_sni_connections []

abbrev k : ℕ
k = load_limit default_max_sni_connections_per_ip []

-- The accept loop with one connection, without a rejection.
abbrev take_one : ℕ → ℕ → Admission → ℕ → ℕ → Admission
take_one m k s conn c =
    let a = accept m s conn ip in
    let b = load_counter a conn ip (load ip a.per_ip_connections) in
    start_handler (add_counter (check_counter k b conn ip c) conn ip c) conn ip c

abbrev handler : ℕ → ℕ → Stage → Handler
handler conn c stage = record { conn = conn; ip = ip; counter = c; stage = stage }

abbrev ended : Admission
ended = leave (take_one m k init 1 0) [] (handler 1 0 Stage.running) []

program : Unit {0}
unfolding accept load_counter check_counter add_counter start_handler leave give_back drop_counter
    set_counter compare_and_delete load store delete ◌+ℤ◌ ◌-ℤ◌ load_limit positive_or atoi
program = tt

reachable : Reachable m k ended
unfolding program
reachable =
    let a = accept m init 1 ip in
    let b = load_counter a 1 ip none in
    let c = check_counter k b 1 ip 0 in
    let d = add_counter c 1 ip 0 in
    let e = start_handler d 1 ip 0 in
    Reachable.step e ended
      (Reachable.step d e
        (Reachable.step c d
          (Reachable.step b c
            (Reachable.step a b
              (Reachable.step init a Reachable.start (Step.accepts init 1 ip refl))
              (Step.loads a 1 ip refl))
            (Step.checks b 1 ip 0 refl))
          (Step.adds c 1 ip 0 refl))
        (Step.starts d 1 ip 0 refl))
      (Step.leaves e [] (handler 1 0 Stage.running) [] refl refl)

configured-IsCounted_example : IsCounted m k ended
configured-IsCounted_example = configured-IsCounted [] [] ended reachable

-- Under a limit of one, the second connection of a source is rejected.
rejected_run :
    (let s = take_one 10 1 init 1 0 in
      check_counter 1 (load_counter (accept 10 s 2 ip) 2 ip (some 0)) 2 ip 0).rejected
    ≡ 2 ∷ []
unfolding program
rejected_run = refl

-- Where the first handler has brought the counter to 0, and a second connection raises it before
-- CompareAndDelete, the third gets a new counter: two of one source run under a limit of one.
undercounted :
    (let first = leave (take_one 10 1 init 1 0) [] (handler 1 0 Stage.running) [] in
      let emptied = give_back first [] (handler 1 0 Stage.left) [] in
      let second = take_one 10 1 emptied 2 0 in
      let dropped =
        drop_counter second (handler 2 0 Stage.running ∷ []) (handler 1 0 Stage.emptied) [] in
      take_one 10 1 dropped 3 1).handlers
    ≡ handler 3 1 Stage.running ∷ handler 2 0 Stage.running ∷ []
unfolding program
undercounted = refl

abbrev site : Text
site = codes "site.example"

abbrev tunnels : Tunnels
tunnels = record { active_tunnels = (site, 7 ∷ 8 ∷ []) ∷ []; closed = [] }

not_empty : load site tunnels.active_tunnels ≢ some []
unfolding load
not_empty h = cc

new_conn : has_conn 9 (conns_of (load site tunnels.active_tunnels)) ≡ false
unfolding load conns_of
new_conn = refl
