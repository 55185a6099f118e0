-- ===== src/Proxy/Admission/Counts.antt =====
-- The counters of the accept loop of proxy/proxy.go in every reachable state of its steps.
use gerbil.Prelude.{
  ℕ, suc, ◌≤◌, ◌≡◌, refl, Bool, true, false, ◌&&◌, Option, none, some, List, [], ◌∷◌, ◌++◌, arith,
  if◌then◌else◌, ◌==◌, ==_iff, Text, text_eq, pos, ◌+ℤ◌, ◌-ℤ◌, lebℤ, eqℤ, Bool-cases, inl, inr, ◌∙◌,
  ap, sym,
}
use gerbil.Table.{load}
use gerbil.Proxy.Admission.{
  load_limit, default_max_sni_connections, default_max_sni_connections_per_ip, Accepting, Stage,
  Handler, Admission, init, set_counter, accept, load_counter, check_counter, add_counter,
  start_handler, leave, give_back, drop_counter, Step, Reachable,
}

abbrev runs : Stage → Bool
runs Stage.running = true
runs Stage.left = false
runs Stage.emptied = false

abbrev keeps : Stage → Bool
keeps Stage.running = true
keeps Stage.left = true
keeps Stage.emptied = false

abbrev is_running : Handler → Bool
is_running h = runs h.stage

-- The handler has not given back the counter.
abbrev holds : ℕ → Handler → Bool
holds c h = keeps h.stage && (h.counter == c)

abbrev more : Bool → ℕ → ℕ
more b n = if b then suc n else n

pub count : (Handler → Bool) → List Handler → ℕ
count test [] = 0
count test (h ∷ l) = more (test h) (count test l)

-- The accept loop is about to start a handler.
abbrev is_pending : Accepting → Bool
is_pending Accepting.idle = false
is_pending _ = true

-- It has counted the connection, or is about to.
abbrev is_counted : ℕ → Accepting → Bool
is_counted c (Accepting.counted conn ip d) = d == c
is_counted c _ = false

abbrev is_promised : ℕ → Accepting → Bool
is_promised c (Accepting.passed conn ip d) = d == c
is_promised c (Accepting.counted conn ip d) = d == c
is_promised c _ = false

-- activeConnections is the number of connections whose handler runs, each counter is the number of
-- connections that it was raised for and not given back, and both limits hold, also with the
-- connection that the accept loop is about to start.
pub record IsCounted (max_connections max_per_ip : ℕ) (s : Admission) : Type 0 where
  pub total : s.active_connections ≡ pos (count is_running s.handlers)
  pub within : more (is_pending s.accepting) (count is_running s.handlers) ≤ max_connections
  pub exact :
      (c : ℕ) → s.counters c ≡ pos (more (is_counted c s.accepting) (count (holds c) s.handlers))
  pub within_counter :
      (c : ℕ) → more (is_promised c s.accepting) (count (holds c) s.handlers) ≤ max_per_ip

pos_suc : (n : ℕ) → pos n +ℤ pos 1 ≡ pos (suc n)
unfolding ◌+ℤ◌
pos_suc n = ground arith

pos_pred : (n : ℕ) → pos (suc n) -ℤ pos 1 ≡ pos n
unfolding ◌-ℤ◌
pos_pred n = ground arith

module _ (m k : ℕ) (s : Admission) (v : IsCounted m k s) where
  accept-IsCounted :
      (conn : ℕ) (ip : Text) → s.accepting ≡ Accepting.idle → IsCounted m k (accept m s conn ip)
  unfolding accept
  accept-IsCounted conn ip e = elim (Bool-cases (lebℤ (pos m) s.active_connections)) [
    | inl full ↦ rw full (record {
      total = v.total;
      within = v.within;
      exact = v.exact;
      within_counter = v.within_counter;
    })
    | inr space ↦
        let below : lebℤ (pos m) (pos (count is_running s.handlers)) ≡ false =
          rw v.total at space in
        rw space (record {
          total = v.total;
          within = ground (arith, below);
          exact = λ c. rw e at (v.exact c);
          within_counter = λ c. rw e at (v.within_counter c);
        })
  ]

  load_counter-IsCounted :
      (conn : ℕ) (ip : Text) (o : Option ℕ)
      → s.accepting ≡ Accepting.admitted conn ip
      → IsCounted m k (load_counter s conn ip o)
  unfolding load_counter
  load_counter-IsCounted conn ip none e = record {
    total = v.total;
    within = rw e at v.within;
    exact = λ c. rw e at (v.exact c);
    within_counter = λ c. rw e at (v.within_counter c);
  }
  load_counter-IsCounted conn ip (some d) e = record {
    total = v.total;
    within = rw e at v.within;
    exact = λ c. rw e at (v.exact c);
    within_counter = λ c. rw e at (v.within_counter c);
  }

  check_counter-IsCounted :
      (conn : ℕ) (ip : Text) (d : ℕ)
      → s.accepting ≡ Accepting.loaded conn ip d
      → IsCounted m k (check_counter k s conn ip d)
  unfolding check_counter
  check_counter-IsCounted conn ip d e =
      let within = rw e at v.within in
      let exact : (c : ℕ) → s.counters c ≡ pos (count (holds c) s.handlers) =
        λ c. rw e at (v.exact c) in
      let bounded : (c : ℕ) → count (holds c) s.handlers ≤ k = λ c. rw e at (v.within_counter c) in
      elim (Bool-cases (lebℤ (pos k) (s.counters d))) [
        | inl full ↦ rw full (record {
          total = v.total;
          within = omega (arith, within);
          exact = exact;
          within_counter = bounded;
        })
        | inr space ↦
            let below : lebℤ (pos k) (pos (count (holds d) s.handlers)) ≡ false =
              rw (exact d) at space in
            rw space (record {
              total = v.total;
              within = within;
              exact = exact;
              within_counter = λ c. elim (Bool-cases (d == c)) [
                | inl same ↦ rw (same) (rw ((==_iff d c).0 same) at (counter_below below))
                | inr other ↦ rw other (bounded c)
              ];
            })
      ]
    where
      counter_below :
          lebℤ (pos k) (pos (count (holds d) s.handlers)) ≡ false
          → suc (count (holds d) s.handlers) ≤ k
      counter_below below = ground (arith, below)

  add_counter-IsCounted :
      (conn : ℕ) (ip : Text) (d : ℕ)
      → s.accepting ≡ Accepting.passed conn ip d
      → IsCounted m k (add_counter s conn ip d)
  unfolding add_counter set_counter
  add_counter-IsCounted conn ip d e =
      let exact : (c : ℕ) → s.counters c ≡ pos (count (holds c) s.handlers) =
        λ c. rw e at (v.exact c) in
      record {
        total = v.total;
        within = rw e at v.within;
        exact = λ c. elim (Bool-cases (d == c)) [
          | inl same ↦
              let back : (c == d) ≡ true = (==_iff c d).1 (sym ((==_iff d c).0 same)) in
              rw (same, back, exact d)
                (pos_suc (count (holds d) s.handlers)
                  ∙ ap (λ x. pos (suc (count (holds x) s.handlers))) ((==_iff d c).0 same))
          | inr other ↦
              let back : (c == d) ≡ false = ground (arith, other, ==_iff c d, ==_iff d c) in
              rw (other, back) (exact c)
        ];
        within_counter = λ c. rw e at (v.within_counter c);
      }

  start_handler-IsCounted :
      (conn : ℕ) (ip : Text) (d : ℕ)
      → s.accepting ≡ Accepting.counted conn ip d
      → IsCounted m k (start_handler s conn ip d)
  unfolding start_handler count
  start_handler-IsCounted conn ip d e = record {
    total = rw v.total (pos_suc (count is_running s.handlers));
    within = rw e at v.within;
    exact = λ c. rw e at (v.exact c);
    within_counter = λ c. rw e at (v.within_counter c);
  }

-- A list of handlers around one of them.
count-middle :
    (test : Handler → Bool) (before : List Handler) (h : Handler) (after : List Handler)
    → count test (before ++ h ∷ after) ≡ more (test h) (count test (before ++ after))
unfolding count
count-middle test [] h after = refl
count-middle test (x ∷ before) h after = ground (arith, count-middle test before h after)

pos_more : (b : Bool) (n : ℕ) → pos (more b (suc n)) -ℤ pos 1 ≡ pos (more b n)
pos_more true n = pos_pred (suc n)
pos_more false n = pos_pred n

-- A handler that is emptied counts for nothing.
count-emptied :
    (test : Handler → Bool) (before : List Handler) (h : Handler) (after : List Handler) (b : Bool)
    → test (record h { stage = Stage.emptied }) ≡ false
    → count test (before ++ (if b then record h { stage = Stage.emptied } ∷ after else after))
      ≡ count test (before ++ after)
count-emptied test before h after true e =
    rw e at (count-middle test before (record h { stage = Stage.emptied }) after)
count-emptied test before h after false e = refl

module _ (m k : ℕ) (s : Admission) (v : IsCounted m k s) (before : List Handler) (h : Handler)
    (after : List Handler) (split : s.handlers ≡ before ++ h ∷ after) where
  counted_with :
      (test : Handler → Bool) → count test s.handlers ≡ more (test h) (count test (before ++ after))
  counted_with test = ap (count test) split ∙ count-middle test before h after

  leave-IsCounted : h.stage ≡ Stage.running → IsCounted m k (leave s before h after)
  unfolding leave
  leave-IsCounted running =
      let gone = record h { stage = Stage.left } in
      let fewer : count is_running s.handlers ≡ suc (count is_running (before ++ gone ∷ after)) =
        counted_with is_running
        ∙ ap (λ x. more (runs x) (count is_running (before ++ after))) running
        ∙ ap suc (sym (count-middle is_running before gone after)) in
      let same : (c : ℕ) → count (holds c) (before ++ gone ∷ after) ≡ count (holds c) s.handlers =
        λ c.
          count-middle (holds c) before gone after
          ∙ ap (λ x. more (keeps x && (h.counter == c)) (count (holds c) (before ++ after)))
              (sym running)
          ∙ sym (counted_with (holds c)) in
      record {
        total = rw (v.total, fewer) (pos_pred (count is_running (before ++ gone ∷ after)));
        within = ground (arith, v.within, fewer);
        exact = λ c. v.exact c ∙ ap (λ n. pos (more (is_counted c s.accepting) n)) (sym (same c));
        within_counter = λ c. rw (same c) (v.within_counter c);
      }

  give_back-IsCounted : h.stage ≡ Stage.left → IsCounted m k (give_back s before h after)
  unfolding give_back set_counter
  give_back-IsCounted left =
      let n = s.counters h.counter -ℤ pos 1 in
      let b = eqℤ n (pos 0) in
      let new = before ++ (if b then record h { stage = Stage.emptied } ∷ after else after) in
      let runs_same : count is_running s.handlers ≡ count is_running new =
        counted_with is_running
        ∙ ap (λ x. more (runs x) (count is_running (before ++ after))) left
        ∙ sym (count-emptied is_running before h after b refl) in
      let held : (c : ℕ)
          → count (holds c) s.handlers ≡ more (h.counter == c) (count (holds c) new) =
        λ c.
          counted_with (holds c)
          ∙ ap (λ x. more (keeps x && (h.counter == c)) (count (holds c) (before ++ after))) left
          ∙ ap (more (h.counter == c)) (sym (count-emptied (holds c) before h after b refl)) in
      record {
        total = v.total ∙ ap pos runs_same;
        within = rw runs_same at v.within;
        exact = λ c. elim (Bool-cases (c == h.counter)) [
          | inl same ↦
              let back : (h.counter == h.counter) ≡ true = (==_iff h.counter h.counter).1 refl in
              let p = is_counted h.counter s.accepting in
              let lower : n ≡ pos (more p (count (holds h.counter) new)) =
                ap (λ x. x -ℤ pos 1) (v.exact h.counter)
                ∙ ap (λ x. pos (more p x) -ℤ pos 1) (held h.counter)
                ∙ ap (λ q. pos (more p (more q (count (holds h.counter) new))) -ℤ pos 1) back
                ∙ pos_more p (count (holds h.counter) new) in
              rw same (
                lower
                ∙ ap (λ x. pos (more (is_counted x s.accepting) (count (holds x) new)))
                    (sym ((==_iff c h.counter).0 same)))
          | inr other ↦
              let back : (h.counter == c) ≡ false =
                ground (arith, other, ==_iff c h.counter, ==_iff h.counter c) in
              rw other (
                v.exact c
                ∙ ap (λ x. pos (more (is_counted c s.accepting) x))
                    (held c ∙ ap (λ q. more q (count (holds c) new)) back))
        ];
        within_counter = λ c. ground (arith, v.within_counter c, held c);
      }

  drop_counter-IsCounted : h.stage ≡ Stage.emptied → IsCounted m k (drop_counter s before h after)
  unfolding drop_counter
  drop_counter-IsCounted emptied =
      let runs_same : count is_running s.handlers ≡ count is_running (before ++ after) =
        counted_with is_running
        ∙ ap (λ x. more (runs x) (count is_running (before ++ after))) emptied in
      let held : (c : ℕ) → count (holds c) s.handlers ≡ count (holds c) (before ++ after) = λ c.
        counted_with (holds c)
        ∙ ap (λ x. more (keeps x && (h.counter == c)) (count (holds c) (before ++ after)))
            emptied in
      record {
        total = v.total ∙ ap pos runs_same;
        within = rw runs_same at v.within;
        exact = λ c. v.exact c ∙ ap (λ x. pos (more (is_counted c s.accepting) x)) (held c);
        within_counter = λ c. rw (held c) at (v.within_counter c);
      }

init-IsCounted : (m k : ℕ) → IsCounted m k init
unfolding count
init-IsCounted m k = record {
  total = refl;
  within = omega arith;
  exact = λ c. refl;
  within_counter = λ c. omega arith;
}

Step-IsCounted : (m k : ℕ) (s t : Admission) → IsCounted m k s → Step m k s t → IsCounted m k t
Step-IsCounted m k s _ v (Step.accepts _ conn ip e) = accept-IsCounted m k s v conn ip e
Step-IsCounted m k s _ v (Step.loads _ conn ip e) =
    load_counter-IsCounted m k s v conn ip (load ip s.per_ip_connections) e
Step-IsCounted m k s _ v (Step.checks _ conn ip c e) = check_counter-IsCounted m k s v conn ip c e
Step-IsCounted m k s _ v (Step.adds _ conn ip c e) = add_counter-IsCounted m k s v conn ip c e
Step-IsCounted m k s _ v (Step.starts _ conn ip c e) = start_handler-IsCounted m k s v conn ip c e
Step-IsCounted m k s _ v (Step.leaves _ before h after split e) =
    leave-IsCounted m k s v before h after split e
Step-IsCounted m k s _ v (Step.gives_back _ before h after split e) =
    give_back-IsCounted m k s v before h after split e
Step-IsCounted m k s _ v (Step.drops _ before h after split e) =
    drop_counter-IsCounted m k s v before h after split e

Reachable-IsCounted : (m k : ℕ) (s : Admission) → Reachable m k s → IsCounted m k s
Reachable-IsCounted m k _ Reachable.start = init-IsCounted m k
Reachable-IsCounted m k _ (Reachable.step s t r x) =
    Step-IsCounted m k s t (Reachable-IsCounted m k s r) x

-- In every state that the atomic operations of the accept loop and of the handlers reach, in any
-- order that each of them allows, under the limits that the two environment variables give:
-- activeConnections is the number of connections whose handler has not given it back, and at most
-- its limit; and each counter that perIPConnections has held is the number of connections that
-- have raised it and not given it back, and at most the limit of a source IP. A source IP may
-- have several counters, one after the other.
pub configured-IsCounted :
    (env env_per_ip : Text) (s : Admission)
    → let m = load_limit default_max_sni_connections env in
      let k = load_limit default_max_sni_connections_per_ip env_per_ip in
      Reachable m k s → IsCounted m k s
configured-IsCounted env env_per_ip s r = Reachable-IsCounted _ _ s r
