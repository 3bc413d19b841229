-- ===== src/Workers/Turns.antt =====
-- The steps of the goroutines of examples/workerpool keep what its results promise.
use mathlib.Core.Path.{subst}
use go_concurrency_examples.Base.{
  Context, Option, ap, arith, false, suc, sum_below, sum_below-update, update, ℕ, ◌+◌, ◌-◌, ◌<◌,
  ◌≡◌, inr, le-sum_below, to_num, ℕ_discrete, ◌==◌, CtxError, if◌then◌else◌, inl, refl, some, true,
  sum_below_mono, ◌≢◌, ◌≤◌,
}
use go_concurrency_examples.Workers.Results.{
  Inv, Placed, going, is_open, on, IsOutcome, Flight, StartedBelow, StoppedAt, calling,
}
use go_concurrency_examples.Workers.{
  Pool, Worker, go_to, offering, running, stopped, testing, waiting, Error, Main, closing, finish,
  returned, executing, mark_unscheduled,
}

calling-on : (i : ℕ) (w : Worker) → calling i w ≤ on i w
calling-on i waiting = omega arith
calling-on i (running j) = omega arith
calling-on i (executing j) = omega arith
calling-on i stopped = omega arith

-- A worker that has called a task has its index.
pub callers_bound :
    (i : ℕ) (f : ℕ → Worker) (n : ℕ)
    → sum_below (λ k. calling i (f k)) n ≤ sum_below (λ k. on i (f k)) n
callers_bound i f n =
    sum_below_mono (λ k. calling i (f k)) (λ k. on i (f k)) n (λ k lt. calling-on i (f k))

module _ {E : Type 0} (tasks : ℕ → Option (Context → Option E)) (total : ℕ) where
  module _ {n id : ℕ} {p : Pool E} (inv : Inv tasks total n p) (lt : id < n) where
    sums :
        (w : Worker) (i : ℕ)
        → sum_below (λ k. on i (update p.workers id w k)) n + on i (p.workers id)
          ≡ sum_below (λ k. on i (p.workers k)) n + on i w
    sums w i = sum_below-update (λ _. on i) n p.workers id w lt

    callers :
        (w : Worker) (i : ℕ)
        → sum_below (λ k. calling i (update p.workers id w k)) n + calling i (p.workers id)
          ≡ sum_below (λ k. calling i (p.workers k)) n + calling i w
    callers w i = sum_below-update (λ _. calling i) n p.workers id w lt

    goings :
        (w : Worker)
        → sum_below (λ k. going (update p.workers id w k)) n + going (p.workers id)
          ≡ sum_below (λ k. going (p.workers k)) n + going w
    goings w = sum_below-update (λ _. going) n p.workers id w lt

    -- An offered index is taken.
    pub take-Inv :
        (i : ℕ)
        → p.workers id ≡ waiting
        → p.main ≡ offering i
        → Placed tasks total p (offering i)
        → Inv tasks total n (
            go_to id
              (running i)
              (record p { main = testing (suc i); starts = update p.starts i (suc (p.starts i)) }))
    unfolding go_to
    take-Inv i is at ((below, above), small, no_err) = record {
      placed = (
        (λ j h. ground (arith, below j, above i), λ j h. ground (arith, above j)),
        omega (arith, small),
        no_err,
      );
      flights = λ j. ground (
        arith,
        inv.flights j,
        above i,
        sums (running i) j,
        ap (on j) is,
        callers (running i) j,
        ap (calling j) is,
        callers_bound j p.workers n,
      );
      alive_counted = omega (arith, inv.alive_counted, goings (running i), ap going is);
      open_alive = λ o. inv.open_alive (ap is_open at);
      all_gone = λ gone. cc;
    }

    -- The channel is closed, and the worker returns.
    pub stop-Inv :
        p.workers id ≡ waiting
        → is_open p.main ≡ false
        → Inv tasks total n (go_to id stopped (record p { alive = p.alive - 1 }))
    unfolding go_to
    stop-Inv is over = record {
      placed = inv.placed;
      flights = λ j.
          let idle : sum_below (λ k. on j (update p.workers id stopped k)) n
              ≡ sum_below (λ k. on j (p.workers k)) n =
            omega (arith, sums stopped j, ap (on j) is) in
          let quiet : sum_below (λ k. calling j (update p.workers id stopped k)) n
              ≡ sum_below (λ k. calling j (p.workers k)) n =
            omega (arith, callers stopped j, ap (calling j) is) in
          rw (idle, quiet) (inv.flights j);
      alive_counted = omega (arith, inv.alive_counted, goings stopped, ap going is);
      open_alive = λ o. cc;
      all_gone = λ gone. omega (arith, inv.all_gone gone);
    }

    -- A task that a worker has was started once.
    started_once :
        (i : ℕ) (w : Worker)
        → p.workers id ≡ w
        → ((j : ℕ) → on j w ≡ to_num (i == j))
        → (p.starts i ≡ 1) × (sum_below (λ k. on i (p.workers k)) n ≡ 1)
    started_once i w is mine =
        ground (
          arith,
          inv.flights i,
          mine i,
          ap (on i) is,
          le-sum_below (λ k. on i (p.workers k)) n id lt,
        )

    runs_sum :
        (i : ℕ) (w : Worker)
        → p.workers id ≡ w
        → ((j : ℕ) → on j w ≡ to_num (i == j))
        → p.runs i ≡ sum_below (λ k. calling i (p.workers k)) n
    runs_sum i w is mine =
        let (started, one) = started_once i w is mine in ground (arith, inv.flights i, started, one)

    -- Its calls are those of the worker.
    runs_counted :
        (i : ℕ) (w : Worker)
        → p.workers id ≡ w
        → ((j : ℕ) → on j w ≡ to_num (i == j))
        → p.runs i ≡ calling i w
    runs_counted i w is mine =
        let (started, one) = started_once i w is mine in
        let gone : sum_below (λ k. calling i (update p.workers id waiting k)) n ≡ 0 = ground (
          arith,
          one,
          sums waiting i,
          ap (on i) is,
          mine i,
          callers_bound i (update p.workers id waiting) n,
        ) in
        let counted = callers waiting i in
        ground (arith, inv.flights i, started, one, gone, counted, ap (calling i) is)

    stop-result :
        (m i : ℕ) (r : Option (Error E))
        → p.starts i ≡ 1
        → StartedBelow tasks total p m
        → StoppedAt tasks total p m
        → StoppedAt tasks total (record p { results = update p.results i r }) m
    stop-result m i r started below (inl whole) = inl whole
    stop-result m i r started below (inr (err, at, over, marked)) =
        inr (err, at, over, λ j h small. ground (arith, below.1 i, started, marked j h small))

    Placed-result :
        (m : Main) (i : ℕ) (r : Option (Error E))
        → p.starts i ≡ 1
        → Placed tasks total p m
        → Placed tasks total (record p { results = update p.results i r }) m
    Placed-result (testing k) i r started h = h
    Placed-result (offering k) i r started h = h
    Placed-result closing i r started (m, below, stop) =
        (m, below, stop-result m i r started below stop)
    Placed-result returned i r started (m, below, stop) =
        (m, below, stop-result m i r started below stop)

    -- A worker stores the outcome of its task.
    pub finish-Inv :
        (i : ℕ) (w : Worker) (saw : ℕ → Context) (r : Option (Error E))
        → p.workers id ≡ w
        → going w ≡ 1
        → ((j : ℕ) → on j w ≡ to_num (i == j))
        → ((j : ℕ) → j ≢ i → saw j ≡ p.seen j)
        → IsOutcome (tasks i) (calling i w) (saw i) p.ctx r
        → Inv tasks total n (finish id i r (record p { seen = saw }))
    unfolding finish go_to
    finish-Inv i w saw r is live mine elsewhere outcome =
        let started = started_once i w is mine in
        record {
          placed = Placed-result p.main i r started.0 inv.placed;
          flights = λ j. elim (ℕ_discrete j i) [
            | yes e ↦ rw e (
                inr (
                  inr (
                    started.0,
                    ground (arith, started, sums waiting i, ap (on i) is, mine i),
                    rw (runs_counted i w is mine) (
                        subst (IsOutcome (tasks i) (calling i w) (saw i) p.ctx) (ground arith)
                          outcome),
                  )))
            | no ne ↦
                let same : (if i == j then r else p.results j) ≡ p.results j = ground (arith, ne) in
                let idle : sum_below (λ k. on j (update p.workers id waiting k)) n
                    ≡ sum_below (λ k. on j (p.workers k)) n =
                  ground (arith, ne, sums waiting j, ap (on j) is, mine j) in
                let quiet : sum_below (λ k. calling j (update p.workers id waiting k)) n
                    ≡ sum_below (λ k. calling j (p.workers k)) n =
                  ground
                    (arith, ne, callers waiting j, ap (calling j) is, mine j, calling-on j w) in
                rw (same, idle, quiet, elsewhere j ne) (inv.flights j)
          ];
          alive_counted = omega (arith, inv.alive_counted, goings waiting, ap going is, live);
          open_alive = inv.open_alive;
          all_gone = inv.all_gone;
        }

    -- A worker calls its task.
    pub execute-Inv :
        (i : ℕ)
        → p.workers id ≡ running i
        → Inv tasks total n
            (go_to id (executing i) (record p { runs = update p.runs i (suc (p.runs i)) }))
    unfolding go_to
    execute-Inv i is = record {
      placed = inv.placed;
      flights = λ j.
          let idle : sum_below (λ k. on j (update p.workers id (executing i) k)) n
              ≡ sum_below (λ k. on j (p.workers k)) n =
            omega (arith, sums (executing i) j, ap (on j) is) in
          elim (ℕ_discrete j i) [
            | yes e ↦ rw e (
                inr (
                  inl (
                    (started_once i (running i) is (λ j. refl)).0,
                    omega (
                      arith,
                      (started_once i (running i) is (λ j. refl)).1,
                      sums (executing i) i,
                      ap (on i) is,
                    ),
                    ground (
                      arith,
                      runs_sum i (running i) is (λ j. refl),
                      callers (executing i) i,
                      ap (calling i) is,
                    ),
                  )))
            | no ne ↦
                let same : (if i == j then suc (p.runs i) else p.runs j) ≡ p.runs j =
                  ground (arith, ne) in
                let quiet : sum_below (λ k. calling j (update p.workers id (executing i) k)) n
                    ≡ sum_below (λ k. calling j (p.workers k)) n =
                  ground (arith, ne, callers (executing i) j, ap (calling j) is) in
                rw (same, idle, quiet) (inv.flights j)
          ];
      alive_counted = omega (arith, inv.alive_counted, goings (executing i), ap going is);
      open_alive = inv.open_alive;
      all_gone = inv.all_gone;
    }

  module _ {n : ℕ} {p : Pool E} (inv : Inv tasks total n p) where
    marked-Flight :
        (i : ℕ) (err : CtxError)
        → StartedBelow tasks total p i
        → (j workers callers : ℕ) → Flight tasks total p j workers callers
        → Flight tasks total
            (record p {
              main = closing;
              results = mark_unscheduled total i err p.results;
              run_err = some err;
            })
            j
            workers
            callers
    unfolding mark_unscheduled
    marked-Flight i err below j workers callers (inl h) = inl h
    marked-Flight i err below j workers callers (inr (inl h)) = inr (inl h)
    marked-Flight i err below j workers callers (inr (inr (one, idle, out))) =
        let same : p.results j ≡ mark_unscheduled total i err p.results j =
          ground (arith, one, below.1 j) in
        inr (inr (one, idle, subst (IsOutcome (tasks j) (p.runs j) (p.seen j) p.ctx) same out))

    -- Scheduling stops with the error of the context.
    pub give_up-Inv :
        (i : ℕ) (err : CtxError)
        → p.ctx ≡ some err
        → is_open p.main ≡ true
        → StartedBelow tasks total p i
        → Inv tasks total n (record p {
          main = closing;
          results = mark_unscheduled total i err p.results;
          run_err = some err;
        })
    unfolding mark_unscheduled
    give_up-Inv i err over on_going below = record {
      placed = (i, below, inr (err, refl, over, λ j h small. ground (arith, h, small)));
      flights = λ j. marked-Flight i err below j _ _ (inv.flights j);
      alive_counted = inv.alive_counted;
      open_alive = λ o. cc;
      all_gone = λ gone. cc;
    }
