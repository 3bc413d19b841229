-- ===== src/Workers/Run.antt =====
-- What Run of examples/workerpool returns, and that it does.
use mathlib.Core.Path.{subst}
use go_concurrency_examples.Base.{
  Context, CtxError, Option, Reach, Reach-inv, arith, inl, inr, none, refl, some, sum_below,
  sum_below-const, sum_below-zero, sum_below_mono, to_num-le_one, ℕ, ◌<◌, ◌≡◌, ◌≤◌, ◌⊎◌, ap, dec_lt,
  is_some, suc, sum_below_pos, true, zero,
}
use go_concurrency_examples.Workers.Results.{
  Flight, IsOutcome, Placed, StartedBelow, StoppedAt, going, on, is_open, calling,
}
use go_concurrency_examples.Workers.Complete.{Good, main_over-Good, main_step-Good, work-Good}
use go_concurrency_examples.Workers.{
  Main, Pool, Step, Worker, act, cancel, closing, ctx_error, executing, goroutine, initial,
  main_done, main_turn, offering, returned, running, stopped, testing, waiting, worker, Choice,
  IsChoice, give_up, main_step, take_index, work, worker_count, observe,
}
use go_concurrency_examples.Base.Int.{negsuc, pos, ℤ}

going-on : (i : ℕ) (w : Worker) → on i w ≤ going w
going-on i waiting = omega arith
going-on i (running j) = to_num-le_one _
going-on i (executing j) = to_num-le_one _
going-on i stopped = omega arith

-- Run starts a worker unless there is no task.
enough : (workers : ℤ) (total n : ℕ) → worker_count workers total ≡ inl n → (0 < n) ⊎ (total ≡ 0)
unfolding worker_count
enough (pos zero) total n made = ground (arith, made)
enough (pos (suc w)) zero n made = inr refl
enough (pos (suc w)) (suc total) n made = inl (ground (arith, made))
enough (negsuc w) total n made = ground (arith, made)

module _ {E : Type 0} (tasks : ℕ → Option (Context → Option E)) (total : ℕ) where
  canceled-stop :
      (p : Pool E) (err : CtxError) (m : ℕ)
      → p.ctx ≡ none
      → StoppedAt tasks total p m
      → StoppedAt tasks total (record p { ctx = some err }) m
  canceled-stop p err m free (inl whole) = inl whole
  canceled-stop p err m free (inr (e, at, over, marked)) = cc

  canceled-Placed :
      (p : Pool E) (err : CtxError) (m : Main)
      → p.ctx ≡ none
      → Placed tasks total p m
      → Placed tasks total (record p { ctx = some err }) m
  canceled-Placed p err (testing i) free h = h
  canceled-Placed p err (offering i) free h = h
  canceled-Placed p err closing free (m, below, stop) = (m, below, canceled-stop p err m free stop)
  canceled-Placed p err returned free (m, below, stop) = (m, below, canceled-stop p err m free stop)

  canceled-Flight :
      (p : Pool E) (err : CtxError) (i workers callers : ℕ)
      → p.ctx ≡ none
      → Flight tasks total p i workers callers
      → Flight tasks total (record p { ctx = some err }) i workers callers
  canceled-Flight p err i workers callers free (inl h) = inl h
  canceled-Flight p err i workers callers free (inr (inl h)) = inr (inl h)
  canceled-Flight p err i workers callers free (inr (inr (one, idle, inl ran))) =
      inr (inr (one, idle, inl ran))
  canceled-Flight p err i workers callers free (inr (inr (one, idle, inr (inl empty)))) =
      inr (inr (one, idle, inr (inl empty)))
  canceled-Flight p err i workers callers free
        (inr (inr (one, idle, inr (inr (no_call, (e, over, r)))))) =
      cc

  Step-Good :
      {n : ℕ} (p q : Pool E) → Step tasks total n p q → Good tasks total n p → Good tasks total n q
  unfolding act
  Step-Good p q (goroutine main_turn ok e) inv =
      main_step-Good tasks total inv p.main refl inv.placed e
  Step-Good p q (goroutine main_done ok e) inv =
      main_over-Good tasks total inv p.main refl inv.placed e
  Step-Good p q (goroutine (worker id) lt e) inv =
      work-Good tasks total inv lt (p.workers id) refl e
  Step-Good {n} p q (cancel err free e) inv = subst (Good tasks total n) e (record {
    placed = canceled-Placed p err p.main free inv.placed;
    flights = λ i. canceled-Flight p err i _ _ free (inv.flights i);
    alive_counted = inv.alive_counted;
    open_alive = inv.open_alive;
    all_gone = inv.all_gone;
  })

  initial-Good : (n : ℕ) (ctx : Context) → Good tasks total n (initial n ctx)
  unfolding initial
  initial-Good n ctx = record {
    placed = ((λ i h. absurd (omega arith), λ i h. refl), omega arith, refl);
    flights = λ i. inl (refl, refl, sum_below-zero n);
    alive_counted = omega (arith, sum_below-const 1 n);
    open_alive = λ o. refl;
    all_gone = λ gone. cc;
  }

  Reach-Good :
      {n : ℕ} {p : Pool E} (ctx : Context)
      → Reach (Step tasks total n) (initial n ctx) p
      → Good tasks total n p
  Reach-Good {n} ctx r =
      Reach-inv (Good tasks total n) (λ p q st. Step-Good p q st) (initial-Good n ctx) r

  -- What Run returns for a task. If a worker took its index: what the task returned from its one call,
  -- given the context as it was then, or, without a call, the error of a nil task or that of the
  -- context. Else: the error of the context that Run itself returns.
  abbrev pub Settled : Pool E → ℕ → Type 0
  Settled p i =
      ((p.starts i ≡ 1) × IsOutcome (tasks i) (p.runs i) (p.seen i) p.ctx (p.results i))
      ⊎ ((p.starts i ≡ 0)
          × (p.runs i ≡ 0)
          × ((err : CtxError) × (p.run_err ≡ some err)
              × (p.ctx ≡ some err)
              × (p.results i ≡ some (ctx_error err))))

  Settled-at :
      (p : Pool E) (m i callers : ℕ)
      → StartedBelow tasks total p m
      → StoppedAt tasks total p m
      → Flight tasks total p i 0 callers
      → i < total
      → Settled p i
  Settled-at p m i callers below (inl (all, no_err)) (inl (zero_starts, zero_runs, idle)) lt =
      absurd (omega (arith, below.0 i))
  Settled-at p m i callers below (inr (err, at, over, marked)) (inl (zero_starts, zero_runs, idle))
        lt =
      inr (zero_starts, zero_runs, (err, at, over, ground (arith, below.0 i, marked i)))
  Settled-at p m i callers below stop (inr (inl (one, busy, counted))) lt =
      absurd (omega (arith, busy))
  Settled-at p m i callers below stop (inr (inr (one, idle, out))) lt = inl (one, out)

  returned-stop :
      (p : Pool E) (m : Main)
      → m ≡ returned
      → Placed tasks total p m
      → (k : ℕ) × StartedBelow tasks total p k × StoppedAt tasks total p k
  returned-stop p (testing i) is h = cc
  returned-stop p (offering i) is h = cc
  returned-stop p closing is h = h
  returned-stop p returned is h = h

  -- When Run has returned, in any reachable state, with any number of workers and cancellation at
  -- any time, for each task: a worker took its index once and called the task once, and the result is
  -- what the task returned given the context as it was then; or a worker took its index and did not
  -- call it, and the result is the error of a nil task, which it is, or of the context, which is done;
  -- or no worker took its index, the result is the error of the context, which is done, and Run
  -- returns that error.
  pub workers_results :
      {n : ℕ} {p : Pool E} (ctx : Context)
      → Reach (Step tasks total n) (initial n ctx) p
      → p.main ≡ returned
      → (i : ℕ) → i < total
      → Settled p i
  workers_results {n} {p} ctx r gone i lt =
      let inv = Reach-Good ctx r in
      let (m, below, stop) = returned-stop p p.main gone inv.placed in
      let none_on : sum_below (λ k. on i (p.workers k)) n ≡ 0 = omega (
        arith,
        inv.all_gone gone,
        inv.alive_counted,
        sum_below_mono (λ k. on i (p.workers k)) (λ k. going (p.workers k)) n
            (λ k q. going-on i (p.workers k)),
      ) in
      Settled-at p m i _ below stop
        (subst (λ c. Flight tasks total p i c (sum_below (λ k. calling i (p.workers k)) n)) none_on
          (inv.flights i))
        lt

  -- Some goroutine can take a step.
  abbrev pub CanStep : ℕ → Pool E → Type 0
  CanStep n p = (x : Choice) × IsChoice n x × (is_some (act tasks total x p) ≡ true)

  worker-steps :
      (n id : ℕ) (p : Pool E) (w : Worker)
      → id < n
      → p.workers id ≡ w
      → 0 < going w
      → (i : ℕ) → (p.main ≡ offering i) ⊎ (p.main ≡ closing)
      → CanStep n p
  unfolding act work take_index observe
  worker-steps n id p waiting lt is live i (inl at) = (worker id, lt, ground (arith, is, at))
  worker-steps n id p waiting lt is live i (inr at) = (worker id, lt, ground (arith, is, at))
  worker-steps n id p (running j) lt is live i why = (worker id, lt, ground (arith, is))
  worker-steps n id p (executing j) lt is live i why = (worker id, lt, ground (arith, is))
  worker-steps n id p stopped lt is live i why = absurd (omega arith)

  main-steps :
      {n : ℕ} {p : Pool E} (m : Main)
      → Good tasks total n p
      → p.main ≡ m
      → 0 < n ⊎ (total ≡ 0)
      → Placed tasks total p m
      → (m ≡ returned) ⊎ CanStep n p
  unfolding act main_step give_up
  main-steps (testing i) inv is some_workers h = inr (main_turn, tt, ground (arith, is))
  main-steps {n} {p} (offering i) inv is some_workers (below, small, no_err) =
      let (id, lt, live) =
        sum_below_pos (λ k. going (p.workers k)) n
          (ground
            (arith, inv.alive_counted, inv.open_alive (ap is_open is), some_workers, small)) in
      inr (worker-steps n id p (p.workers id) lt refl live i (inl is))
  main-steps {n} {p} closing inv is some_workers h = elim (dec_lt 0 p.alive) [
    | yes more ↦
        let (id, lt, live) =
          sum_below_pos (λ k. going (p.workers k)) n (omega (arith, inv.alive_counted)) in
        inr (worker-steps n id p (p.workers id) lt refl live 0 (inr is))
    | no over ↦ inr (main_turn, tt, ground (arith, is))
  ]
  main-steps returned inv is some_workers h = inl refl

  -- With the workers that Run starts for a valid number of them, in every reachable state Run has
  -- returned or a goroutine can take a step: Run never deadlocks, canceled or not.
  pub workers_progress :
      {n : ℕ} {p : Pool E} (workers : ℤ) (ctx : Context)
      → worker_count workers total ≡ inl n
      → Reach (Step tasks total n) (initial n ctx) p
      → (p.main ≡ returned) ⊎ CanStep n p
  workers_progress {n} {p} workers ctx made r =
      let inv = Reach-Good ctx r in
      main-steps p.main inv refl (enough workers total n made) inv.placed
