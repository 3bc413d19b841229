-- ===== src/Workers/Complete.antt =====
-- What the results of examples/workerpool are when Run returns, and that it returns.
use mathlib.Core.Path.{subst}
use go_concurrency_examples.Base.{
  Bool-cases, Context, Option, ap, arith, inl, inr, is_some, leb, none, refl, some, true, ℕ, ◌<◌,
  ◌≡◌, update,
}
use go_concurrency_examples.Workers.Results.{Inv, Placed, StartedBelow, is_open}
use go_concurrency_examples.Workers.{
  Main, Pool, Worker, closing, ctx_error, executing, give_up, main_over, main_step, nil_task,
  offering, returned, running, start_task, stopped, take_index, task_result, testing, waiting, work,
  observe,
}
use go_concurrency_examples.Workers.Turns.{execute-Inv, finish-Inv, give_up-Inv, stop-Inv, take-Inv}

module _ {E : Type 0} (tasks : ℕ → Option (Context → Option E)) (total : ℕ) where
  abbrev pub Good : ℕ → Pool E → Type 0
  Good n p = Inv tasks total n p

  module _ {n : ℕ} {p q : Pool E} (inv : Good n p) where
    gave_up-Good :
        (i : ℕ) (ctx : Context)
        → p.ctx ≡ ctx
        → is_open p.main ≡ true
        → StartedBelow tasks total p i
        → give_up total i ctx p ≡ some q
        → Good n q
    unfolding give_up
    gave_up-Good i none is on_going below e = ground (arith, e)
    gave_up-Good i (some err) is on_going below e =
        subst (Good n) (ground (arith, e)) (give_up-Inv tasks total inv i err is on_going below)

    moved-Good :
        (m : Main)
        → Placed tasks total p m
        → (is_open m ≡ true → is_open p.main ≡ true)
        → (m ≡ returned → p.alive ≡ 0)
        → record p { main = m } ≡ q
        → Good n q
    moved-Good m h o gone e = subst (Good n) e (record {
      placed = h;
      flights = inv.flights;
      alive_counted = inv.alive_counted;
      open_alive = λ on_going. inv.open_alive (o on_going);
      all_gone = gone;
    })

    pub main_step-Good :
        (m : Main) → p.main ≡ m → Placed tasks total p m → main_step total m p ≡ some q → Good n q
    unfolding main_step
    main_step-Good (testing i) is (below, le, no_err) e = elim (Bool-cases (leb total i)) [
      | inl end_of_loop ↦
          moved-Good closing (i, below, inl (ground (arith, end_of_loop, le), no_err)) (λ o. cc)
            (λ gone. cc) (ground (arith, end_of_loop, e))
      | inr more ↦ elim (Bool-cases (is_some p.ctx)) [
        | inl over ↦ gave_up-Good i p.ctx refl (ap is_open is) below (ground (arith, more, over, e))
        | inr free ↦
            moved-Good (offering i) (below, ground (arith, more), no_err) (λ o. ap is_open is)
              (λ gone. cc) (ground (arith, more, free, e))
      ]
    ]
    main_step-Good (offering i) is h e = ground (arith, e)
    main_step-Good closing is h e =
        moved-Good returned h (λ o. cc) (λ gone. ground (arith, e)) (ground (arith, e))
    main_step-Good returned is h e = ground (arith, e)

    pub main_over-Good :
        (m : Main) → p.main ≡ m → Placed tasks total p m → main_over total m p ≡ some q → Good n q
    unfolding main_over
    main_over-Good (offering i) is (below, small, no_err) e =
        gave_up-Good i p.ctx refl (ap is_open is) below e
    main_over-Good (testing i) is h e = ground (arith, e)
    main_over-Good closing is h e = ground (arith, e)
    main_over-Good returned is h e = ground (arith, e)

  module _ {n id : ℕ} {p q : Pool E} (inv : Good n p) (lt : id < n) where
    take_index-Good :
        (m : Main)
        → p.main ≡ m
        → p.workers id ≡ waiting
        → Placed tasks total p m
        → take_index id m p ≡ some q
        → Good n q
    unfolding take_index
    take_index-Good (testing i) at is h e = ground (arith, e)
    take_index-Good (offering i) at is h e =
        subst (Good n) (ground (arith, e)) (take-Inv tasks total inv lt i is at h)
    take_index-Good closing at is h e =
        subst (Good n) (ground (arith, e)) (stop-Inv tasks total inv lt is (ap is_open at))
    take_index-Good returned at is h e =
        subst (Good n) (ground (arith, e)) (stop-Inv tasks total inv lt is (ap is_open at))

    start_task-Good :
        (i : ℕ) (ctx : Context) (task : Option (Context → Option E))
        → p.workers id ≡ running i
        → p.ctx ≡ ctx
        → tasks i ≡ task
        → start_task id i ctx task p ≡ q
        → Good n q
    unfolding start_task task_result
    start_task-Good i (some err) task is at t e = subst (Good n) e (
        finish-Inv tasks total inv lt i (running i) p.seen (some (ctx_error err)) is refl
          (λ j. refl) (λ j ne. refl) (inr (inr (refl, (err, at, refl)))))
    start_task-Good i none none is at t e = subst (Good n) e (
        finish-Inv tasks total inv lt i (running i) p.seen (some nil_task) is refl (λ j. refl)
          (λ j ne. refl) (inr (inl (refl, t, refl))))
    start_task-Good i none (some task) is at t e =
        subst (Good n) e (execute-Inv tasks total inv lt i is)

    pub work-Good :
        (w : Worker) → p.workers id ≡ w → work tasks total id w (observe w p) ≡ some q → Good n q
    unfolding work observe
    work-Good waiting is e = take_index-Good p.main refl is inv.placed e
    work-Good (running i) is e = start_task-Good i p.ctx (tasks i) is refl refl (ground (arith, e))
    work-Good (executing i) is e = subst (Good n) (ground (arith, e)) (
        finish-Inv tasks total inv lt i (executing i) (update p.seen i p.ctx)
          (task_result (tasks i) p.ctx) is refl (λ j. refl) (λ j ne. ground (arith, ne))
          (inl (ground arith, ground arith)))
    work-Good stopped is e = ground (arith, e)
