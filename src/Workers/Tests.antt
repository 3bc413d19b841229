-- ===== src/Workers/Tests.antt =====
-- Two workers and three tasks, of which the second is nil and the third fails.
use go_concurrency_examples.Base.Int.{pos}
use go_concurrency_examples.Base.{
  Context, List, Option, Ran, [], arith, execute, here, if◌then◌else◌, inl, ltb, none, refl, some,
  ℕ, ◌==◌, ◌∷◌, ◌≡◌, ◌⊎◌, canceled, next,
}
use go_concurrency_examples.Workers.Run.{CanStep, Settled, workers_progress, workers_results}
use go_concurrency_examples.Workers.{
  Choice, Pool, Step, act, finish, give_up, go_to, goroutine, initial, main_done, main_over,
  main_step, main_turn, nil_task, returned, start_task, take_index, task_error, task_result, work,
  worker, worker_count, observe, cancel, ctx_error,
}

abbrev tasks : ℕ → Option (Context → Option ℕ)
tasks i = if i == 0 then some (λ ctx. none) else (if i == 1 then none else some (λ ctx. some 5))

two_workers : worker_count (pos 2) 3 ≡ inl 2
unfolding worker_count
two_workers = refl

abbrev turn : Choice → Pool ℕ → Option (Pool ℕ)
turn main_turn p = act tasks 3 main_turn p
turn main_done p = act tasks 3 main_done p
turn (worker id) p = if ltb id 2 then act tasks 3 (worker id) p else none

turn-Step : (x : Choice) (p q : Pool ℕ) → turn x p ≡ some q → Step tasks 3 2 p q
turn-Step main_turn p q e = goroutine main_turn tt e
turn-Step main_done p q e = goroutine main_done tt e
turn-Step (worker id) p q e = goroutine (worker id) (ground arith) (ground arith)

abbrev play : List Choice → Ran (Step tasks 3 2) (initial 2 none)
play xs = execute turn turn-Step (record { last = initial 2 none; reach = here }) xs

abbrev whole : Ran (Step tasks 3 2) (initial 2 none)
whole = play (
    main_turn
    ∷ worker 0
    ∷ main_turn
    ∷ worker 1
    ∷ main_turn
    ∷ worker 1
    ∷ worker 1
    ∷ worker 0
    ∷ worker 1
    ∷ worker 1
    ∷ worker 0
    ∷ main_turn
    ∷ worker 0
    ∷ worker 1
    ∷ main_turn
    ∷ [])

whole_results :
    (whole.last.main ≡ returned)
    × (whole.last.results 0 ≡ none)
    × (whole.last.results 1 ≡ some nil_task)
    × (whole.last.results 2 ≡ some (task_error 5))
unfolding execute act initial observe work main_step main_over give_up take_index start_task finish
    go_to task_result
whole_results = (refl, refl, refl, refl)

workers_results_example : Settled tasks 3 whole.last 2
workers_results_example = workers_results tasks 3 none whole.reach whole_results.0 2 (omega arith)

-- While both workers have a task.
abbrev midway : Ran (Step tasks 3 2) (initial 2 none)
midway = play (main_turn ∷ worker 0 ∷ main_turn ∷ worker 1 ∷ main_turn ∷ [])

workers_progress_example : (midway.last.main ≡ returned) ⊎ CanStep tasks 3 2 midway.last
workers_progress_example = workers_progress tasks 3 (pos 2) none two_workers midway.reach

-- One worker and one task.
abbrev solo : Choice → Pool ℕ → Option (Pool ℕ)
solo main_turn p = act tasks 1 main_turn p
solo main_done p = act tasks 1 main_done p
solo (worker id) p = if ltb id 1 then act tasks 1 (worker id) p else none

solo-Step : (x : Choice) (p q : Pool ℕ) → solo x p ≡ some q → Step tasks 1 1 p q
solo-Step main_turn p q e = goroutine main_turn tt e
solo-Step main_done p q e = goroutine main_done tt e
solo-Step (worker id) p q e = goroutine (worker id) (ground arith) (ground arith)

abbrev handed_over : Ran (Step tasks 1 1) (initial 1 none)
handed_over =
    execute solo solo-Step (record { last = initial 1 none; reach = here })
      (main_turn ∷ worker 0 ∷ [])

handed_over_live : handed_over.last.ctx ≡ none
unfolding execute act initial observe work main_step take_index go_to
handed_over_live = refl

-- The context is canceled when the only index was handed over.
abbrev never_called : Ran (Step tasks 1 1) (initial 1 none)
never_called =
    execute solo solo-Step
      (record {
        last = record (handed_over.last) { ctx = some canceled };
        reach = next handed_over.reach (cancel canceled handed_over_live refl);
      })
      (worker 0 ∷ main_turn ∷ worker 0 ∷ main_turn ∷ [])

-- Run returns nil, and its task was never called.
never_called_results :
    (never_called.last.main ≡ returned)
    × (never_called.last.run_err ≡ none)
    × (never_called.last.runs 0 ≡ 0)
    × (never_called.last.results 0 ≡ some (ctx_error canceled))
unfolding execute act initial observe work main_step take_index start_task finish go_to
never_called_results = (refl, refl, refl, refl)
