-- ===== src/Workers/Results.antt =====
-- The results of examples/workerpool: what a worker stored for the index that it took, or the error of
-- the context.
use go_concurrency_examples.Base.{
  Bool, Context, CtxError, Option, false, none, some, sum_below, to_num, true, ℕ, ◌<◌, ◌==◌, ◌≡◌,
  ◌≤◌, ◌⊎◌,
}
use go_concurrency_examples.Workers.{
  Error, Main, Pool, Worker, closing, ctx_error, executing, offering, returned, running, stopped,
  task_result, testing, waiting, nil_task,
}

-- 1 for a worker with this index, and for one that has not returned.
abbrev pub on : ℕ → Worker → ℕ
on i waiting = 0
on i (running j) = to_num (j == i)
on i (executing j) = to_num (j == i)
on i stopped = 0

abbrev pub going : Worker → ℕ
going stopped = 0
going _ = 1

-- Whether indices may still be sent to the workers.
abbrev pub is_open : Main → Bool
is_open (testing i) = true
is_open (offering i) = true
is_open closing = false
is_open returned = false

-- How the task of a worker that took its index has ended, with its number of calls, the context when it
-- returned, that of Run, and its result: `runTask` called the task once, or the task is nil, or the
-- context was done before the call.
abbrev pub IsOutcome :
    {E : Type 0} → Option (Context → Option E) → ℕ → Context → Context → Option (Error E) → Type 0
IsOutcome task calls seen ctx r =
    ((calls ≡ 1) × (r ≡ task_result task seen))
    ⊎ ((calls ≡ 0) × (task ≡ none) × (r ≡ some nil_task))
    ⊎ ((calls ≡ 0) × ((err : CtxError) × (ctx ≡ some err) × (r ≡ some (ctx_error err))))

-- 1 for a worker that has called the task with this index.
abbrev pub calling : ℕ → Worker → ℕ
calling i waiting = 0
calling i (running j) = 0
calling i (executing j) = to_num (j == i)
calling i stopped = 0

module _ {E : Type 0} (tasks : ℕ → Option (Context → Option E)) (total : ℕ) where
  -- The scheduling stopped at index `m`: with all tasks, or with the error of the context.
  abbrev pub StoppedAt : Pool E → ℕ → Type 0
  StoppedAt p m =
      ((m ≡ total) × (p.run_err ≡ none))
      ⊎ ((err : CtxError) × (p.run_err ≡ some err)
          × (p.ctx ≡ some err)
          × ((i : ℕ) → m ≤ i → i < total → p.results i ≡ some (ctx_error err)))

  abbrev pub StartedBelow : Pool E → ℕ → Type 0
  StartedBelow p m = ((i : ℕ) → i < m → p.starts i ≡ 1) × ((i : ℕ) → m ≤ i → p.starts i ≡ 0)

  abbrev pub Placed : Pool E → Main → Type 0
  Placed p (testing i) = StartedBelow p i × (i ≤ total) × (p.run_err ≡ none)
  Placed p (offering i) = StartedBelow p i × (i < total) × (p.run_err ≡ none)
  Placed p closing = (m : ℕ) × StartedBelow p m × StoppedAt p m
  Placed p returned = (m : ℕ) × StartedBelow p m × StoppedAt p m

  -- Whether the task has not started, is with a worker, or has its result; `workers` have it, and
  -- `callers` of these have called it.
  abbrev pub Flight : Pool E → ℕ → ℕ → ℕ → Type 0
  Flight p i workers callers =
      ((p.starts i ≡ 0) × (p.runs i ≡ 0) × (workers ≡ 0))
      ⊎ ((p.starts i ≡ 1) × (workers ≡ 1) × (p.runs i ≡ callers))
      ⊎ ((p.starts i ≡ 1)
          × (workers ≡ 0)
          × IsOutcome (tasks i) (p.runs i) (p.seen i) p.ctx (p.results i))

  pub record Inv (n : ℕ) (p : Pool E) : Type 0 where
    pub placed : Placed p p.main
    pub flights :
        (i : ℕ)
        → Flight p i
            (sum_below (λ k. on i (p.workers k)) n)
            (sum_below (λ k. calling i (p.workers k)) n)
    pub alive_counted : p.alive ≡ sum_below (λ k. going (p.workers k)) n
    pub open_alive : is_open p.main ≡ true → p.alive ≡ n
    pub all_gone : p.main ≡ returned → p.alive ≡ 0
