-- ===== src/Workers.antt =====
-- examples/workerpool/pool.go. The tasks are a parameter: for an index, what the task returns, nil or
-- an error, given whether its context is done by then; `none` is a nil task.
mod Results
mod Turns
mod Complete
mod Run
mod Tests
use go_concurrency_examples.Base.Int.{ℤ, pos, leb_ℤ, pos_part}
use go_concurrency_examples.Base.{
  Context, CtxError, Option, if◌then◌else◌, inl, inr, is_some, leb, ltb, none, some, suc, update, ℕ,
  ◌&&◌, ◌-◌, ◌<◌, ◌==◌, ◌≡◌, ◌⊎◌,
}

pub data Error (E : Type 0) : Type 0 where
  nil_task : Error E
  ctx_error : CtxError → Error E
  task_error : E → Error E

-- A worker: waiting for an index, at the start of `runTask` with one, in the task itself, and after
-- its return.
pub data Worker : Type 0 where
  waiting : Worker
  running : ℕ → Worker
  executing : ℕ → Worker
  stopped : Worker

-- `Run`: before the test of `ctx.Err` for a task, in the select of its jobs channel, in `wg.Wait`
-- after the close of it, and after its return.
pub data Main : Type 0 where
  testing : ℕ → Main
  offering : ℕ → Main
  closing : Main
  returned : Main

-- `results i` is the result at index `i`, `alive` the wait group. For the statements, `starts` records
-- how often a worker took an index, `runs` how often `runTask` called its task, and `seen` the context
-- as it was when the task returned.
pub record Pool (E : Type 0) : Type 0 where
  pub ctx : Context
  pub main : Main
  pub workers : ℕ → Worker
  pub alive : ℕ
  pub results : ℕ → Option (Error E)
  pub run_err : Option CtxError
  pub starts : ℕ → ℕ
  pub runs : ℕ → ℕ
  pub seen : ℕ → Context

pub data Argument : Type 0 where
  workers_not_positive : ℤ → Argument

pub data Choice : Type 0 where
  main_turn main_done : Choice
  worker : ℕ → Choice

-- The number of workers that `Run` starts.
pub worker_count : ℤ → ℕ → ℕ ⊎ Argument
worker_count workers tasks =
    if leb_ℤ workers (pos 0)
    then inr (workers_not_positive workers)
    else inl (if ltb tasks (pos_part workers) then tasks else pos_part workers)

module _ {E : Type 0} where
  -- What `runTask` returns once it has called the task.
  pub task_result : Option (Context → Option E) → Context → Option (Error E)
  task_result none ctx = some nil_task
  task_result (some task) ctx = elim (task ctx) [ none ↦ none | some err ↦ some (task_error err) ]

  -- The results from `start` on, below `total`, are the error.
  pub mark_unscheduled : ℕ → ℕ → CtxError → (ℕ → Option (Error E)) → ℕ → Option (Error E)
  mark_unscheduled total start err results i =
      if leb start i && ltb i total then some (ctx_error err) else results i

  pub go_to : ℕ → Worker → Pool E → Pool E
  go_to id w p = record p { workers = update p.workers id w }

  -- Scheduling stops at an index with the error of the context.
  pub give_up : ℕ → ℕ → Context → Pool E → Option (Pool E)
  unfolding mark_unscheduled
  give_up total i none p = none
  give_up total i (some err) p = some (record p {
    main = closing;
    results = mark_unscheduled total i err p.results;
    run_err = some err;
  })

  -- The top of the loop over the tasks, and the return once the workers have stopped.
  pub main_step : ℕ → Main → Pool E → Option (Pool E)
  unfolding give_up
  main_step total (testing i) p =
      if leb total i
      then some (record p { main = closing })
      else if is_some p.ctx
      then give_up total i p.ctx p
      else some (record p { main = offering i })
  main_step total (offering i) p = none
  main_step total closing p = if p.alive == 0 then some (record p { main = returned }) else none
  main_step total returned p = none

  -- The case `<-ctx.Done()` of the select.
  pub main_over : ℕ → Main → Pool E → Option (Pool E)
  unfolding give_up
  main_over total (offering i) p = give_up total i p.ctx p
  main_over total (testing i) p = none
  main_over total closing p = none
  main_over total returned p = none

  -- A waiting worker takes the index that is offered, or finds the channel closed.
  pub take_index : ℕ → Main → Pool E → Option (Pool E)
  unfolding go_to
  take_index id (testing i) p = none
  take_index id (offering i) p = some (
      go_to id (running i)
        (record p { main = testing (suc i); starts = update p.starts i (suc (p.starts i)) }))
  take_index id closing p = some (go_to id stopped (record p { alive = p.alive - 1 }))
  take_index id returned p = some (go_to id stopped (record p { alive = p.alive - 1 }))

  -- `runTask` returns, and its result is stored.
  pub finish : ℕ → ℕ → Option (Error E) → Pool E → Pool E
  unfolding go_to
  finish id i result p = go_to id waiting (record p { results = update p.results i result })

  -- `runTask` up to the call of the task.
  pub start_task : ℕ → ℕ → Context → Option (Context → Option E) → Pool E → Pool E
  unfolding finish go_to
  start_task id i (some err) task p = finish id i (some (ctx_error err)) p
  start_task id i none none p = finish id i (some nil_task) p
  start_task id i none (some task) p =
      go_to id (executing i) (record p { runs = update p.runs i (suc (p.runs i)) })

  -- The record of the context when a task returns.
  pub observe : Worker → Pool E → Pool E
  observe (executing i) p = record p { seen = update p.seen i p.ctx }
  observe waiting p = p
  observe (running i) p = p
  observe stopped p = p

module _ {E : Type 0} (tasks : ℕ → Option (Context → Option E)) (total : ℕ) where
  pub work : ℕ → Worker → Pool E → Option (Pool E)
  unfolding take_index start_task finish task_result
  work id waiting p = take_index id p.main p
  work id (running i) p = some (start_task id i p.ctx (tasks i) p)
  work id (executing i) p = some (finish id i (task_result (tasks i) p.ctx) p)
  work id stopped p = none

  pub act : Choice → Pool E → Option (Pool E)
  unfolding work main_step main_over observe
  act main_turn p = main_step total p.main p
  act main_done p = main_over total p.main p
  act (worker id) p = work id (p.workers id) (observe (p.workers id) p)

abbrev pub IsChoice : ℕ → Choice → Type 0
IsChoice n (worker id) = id < n
IsChoice n main_turn = Unit {0}
IsChoice n main_done = Unit {0}

pub data Step {E : Type 0} (tasks : ℕ → Option (Context → Option E)) (total n : ℕ) (p q : Pool E)
    : Type 0 where
  goroutine : (x : Choice) → IsChoice n x → act tasks total x p ≡ some q → Step tasks total n p q
  cancel : (e : CtxError) → p.ctx ≡ none → record p { ctx = some e } ≡ q → Step tasks total n p q

pub initial : {E : Type 0} → ℕ → Context → Pool E
initial n ctx = record {
  ctx = ctx;
  main = testing 0;
  workers = λ _. waiting;
  alive = n;
  results = λ _. none;
  run_err = none;
  starts = λ _. 0;
  runs = λ _. 0;
  seen = λ _. none;
}
