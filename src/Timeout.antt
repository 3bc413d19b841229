-- ===== src/Timeout.antt =====
-- examples/timeoutworker/worker.go. The work is a parameter: what it returns, given whether its context
-- is done by then. That the timeout expires is a cancellation of the context.
mod Results
mod Tests
use go_concurrency_examples.Base.{
  Context, CtxError, Option, canceled, if◌then◌else◌, inl, inr, none, some, ◌≡◌, ◌⊎◌,
}
use go_concurrency_examples.Base.Int.{leb_ℤ, pos, ℤ}

pub data Error (E : Type 0) : Type 0 where
  nil_work : Error E
  timeout_not_positive : ℤ → Error E
  ctx_error : CtxError → Error E
  work_error : E → Error E

-- The goroutine that Run starts: in the work, before its send, and after it.
pub data Worker (V E : Type 0) : Type 0 where
  working : Worker V E
  sending : V × Option E → Worker V E
  ended : Worker V E

-- Run, in its select and after its return.
pub data Main : Type 0 where
  waiting : Main
  returned : Main

-- `done` is what that channel holds, and `answer` what Run returned. For the statements, `seen` is the
-- context that Run derived as it was when the work returned.
pub record Run (V E : Type 0) : Type 0 where
  pub ctx : Context
  pub main : Main
  pub worker : Worker V E
  pub done : Option (V × Option E)
  pub answer : Option (V × Option (Error E))
  pub seen : Option Context

-- The goroutine goes on, and the cases of the select of Run.
pub data Choice : Type 0 where
  worker_turn receive on_ctx : Choice

-- The deferred call of `cancel`.
abbrev pub cancel_ctx : Context → Context
cancel_ctx none = some canceled
cancel_ctx (some e) = some e

module _ {V E : Type 0} where
  pub initial : Context → Run V E
  initial ctx = record {
    ctx = ctx;
    main = waiting;
    worker = working;
    done = none;
    answer = none;
    seen = none;
  }

  -- Run up to its select, for a timeout that does not expire before that.
  pub start : Option (Context → V × Option E) → ℤ → Context → Run V E ⊎ Error E
  unfolding initial
  start none timeout ctx = inr nil_work
  start (some work) timeout ctx =
      if leb_ℤ timeout (pos 0) then inr (timeout_not_positive timeout) else inl (initial ctx)

  pub answer_of : V × Option E → V × Option (Error E)
  answer_of (value, none) = (value, none)
  answer_of (value, some err) = (value, some (work_error err))

  pub send_result : V × Option E → Option (V × Option E) → Run V E → Option (Run V E)
  send_result r none s = some (record s { done = some r; worker = ended })
  send_result r (some q) s = none

  pub go_on : (Context → V × Option E) → Worker V E → Run V E → Option (Run V E)
  unfolding send_result
  go_on work working s = some (record s { worker = sending (work s.ctx) })
  go_on work (sending r) s = send_result r s.done s
  go_on work ended s = none

  pub take_result : Main → Option (V × Option E) → Run V E → Option (Run V E)
  unfolding answer_of
  take_result waiting (some r) s = some (record s {
    ctx = cancel_ctx s.ctx;
    main = returned;
    done = none;
    answer = some (answer_of r);
  })
  take_result waiting none s = none
  take_result returned r s = none

  pub give_up : V → Main → Context → Run V E → Option (Run V E)
  give_up zero_value waiting (some e) s =
      some (record s { main = returned; answer = some (zero_value, some (ctx_error e)) })
  give_up zero_value waiting none s = none
  give_up zero_value returned c s = none

  -- The record of the context when the work returns.
  pub observe : Worker V E → Run V E → Run V E
  observe working s = record s { seen = some s.ctx }
  observe (sending r) s = s
  observe ended s = s

  pub act : V → (Context → V × Option E) → Choice → Run V E → Option (Run V E)
  unfolding go_on take_result give_up observe
  act zero_value work worker_turn s = go_on work s.worker (observe s.worker s)
  act zero_value work receive s = take_result s.main s.done s
  act zero_value work on_ctx s = give_up zero_value s.main s.ctx s

pub data Step {V E : Type 0} (zero_value : V) (work : Context → V × Option E) (s t : Run V E)
    : Type 0 where
  goroutine : (x : Choice) → act zero_value work x s ≡ some t → Step zero_value work s t
  cancel : (e : CtxError) → s.ctx ≡ none → record s { ctx = some e } ≡ t → Step zero_value work s t
