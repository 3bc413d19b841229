-- ===== src/Limiter/Tests.antt =====
-- A burst of one and two goroutines, one of which stops the limiter.
use go_concurrency_examples.Base.{
  List, Option, Ran, [], arith, execute, here, if◌then◌else◌, ltb, none, refl, some, true, ◌+◌, ◌∷◌,
  ◌≡◌, ◌≤◌,
}
use go_concurrency_examples.Limiter.{
  Choice, Limiter, Step, act, act_turn, add_token, call_stop, end_refill, go_to, goroutine, halt,
  hear_tick, new_limiter, on_ctx, on_stopped, refill, settle, start_stop, start_try, start_wait,
  take, tick, turn, wait_select,
}
use go_concurrency_examples.Limiter.Supply.{holding}
use go_concurrency_examples.Limiter.Rate.{limiter_rate, limiter_stopped}

abbrev move : Choice → Limiter → Option Limiter
move (start_wait g ctx) l = if ltb g 2 then act 1 (start_wait g ctx) l else none
move (start_try g) l = if ltb g 2 then act 1 (start_try g) l else none
move (start_stop g) l = if ltb g 2 then act 1 (start_stop g) l else none
move (turn g) l = if ltb g 2 then act 1 (turn g) l else none
move (on_ctx g) l = if ltb g 2 then act 1 (on_ctx g) l else none
move (on_stopped g) l = if ltb g 2 then act 1 (on_stopped g) l else none
move (take g) l = if ltb g 2 then act 1 (take g) l else none
move tick l = act 1 tick l
move refill l = act 1 refill l
move halt l = act 1 halt l

move-Step : (x : Choice) (l m : Limiter) → move x l ≡ some m → Step 2 1 l m
move-Step (start_wait g ctx) l m e = goroutine (start_wait g ctx) (ground arith) (ground arith)
move-Step (start_try g) l m e = goroutine (start_try g) (ground arith) (ground arith)
move-Step (start_stop g) l m e = goroutine (start_stop g) (ground arith) (ground arith)
move-Step (turn g) l m e = goroutine (turn g) (ground arith) (ground arith)
move-Step (on_ctx g) l m e = goroutine (on_ctx g) (ground arith) (ground arith)
move-Step (on_stopped g) l m e = goroutine (on_stopped g) (ground arith) (ground arith)
move-Step (take g) l m e = goroutine (take g) (ground arith) (ground arith)
move-Step tick l m e = goroutine tick tt e
move-Step refill l m e = goroutine refill tt e
move-Step halt l m e = goroutine halt tt e

abbrev play : (l : Limiter) → List Choice → Ran (Step 2 1) l
play l xs = execute move move-Step (record { last = l; reach = here }) xs

-- One permit is granted, and a call of Wait finds no token.
abbrev starved : Ran (Step 2 1) (new_limiter 1)
starved =
    play (new_limiter 1) (start_try 0 ∷ turn 0 ∷ turn 0 ∷ turn 0 ∷ start_wait 0 none ∷ turn 0 ∷ [])

-- A tick gives it one.
abbrev served : Ran (Step 2 1) starved.last
served = play starved.last (tick ∷ refill ∷ take 0 ∷ turn 0 ∷ [])

-- A tick gives it one, but the limiter is stopped before it returns.
abbrev taking : Ran (Step 2 1) (new_limiter 1)
taking = play (new_limiter 1) (start_try 0 ∷ turn 0 ∷ turn 0 ∷ start_stop 1 ∷ [])

abbrev refused : Ran (Step 2 1) taking.last
refused = play taking.last (turn 0 ∷ turn 1 ∷ turn 1 ∷ start_try 0 ∷ turn 0 ∷ halt ∷ [])

served_state : (served.last.granted ≡ 2) × (served.last.ticks ≡ 1)
unfolding execute act new_limiter go_to act_turn settle add_token hear_tick
served_state = (refl, refl)

refused_state : (refused.last.granted ≡ 0) × (refused.last.dropped ≡ 1) × (taking.last.done ≡ true)
unfolding execute act new_limiter go_to act_turn settle call_stop end_refill
refused_state = (refl, refl, refl)

starved_waits : starved.last.calls 0 ≡ wait_select
unfolding execute act new_limiter go_to act_turn settle
starved_waits = refl

limiter_rate_example :
    (served.last.granted + starved.last.ticks
      ≤ starved.last.granted + holding 2 starved.last + 1 + served.last.ticks)
    × (served.last.tokens ≤ 1)
limiter_rate_example = limiter_rate 1 starved.reach served.reach

limiter_stopped_example : refused.last.granted ≡ taking.last.granted
limiter_stopped_example = limiter_stopped 1 taking.reach refused_state.2 refused.reach
