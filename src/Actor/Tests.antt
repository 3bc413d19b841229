-- ===== src/Actor/Tests.antt =====
-- Two goroutines: one adds, reads and adds again, the other closes the counter.
use go_concurrency_examples.Base.{
  List, Option, Ran, [], arith, execute, here, if◌then◌else◌, ltb, none, refl, some, ◌++◌, ◌∷◌, ◌≡◌,
  ℕ,
}
use go_concurrency_examples.Actor.{
  Actor, Choice, Step, act, add, apply, awaiting, call, call_operation, close, end_close, ended,
  finish_close, goroutine, halt, hand, hand_command, is_ended, lose, lose_reply, new_counter,
  once_do, reject, reply_to, run_turn, start_close, stop_run, take, take_reply, turn,
}
use go_concurrency_examples.Actor.Replies.{CanStep, actor_answers, actor_progress}
use go_concurrency_examples.Actor.Answers.{IsHistory, Matches, applied_for, pending}
use go_concurrency_examples.Base.Int.{add64, pos, wrap, ◌+ℤ◌}

abbrev move : Choice → Actor → Option Actor
move (call g op) a = if ltb g 2 then act (call g op) a else none
move (close g) a = if ltb g 2 then act (close g) a else none
move (hand g) a = if ltb g 2 then act (hand g) a else none
move (reject g) a = if ltb g 2 then act (reject g) a else none
move (take g) a = if ltb g 2 then act (take g) a else none
move (lose g) a = if ltb g 2 then act (lose g) a else none
move (end_close g) a = if ltb g 2 then act (end_close g) a else none
move run_turn a = act run_turn a
move halt a = act halt a

move-Step : (x : Choice) (a b : Actor) → move x a ≡ some b → Step 2 a b
move-Step (call g op) a b e = goroutine (call g op) (ground arith) (ground arith)
move-Step (close g) a b e = goroutine (close g) (ground arith) (ground arith)
move-Step (hand g) a b e = goroutine (hand g) (ground arith) (ground arith)
move-Step (reject g) a b e = goroutine (reject g) (ground arith) (ground arith)
move-Step (take g) a b e = goroutine (take g) (ground arith) (ground arith)
move-Step (lose g) a b e = goroutine (lose g) (ground arith) (ground arith)
move-Step (end_close g) a b e = goroutine (end_close g) (ground arith) (ground arith)
move-Step run_turn a b e = goroutine run_turn tt e
move-Step halt a b e = goroutine halt tt e

abbrev play : List Choice → Ran (Step 2) (new_counter (pos 10))
play xs = execute move move-Step (record { last = new_counter (pos 10); reach = here }) xs

abbrev added_twice : List Choice
added_twice =
    call 0 (add (pos 5))
    ∷ hand 0
    ∷ run_turn
    ∷ take 0
    ∷ call 0 (add (pos 1))
    ∷ hand 0
    ∷ close 1
    ∷ run_turn
    ∷ []

-- `run` has ended, and the second call of Add has its reply.
abbrev closed_counter : Ran (Step 2) (new_counter (pos 10))
closed_counter = play (added_twice ++ (halt ∷ run_turn ∷ []))

-- That call returns ErrClosed, though the count has changed.
abbrev lost_reply : Ran (Step 2) (new_counter (pos 10))
lost_reply = play (added_twice ++ (halt ∷ run_turn ∷ lose 0 ∷ end_close 1 ∷ []))

lost_reply_state :
    (lost_reply.last.current ≡ pos 16)
    × (lost_reply.last.returns 0 ≡ (add (pos 1), none) ∷ (add (pos 5), some (pos 15)) ∷ [])
    × (lost_reply.last.run ≡ ended)
unfolding execute act new_counter call_operation hand_command turn reply_to apply take_reply
    start_close once_do stop_run lose_reply finish_close add64 wrap ◌+ℤ◌
lost_reply_state = (refl, refl, refl)

closed_counter_state :
    (closed_counter.last.calls 0 ≡ awaiting (add (pos 1)) (some (pos 16)))
    × (closed_counter.last.run ≡ ended)
unfolding execute act new_counter call_operation hand_command turn reply_to apply take_reply
    start_close once_do stop_run add64 wrap ◌+ℤ◌
closed_counter_state = (refl, refl)

actor_answers_example :
    IsHistory (pos 10) lost_reply.last.log lost_reply.last.current
    × ((g : ℕ)
        → Matches
            (is_ended lost_reply.last.run)
            (pending (lost_reply.last.calls g) ++ lost_reply.last.returns g)
            (applied_for g lost_reply.last.log))
actor_answers_example = actor_answers (pos 10) lost_reply.reach

actor_progress_example : CanStep 2 closed_counter.last
actor_progress_example =
    actor_progress (pos 10) 0 closed_counter.reach (omega arith)
      (λ e. ground (arith, closed_counter_state.0, e))
