-- ===== src/Actor/Replies.antt =====
-- The answers of examples/actor/counter.go follow from one history of the count, and its calls go on.
use mathlib.Core.Path.{subst}
use go_concurrency_examples.Base.{
  Bool-cases, Reach, arith, false, inl, inr, is_some, none, refl, some, true, ℕ, ◌<◌, ◌≡◌, ◌≢◌,
  Bool, ◌++◌,
}
use go_concurrency_examples.Actor.{
  Actor, Call, Choice, IsChoice, Operation, Run, Step, act, awaiting, closing, end_close, ended,
  finish_close, halt, hand, hand_command, idle, is_ended, new_counter, offering, receiving, reject,
  reject_call, run_turn, serving, stop_run, stopping, take, take_reply, turn, call, close, lose,
}
use go_concurrency_examples.Actor.Answers.{Inv, IsFine, IsHistory, Matches, applied_for, pending}
use go_concurrency_examples.Actor.Calls.{Reach-Good}
use go_concurrency_examples.Base.Int.{ℤ}

-- The choices that go on with a call under way, or with `run`.
abbrev pub continues : Choice → Bool
continues (call g op) = false
continues (close g) = false
continues (hand g) = true
continues (reject g) = true
continues (take g) = true
continues (lose g) = true
continues (end_close g) = true
continues run_turn = true
continues halt = true

-- A call under way or `run` can take its next step.
abbrev pub CanStep : ℕ → Actor → Type 0
CanStep n a = (x : Choice) × IsChoice n x × (continues x ≡ true) × (is_some (act x a) ≡ true)

module _ {n : ℕ} where
  run_steps : (a : Actor) (r : Run) → a.run ≡ r → a.stop ≡ true → is_ended r ≡ false → CanStep n a
  unfolding act turn stop_run
  run_steps a receiving at stopped more = (halt, tt, refl, ground (arith, at, stopped))
  run_steps a (serving g op) at stopped more = (run_turn, tt, refl, ground (arith, at))
  run_steps a stopping at stopped more = (run_turn, tt, refl, ground (arith, at))
  run_steps a ended at stopped more = cc

  offer_steps :
      (a : Actor) (g : ℕ) (op : Operation) (r : Run)
      → g < n
      → a.calls g ≡ offering op
      → a.run ≡ r
      → CanStep n a
  unfolding act turn hand_command reject_call
  offer_steps a g op receiving lt is at = (hand g, lt, refl, ground (arith, is, at))
  offer_steps a g op (serving k done) lt is at = (run_turn, tt, refl, ground (arith, at))
  offer_steps a g op stopping lt is at = (run_turn, tt, refl, ground (arith, at))
  offer_steps a g op ended lt is at = (reject g, lt, refl, ground (arith, is, at))

module _ (initial : ℤ) {n : ℕ} where
  call_steps :
      {a : Actor} (g : ℕ) (c : Call)
      → Inv initial n a
      → g < n
      → a.calls g ≡ c
      → c ≢ idle
      → CanStep n a
  unfolding act turn take_reply finish_close
  call_steps g idle inv lt is busy = absurd (busy refl)
  call_steps {a} g (offering op) inv lt is busy = offer_steps a g op a.run lt is refl
  call_steps {a} g (awaiting op none) inv lt is busy =
      let with_run = subst (IsFine a.run a.stop a.log g) is (inv.fine g) in
      (run_turn, tt, refl, ground (arith, with_run))
  call_steps g (awaiting op (some v)) inv lt is busy = (take g, lt, refl, ground (arith, is))
  call_steps {a} g closing inv lt is busy = elim (Bool-cases (is_ended a.run)) [
    | inl over_now ↦ (end_close g, lt, refl, ground (arith, is, over_now))
    | inr more ↦ run_steps a a.run refl (subst (IsFine a.run a.stop a.log g) is (inv.fine g)) more
  ]

  -- In every reachable state, the operations that were applied form one history of the count: it
  -- starts at the initial value, each operation was applied to the count that the one before left,
  -- and the last one left the current count. The calls of each goroutine that returned from the second
  -- select, and the one that still has a reply to return, answer the operations of that goroutine in
  -- the history, one by one and in order: each returned the count after its own operation, or, once
  -- the actor has ended, ErrClosed.
  pub actor_answers :
      {a : Actor}
      → Reach (Step n) (new_counter initial) a
      → IsHistory initial a.log a.current
        × ((g : ℕ)
            → Matches (is_ended a.run) (pending (a.calls g) ++ a.returns g) (applied_for g a.log))
  actor_answers r = let inv = Reach-Good initial n r in (inv.history, inv.answered)

  -- In every reachable state in which a call of Add, Value or Close is under way, a call under way or
  -- the goroutine of the actor can take its next step, without a new call.
  pub actor_progress :
      {a : Actor} (g : ℕ)
      → Reach (Step n) (new_counter initial) a
      → g < n
      → a.calls g ≢ idle
      → CanStep n a
  actor_progress {a} g r lt busy = call_steps g (a.calls g) (Reach-Good initial n r) lt refl busy
