-- ===== src/Actor/Calls.antt =====
-- The invariant of examples/actor/counter.go, call by call.
use mathlib.Core.Path.{subst}
use go_concurrency_examples.Base.{
  Bool, Bool-cases, Reach, Reach-inv, arith, false, inl, inr, none, refl, some, true, update, ℕ,
  ◌<◌, ◌∷◌, ◌≡◌, ◌≢◌, sym, ◌++◌,
}
use go_concurrency_examples.Actor.{
  Actor, Call, Once, Operation, Run, Step, act, awaiting, call, call_operation, close, closing,
  end_close, ended, finish_close, fresh, goroutine, halt, hand, hand_command, idle, is_ended,
  is_receiving, lose, lose_reply, new_counter, offering, once_do, over, receiving, reject,
  reject_call, reply_to, run_turn, serving, start_close, started, stop_run, stopping, take,
  take_reply, turn,
}
use go_concurrency_examples.Actor.Answers.{Inv, IsFine, Matches, Matches-lose, applied_for, pending}
use go_concurrency_examples.Actor.Turns.{goes-Inv, hand-Inv, run-Inv, serve-Inv}
use go_concurrency_examples.Base.Int.{ℤ}

module _ {initial : ℤ} {n : ℕ} {a b : Actor} (inv : Inv initial n a) where
  turn-Inv : (r : Run) → a.run ≡ r → turn r a ≡ some b → Inv initial n b
  unfolding turn reply_to
  turn-Inv receiving at e = ground (arith, e)
  turn-Inv (serving g op) at e =
      subst (Inv initial n) (ground (arith, e, (inv.served g op at).1)) (serve-Inv inv g op at)
  turn-Inv stopping at e =
      subst (Inv initial n) (ground (arith, e))
        (run-Inv inv ended (λ k op h. cc) (λ k op h. cc) (λ h. refl))
  turn-Inv ended at e = ground (arith, e)

  stop-Inv : (r : Run) → a.run ≡ r → stop_run r a ≡ some b → Inv initial n b
  unfolding stop_run
  stop-Inv receiving at e =
      subst (Inv initial n) (ground (arith, e))
        (run-Inv inv stopping (λ k op h. cc) (λ k op h. cc) (λ h. ground (arith, at, h)))
  stop-Inv (serving g op) at e = ground (arith, e)
  stop-Inv stopping at e = ground (arith, e)
  stop-Inv ended at e = ground (arith, e)

module _ {initial : ℤ} {n g : ℕ} {a : Actor} (inv : Inv initial n a) where
  -- `run` has not ended while a call waits for its reply.
  pub not_ended : (op : Operation) → a.calls g ≡ awaiting op none → is_ended a.run ≡ false
  not_ended op is = ground (arith, subst (IsFine a.run a.stop a.log g) is (inv.fine g))

module _ {initial : ℤ} {n : ℕ} {a : Actor} (inv : Inv initial n a) where
  answered_at :
      (g : ℕ) (c : Call)
      → a.calls g ≡ c
      → Matches (is_ended a.run) (pending c ++ a.returns g) (applied_for g a.log)
  answered_at g c is =
      subst (λ d. Matches (is_ended a.run) (pending d ++ a.returns g) (applied_for g a.log)) is
        (inv.answered g)

module _ {initial : ℤ} {n g : ℕ} {a b : Actor} (inv : Inv initial n a) (lt : g < n) where
  plain :
      (old now : Call) (stop : Bool) (once : Once)
      → a.calls g ≡ old
      → ((op : Operation) → old ≢ awaiting op none)
      → IsFine a.run stop a.log g now
      → (a.stop ≡ true → stop ≡ true)
      → pending now ≡ pending old
      → record a { stop = stop; once = once; calls = update a.calls g now } ≡ b
      → Inv initial n b
  plain old now stop once is free mine stays same e = subst (Inv initial n) e (
      goes-Inv inv g old now stop once a.returns is free mine stays
        (subst (λ l. Matches (is_ended a.run) (l ++ a.returns g) (applied_for g a.log)) (sym same)
          (answered_at inv g old is))
        (λ k ne. refl))

  call_operation-Inv :
      (op : Operation) (c : Call)
      → a.calls g ≡ c
      → call_operation g op c a ≡ some b
      → Inv initial n b
  unfolding call_operation
  call_operation-Inv op idle is e =
      plain idle (offering op) a.stop a.once is (λ o h. cc) tt (λ h. h) refl (ground (arith, e))
  call_operation-Inv op (offering done) is e = ground (arith, e)
  call_operation-Inv op (awaiting done r) is e = ground (arith, e)
  call_operation-Inv op closing is e = ground (arith, e)

  hand_command-Inv : (c : Call) → a.calls g ≡ c → hand_command g c a ≡ some b → Inv initial n b
  unfolding hand_command
  hand_command-Inv (offering op) is e = elim (Bool-cases (is_receiving a.run)) [
    | inl free ↦ subst (Inv initial n) (ground (arith, free, e)) (hand-Inv inv g op lt is free)
    | inr busy ↦ ground (arith, busy, e)
  ]
  hand_command-Inv idle is e = ground (arith, e)
  hand_command-Inv (awaiting op r) is e = ground (arith, e)
  hand_command-Inv closing is e = ground (arith, e)

  reject_call-Inv : (c : Call) → a.calls g ≡ c → reject_call g c a ≡ some b → Inv initial n b
  unfolding reject_call
  reject_call-Inv (offering op) is e =
      plain (offering op) idle a.stop a.once is (λ o h. cc) tt (λ h. h) refl (ground (arith, e))
  reject_call-Inv idle is e = ground (arith, e)
  reject_call-Inv (awaiting op r) is e = ground (arith, e)
  reject_call-Inv closing is e = ground (arith, e)

  take_reply-Inv : (c : Call) → a.calls g ≡ c → take_reply g c a ≡ some b → Inv initial n b
  unfolding take_reply
  take_reply-Inv (awaiting op (some v)) is e = subst (Inv initial n) (ground (arith, e)) (
      goes-Inv inv g (awaiting op (some v)) idle a.stop a.once
        (update a.returns g ((op, some v) ∷ a.returns g)) is (λ o h. cc) tt (λ h. h)
        (subst (λ l. Matches (is_ended a.run) l (applied_for g a.log))
          {x = (op, some v) ∷ a.returns g} (ground arith)
          (answered_at inv g (awaiting op (some v)) is))
        (λ k ne. ground (arith, ne)))
  take_reply-Inv (awaiting op none) is e = ground (arith, e)
  take_reply-Inv idle is e = ground (arith, e)
  take_reply-Inv (offering op) is e = ground (arith, e)
  take_reply-Inv closing is e = ground (arith, e)

  lose_reply-Inv : (c : Call) → a.calls g ≡ c → lose_reply g c a ≡ some b → Inv initial n b
  unfolding lose_reply
  lose_reply-Inv (awaiting op (some v)) is e = elim (Bool-cases (is_ended a.run)) [
    | inl over_now ↦ subst (Inv initial n) (ground (arith, over_now, e)) (
        goes-Inv inv g (awaiting op (some v)) idle a.stop a.once
          (update a.returns g ((op, none) ∷ a.returns g)) is (λ o h. cc) tt (λ h. h)
          (subst (λ l. Matches (is_ended a.run) l (applied_for g a.log))
            {x = (op, none) ∷ a.returns g} (ground arith)
            (Matches-lose (is_ended a.run) op (some v) (a.returns g) (applied_for g a.log) over_now
              (answered_at inv g (awaiting op (some v)) is)))
          (λ k ne. ground (arith, ne)))
    | inr on_going ↦ ground (arith, on_going, e)
  ]
  lose_reply-Inv (awaiting op none) is e = ground (arith, e, not_ended inv op is)
  lose_reply-Inv idle is e = ground (arith, e)
  lose_reply-Inv (offering op) is e = ground (arith, e)
  lose_reply-Inv closing is e = ground (arith, e)

  once_do-Inv : (o : Once) → a.calls g ≡ idle → once_do g o a ≡ some b → Inv initial n b
  unfolding once_do
  once_do-Inv fresh is e =
      plain idle closing true started is (λ o h. cc) refl (λ h. refl) refl (ground (arith, e))
  once_do-Inv started is e = ground (arith, e)
  once_do-Inv over is e = subst (Inv initial n) (ground (arith, e)) inv

  start_close-Inv : (c : Call) → a.calls g ≡ c → start_close g c a ≡ some b → Inv initial n b
  unfolding start_close
  start_close-Inv idle is e = once_do-Inv a.once is e
  start_close-Inv (offering op) is e = ground (arith, e)
  start_close-Inv (awaiting op r) is e = ground (arith, e)
  start_close-Inv closing is e = ground (arith, e)

  finish_close-Inv : (c : Call) → a.calls g ≡ c → finish_close g c a ≡ some b → Inv initial n b
  unfolding finish_close
  finish_close-Inv closing is e =
      plain closing idle a.stop over is (λ o h. cc) tt (λ h. h) refl (ground (arith, e))
  finish_close-Inv idle is e = ground (arith, e)
  finish_close-Inv (offering op) is e = ground (arith, e)
  finish_close-Inv (awaiting op r) is e = ground (arith, e)

module _ (initial : ℤ) (n : ℕ) where
  Step-Inv : (a b : Actor) → Step n a b → Inv initial n a → Inv initial n b
  unfolding act
  Step-Inv a b (goroutine (call g op) lt e) inv = call_operation-Inv inv lt op (a.calls g) refl e
  Step-Inv a b (goroutine (close g) lt e) inv = start_close-Inv inv lt (a.calls g) refl e
  Step-Inv a b (goroutine (hand g) lt e) inv = hand_command-Inv inv lt (a.calls g) refl e
  Step-Inv a b (goroutine (reject g) lt e) inv = reject_call-Inv inv lt (a.calls g) refl e
  Step-Inv a b (goroutine (take g) lt e) inv = take_reply-Inv inv lt (a.calls g) refl e
  Step-Inv a b (goroutine (lose g) lt e) inv = lose_reply-Inv inv lt (a.calls g) refl e
  Step-Inv a b (goroutine (end_close g) lt e) inv = finish_close-Inv inv lt (a.calls g) refl e
  Step-Inv a b (goroutine run_turn lt e) inv = turn-Inv inv a.run refl e
  Step-Inv a b (goroutine halt lt e) inv = stop-Inv inv a.run refl e

  new-Inv : Inv initial n (new_counter initial)
  unfolding new_counter
  new-Inv = record { history = refl; fine = λ g. tt; served = λ g op at. cc; answered = λ g. tt }

  pub Reach-Good : {a : Actor} → Reach (Step n) (new_counter initial) a → Inv initial n a
  Reach-Good r = Reach-inv (Inv initial n) (λ a b st. Step-Inv a b st) new-Inv r
