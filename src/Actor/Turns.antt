-- ===== src/Actor/Turns.antt =====
-- The steps of examples/actor/counter.go keep its invariant.
use mathlib.Core.Path.{subst}
use go_concurrency_examples.Base.{
  Bool, List, arith, inl, inr, none, refl, some, sym, true, update, update-elim, ℕ, ℕ_discrete, ◌<◌,
  ◌∙◌, ◌∷◌, ◌≡◌, ◌≢◌, Option, false, ◌++◌, ap,
}
use go_concurrency_examples.Actor.{
  Actor, Call, Once, Operation, Run, apply, awaiting, entry, is_receiving, offering, receiving,
  serving, is_ended, ended, stopping,
}
use go_concurrency_examples.Actor.Answers.{
  Inv, IsFine, IsFine-mono, Matches, Matches-mono, applied_for, pending,
}
use go_concurrency_examples.Base.Int.{ℤ}

same_caller : (k g : ℕ) (done op : Operation) → serving k done ≡ serving g op → k ≡ g
same_caller k g done op e = cc

same_command : (k g : ℕ) (done op : Operation) → serving k done ≡ serving g op → done ≡ op
same_command k g done op e = cc

receiving_open : (r : Run) → is_receiving r ≡ true → is_ended r ≡ false
receiving_open receiving h = refl
receiving_open (serving g op) h = cc
receiving_open stopping h = cc
receiving_open ended h = cc

module _ {initial : ℤ} {n : ℕ} {a : Actor} (inv : Inv initial n a) where
  -- A call that is not with `run` goes on, from `old` to `now`.
  pub goes-Inv :
      (g : ℕ) (old now : Call) (stop : Bool) (once : Once) (rs : ℕ → List (Operation × Option ℤ))
      → a.calls g ≡ old
      → ((op : Operation) → old ≢ awaiting op none)
      → IsFine a.run stop a.log g now
      → (a.stop ≡ true → stop ≡ true)
      → Matches (is_ended a.run) (pending now ++ rs g) (applied_for g a.log)
      → ((k : ℕ) → k ≢ g → a.returns k ≡ rs k)
      → Inv initial n
          (record a { stop = stop; once = once; calls = update a.calls g now; returns = rs })
  goes-Inv g old now stop once rs is free mine stays answers elsewhere = record {
    history = inv.history;
    fine = update-elim (IsFine a.run stop a.log) a.calls g now mine (λ k ne.
        IsFine-mono a.run a.run a.stop stop a.log a.log k (a.calls k) (λ op e. e) stays
          (λ op v h. h) (inv.fine k));
    served = λ k op at.
        let (below, with_run) = inv.served k op at in
        (
          below,
          elim (ℕ_discrete g k) [
            | yes e ↦ absurd (free op (ground (arith, is, e, with_run)))
            | no ne ↦ ground (arith, ne, with_run)
          ],
        );
    answered =
        update-elim (λ k c. Matches (is_ended a.run) (pending c ++ rs k) (applied_for k a.log))
          a.calls g now answers
          (λ k ne.
            subst (λ l. Matches (is_ended a.run) (pending (a.calls k) ++ l) (applied_for k a.log))
              (elsewhere k ne) (inv.answered k));
  }

  -- While `run` is on, no call has returned ErrClosed from its second select.
  open_answers :
      (g : ℕ) (c : Call)
      → a.calls g ≡ c
      → is_ended a.run ≡ false
      → Matches false (pending c ++ a.returns g) (applied_for g a.log)
  open_answers g c is on_going =
      subst (λ e. Matches e (pending c ++ a.returns g) (applied_for g a.log)) on_going
        (subst (λ d. Matches (is_ended a.run) (pending d ++ a.returns g) (applied_for g a.log)) is
          (inv.answered g))

  pub hand-Inv :
      (g : ℕ) (op : Operation)
      → g < n
      → a.calls g ≡ offering op
      → is_receiving a.run ≡ true
      → Inv initial n (record a { run = serving g op; calls = update a.calls g (awaiting op none) })
  hand-Inv g op lt is free = record {
    history = inv.history;
    fine =
        update-elim (IsFine (serving g op) a.stop a.log) a.calls g (awaiting op none) refl (λ k ne.
          IsFine-mono a.run (serving g op) a.stop a.stop a.log a.log k (a.calls k)
            (λ done e. ground (arith, free, e)) (λ e. e) (λ done v h. h) (inv.fine k));
    served = λ k done at. (
      ground (arith, same_caller g k op done at),
      ground (arith, same_caller g k op done at, same_command g k op done at),
    );
    answered =
        update-elim (λ k c. Matches false (pending c ++ a.returns k) (applied_for k a.log)) a.calls
          g (awaiting op none) (open_answers g (offering op) is (receiving_open a.run free))
          (λ k ne. open_answers k (a.calls k) refl (receiving_open a.run free));
  }

  pub run-Inv :
      (r : Run)
      → ((k : ℕ) (op : Operation) → a.run ≢ serving k op)
      → ((k : ℕ) (op : Operation) → r ≢ serving k op)
      → (is_ended a.run ≡ true → is_ended r ≡ true)
      → Inv initial n (record a { run = r })
  run-Inv r was_free free ends = record {
    history = inv.history;
    fine = λ k.
        IsFine-mono a.run r a.stop a.stop a.log a.log k (a.calls k)
          (λ op e. absurd (was_free k op e)) (λ e. e) (λ op v h. h) (inv.fine k);
    served = λ k op at. absurd (free k op at);
    answered = λ k.
        Matches-mono (is_ended a.run) (is_ended r) (pending (a.calls k) ++ a.returns k)
          (applied_for k a.log) ends (inv.answered k);
  }

  answered_next :
      (g : ℕ) (op : Operation)
      → Matches false (a.returns g) (applied_for g a.log)
      → Matches false
          ((op, some (apply op a.current)) ∷ a.returns g)
          ((op, apply op a.current) ∷ applied_for g a.log)
  answered_next g op h = (refl, inl refl, h)

  pub serve-Inv :
      (g : ℕ) (op : Operation)
      → a.run ≡ serving g op
      → Inv initial n (record a {
        current = apply op a.current;
        run = receiving;
        calls = update a.calls g (awaiting op (some (apply op a.current)));
        log = entry g op a.current ∷ a.log;
      })
  serve-Inv g op at =
      let (lt, is) = inv.served g op at in
      record {
        history = (refl, inv.history);
        fine =
            update-elim (IsFine receiving a.stop (entry g op a.current ∷ a.log)) a.calls g
              (awaiting op (some (apply op a.current))) (inl (refl, refl))
              (λ k ne.
                IsFine-mono a.run receiving a.stop a.stop a.log (entry g op a.current ∷ a.log) k
                  (a.calls k) (λ done e. absurd (ne (same_caller k g done op (sym e ∙ at))))
                  (λ e. e) (λ done v h. inr h) (inv.fine k));
        served = λ k done e. cc;
        answered =
            update-elim
              (λ k c.
                Matches false (pending c ++ a.returns k)
                  (applied_for k (entry g op a.current ∷ a.log)))
              a.calls g (awaiting op (some (apply op a.current)))
              (subst (Matches false ((op, some (apply op a.current)) ∷ a.returns g))
                {x = (op, apply op a.current) ∷ applied_for g a.log} (ground arith)
                (answered_next g op (open_answers g (awaiting op none) is (ap is_ended at))))
              (λ k ne.
                subst (Matches false (pending (a.calls k) ++ a.returns k)) (ground (arith, ne))
                  (open_answers k (a.calls k) refl (ap is_ended at)));
      }
