-- ===== src/Dining/Outcome.antt =====
-- What `Run` of examples/diningphilosophers/table.go returns once its goroutines have finished.
use go_concurrency_examples.Dining.{
  Pc, reporting, finished, Table, dine, Step, philosopher, cancel, table, first_error,
}
use go_concurrency_examples.Dining.Forks.{Reach-Inv, RoundsAt}
use go_concurrency_examples.Dining.Progress.{IsFinished}
use go_concurrency_examples.Base.{
  Bool, Context, CtxError, List, Option, Reach, Reach-inv, [], arith, none, refl, some, ℕ, ◌++◌,
  ◌<◌, ◌∷◌, ◌≡◌, ◌≢◌,
}

first_error-append :
    (es : List (Option CtxError)) (e : Option CtxError)
    → first_error (es ++ e ∷ []) ≡ elim (first_error es) [ none ↦ e | some x ↦ some x ]
unfolding first_error
first_error-append [] none = refl
first_error-append [] (some x) = refl
first_error-append (none ∷ es) e = first_error-append es e
first_error-append (some y ∷ es) e = refl

-- An error that a philosopher returns is that of the context.
abbrev Flags : Context → Pc → Type 0
Flags ctx (reporting (some x)) = ctx ≡ some x
Flags ctx (finished (some x)) = ctx ≡ some x
Flags ctx _ = Unit {0}

record Errors (s : Table) : Type 0 where
  flagged : (i : ℕ) → Flags s.ctx (s.pc i)
  first_flagged : (x : CtxError) → first_error s.errs ≡ some x → s.ctx ≡ some x
  silent : first_error s.errs ≡ none → (i : ℕ) (x : CtxError) → s.pc i ≢ finished (some x)

module _ (n rounds id : ℕ) (choice : Bool) (s t : Table) (errors : Errors s) where
  dine-flagged :
      (p : Pc) → s.pc id ≡ p → dine n rounds id choice p s ≡ some t → (i : ℕ) → Flags t.ctx (t.pc i)
  unfolding dine
  dine-flagged (reporting none) at e i = ground (arith, errors.flagged i)
  dine-flagged (reporting (some x)) at e i = ground (arith, errors.flagged i, errors.flagged id)
  dine-flagged _ at e i = ground (arith, errors.flagged i)

  dine-first_flagged :
      (p : Pc)
      → s.pc id ≡ p
      → dine n rounds id choice p s ≡ some t
      → (x : CtxError) → first_error t.errs ≡ some x
      → t.ctx ≡ some x
  unfolding dine
  dine-first_flagged (reporting none) at e x h =
      ground (arith, first_error-append s.errs none, errors.first_flagged x)
  dine-first_flagged (reporting (some y)) at e x h =
      ground (arith, first_error-append s.errs (some y), errors.first_flagged x, errors.flagged id)
  dine-first_flagged _ at e x h = ground (arith, errors.first_flagged x)

  dine-silent :
      (p : Pc)
      → s.pc id ≡ p
      → dine n rounds id choice p s ≡ some t
      → first_error t.errs ≡ none
      → (i : ℕ) (x : CtxError) → t.pc i ≢ finished (some x)
  unfolding dine
  dine-silent (reporting none) at e h i x q = ground (
    arith,
    first_error-append s.errs none,
    λ (k : first_error s.errs ≡ none). errors.silent k i x,
  )
  dine-silent (reporting (some y)) at e h i x q = ground (
    arith,
    first_error-append s.errs (some y),
    λ (k : first_error s.errs ≡ none). errors.silent k i x,
  )
  dine-silent _ at e h i x q =
      ground (arith, λ (k : first_error s.errs ≡ none). errors.silent k i x)

Step-Errors : {n rounds : ℕ} (s t : Table) → Step n rounds s t → Errors s → Errors t
Step-Errors {n} {rounds} s t (philosopher id choice lt e) v = record {
  flagged = dine-flagged n rounds id choice s t v (s.pc id) refl e;
  first_flagged = dine-first_flagged n rounds id choice s t v (s.pc id) refl e;
  silent = dine-silent n rounds id choice s t v (s.pc id) refl e;
}
Step-Errors s t (cancel x free e) v = rw e (record {
  flagged = λ i. ground (arith, v.flagged i);
  first_flagged = λ y h. ground (arith, v.first_flagged y);
  silent = v.silent;
})

table-Errors : Errors (table none)
unfolding table first_error
table-Errors = record { flagged = λ i. tt; first_flagged = λ x h. cc; silent = λ h i x e. cc }

rounds_of_finished :
    (rounds r : ℕ) (p : Pc)
    → ((x : CtxError) → p ≢ finished (some x))
    → IsFinished p
    → RoundsAt rounds p r
    → r ≡ rounds
rounds_of_finished rounds r (finished none) quiet f h = h
rounds_of_finished rounds r (finished (some x)) quiet f h = absurd (quiet x refl)
rounds_of_finished rounds r _ quiet f h = ground arith

-- When all philosophers have finished, `Run` returns a nil error only if each of them has done all
-- its rounds, and any error that it returns is the error of the context, which was canceled.
pub dining_outcome :
    {n rounds : ℕ} {s : Table}
    → Reach (Step n rounds) (table none) s
    → ((i : ℕ) → i < n → IsFinished (s.pc i))
    → (first_error s.errs ≡ none → (i : ℕ) → i < n → s.rounds_done i ≡ rounds)
      × ((x : CtxError) → first_error s.errs ≡ some x → s.ctx ≡ some x)
dining_outcome {n} {rounds} {s} r done =
    let errors = Reach-inv Errors Step-Errors table-Errors r in
    let inv = Reach-Inv r in
    (
      λ quiet i lt.
          rounds_of_finished rounds (s.rounds_done i) (s.pc i) (errors.silent quiet i) (done i lt)
            (inv.rounds_counted i),
      errors.first_flagged,
    )
