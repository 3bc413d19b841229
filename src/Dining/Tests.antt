-- ===== src/Dining/Tests.antt =====
-- Schedules of two and three philosophers, and the theorems about examples/diningphilosophers at
-- the states that they lead to.
use go_concurrency_examples.Dining.{
  counting, Table, dine, Step, philosopher, table, first_error, refused, returned, run, seated,
  too_few_philosophers,
}
use go_concurrency_examples.Base.{
  List, Option, Ran, [], arith, execute, false, here, if◌then◌else◌, ltb, none, refl, some, ℕ, ◌∷◌,
  ◌≡◌, CtxError, steps, suc, true, zero, ◌*◌, ◌+◌, ◌<◌, ◌≤◌, ◌⊎◌,
}
use go_concurrency_examples.Dining.Progress.{IsFinished, dining_progress}
use go_concurrency_examples.Dining.Outcome.{dining_outcome}
use go_concurrency_examples.Dining.Termination.{dining_terminates}
use go_concurrency_examples.Base.Int.{pos}

abbrev turn : ℕ → ℕ → ℕ → Table → Option Table
turn n rounds id s = if ltb id n then dine n rounds id false (s.pc id) s else none

turn-Step : (n rounds id : ℕ) (s t : Table) → turn n rounds id s ≡ some t → Step n rounds s t
turn-Step n rounds id s t e = philosopher id false (ground arith) (ground arith)

abbrev play : (n rounds : ℕ) → List ℕ → Ran (Step n rounds) (table none)
play n rounds ids =
    execute (turn n rounds) (turn-Step n rounds) (record { last = table none; reach = here }) ids

-- Philosopher 0 of two eats, and 1 waits for a seat.
abbrev eating : Ran (Step 2 1) (table none)
eating = play 2 1 (0 ∷ 0 ∷ 0 ∷ 0 ∷ 1 ∷ 1 ∷ [])

eating_place : eating.last.pc 0 ≡ counting 0
unfolding execute dine table
eating_place = refl

dining_progress_example :
    ((i : ℕ) → i < 2 → IsFinished (eating.last.pc i))
    ⊎ ((i : ℕ) × (i < 2) × (t : Table) × (dine 2 1 i true (eating.last.pc i) eating.last ≡ some t))
dining_progress_example = dining_progress (omega arith) eating.reach true

dining_terminates_example : steps eating.reach ≤ 2 * (9 * 1 + 2) + 1
dining_terminates_example = dining_terminates eating.reach

-- Both philosophers run to the end, one after the other.
abbrev to_the_end : List ℕ
to_the_end = 0 ∷ 0 ∷ 0 ∷ 0 ∷ 0 ∷ 0 ∷ 0 ∷ 0 ∷ 0 ∷ 0 ∷ 1 ∷ 1 ∷ 1 ∷ 1 ∷ 1 ∷ 1 ∷ 1 ∷ 1 ∷ 1 ∷ 1 ∷ []

abbrev sated : Ran (Step 2 1) (table none)
sated = play 2 1 to_the_end

sated_errs : sated.last.errs ≡ none ∷ none ∷ []
unfolding execute dine table
sated_errs = refl

sated-IsFinished : (i : ℕ) → i < 2 → IsFinished (sated.last.pc i)
unfolding execute dine table
sated-IsFinished zero lt = tt
sated-IsFinished (suc zero) lt = tt
sated-IsFinished (suc (suc i)) lt = absurd (omega arith)

dining_outcome_example :
    (first_error sated.last.errs ≡ none → (i : ℕ) → i < 2 → sated.last.rounds_done i ≡ 1)
    × ((x : CtxError) → first_error sated.last.errs ≡ some x → sated.last.ctx ≡ some x)
dining_outcome_example = dining_outcome sated.reach sated-IsFinished

run_one : run none (pos 1) (pos 3) ≡ refused too_few_philosophers
unfolding run
run_one = refl

run_no_rounds : run none (pos 2) (pos 0) ≡ returned none
unfolding run
run_no_rounds = refl

run_two : run none (pos 2) (pos 3) ≡ seated 2 3 (table none)
unfolding run
run_two = refl
