-- ===== src/Barrier/Tests.antt =====
-- A barrier for two callers, and three goroutines of which the last one closes it.
use go_concurrency_examples.Base.{
  List, Option, Ran, [], arith, execute, false, here, if◌then◌else◌, inl, ltb, none, refl, some,
  sum_below, ℕ, ◌*◌, ◌+◌, ◌<◌, ◌==◌, ◌∷◌, ◌≡◌,
}
use go_concurrency_examples.Barrier.{
  Barrier, Job, Step, System, act, arrive, close, closes, goroutine, initial, leave, new, next_job,
  outside, ready, recheck, waiting, waits_once, wake,
}
use go_concurrency_examples.Barrier.Phases.{
  Rests, barrier_close, barrier_groups, barrier_no_lost_wakeup,
}
use go_concurrency_examples.Barrier.Groups.{current, earlier}
use go_concurrency_examples.Base.Int.{pos}

abbrev pair : Barrier
pair = record { parties = 2; arrived = 0; generation = 0; closed = false }

made_pair : new (pos 2) ≡ inl pair
unfolding new
made_pair = refl

abbrev work : ℕ → List Job
work i =
    if i == 0
    then waits_once ∷ waits_once ∷ []
    else (if i == 1 then waits_once ∷ [] else closes ∷ [])

abbrev turn : ℕ → System → Option System
turn id s = if ltb id 3 then act id (s.pc id) s else none

turn-Step : (id : ℕ) (s t : System) → turn id s ≡ some t → Step 3 s t
turn-Step id s t e = goroutine id (ground arith) (ground arith)

abbrev play : List ℕ → Ran (Step 3) (initial pair work)
play ids = execute turn turn-Step (record { last = initial pair work; reach = here }) ids

-- The first two meet, and goroutine 0 waits for a second phase.
abbrev second_phase : Ran (Step 3) (initial pair work)
second_phase = play (0 ∷ 0 ∷ 1 ∷ 1 ∷ 0 ∷ 0 ∷ 0 ∷ [])

second_phase_place : (second_phase.last.nils ≡ 2) × (second_phase.last.pc 0 ≡ waiting 1)
unfolding execute act initial next_job ready arrive recheck leave wake
second_phase_place = (refl, refl)

barrier_groups_example :
    let s = second_phase.last in
    (s.nils + sum_below (λ i. earlier s.barrier.generation (s.pc i)) 3 ≡ 2 * s.barrier.generation)
    × (s.barrier.arrived < 2)
    × (s.barrier.closed ≡ false
        → sum_below (λ i. current s.barrier.generation (s.pc i)) 3 ≡ s.barrier.arrived)
barrier_groups_example = barrier_groups (pos 2) pair work made_pair second_phase.reach

second_phase_stuck : act 0 (second_phase.last.pc 0) second_phase.last ≡ none
unfolding execute act initial next_job ready arrive recheck leave wake
second_phase_stuck = refl

barrier_no_lost_wakeup_example : Rests 2 3 second_phase.last 0 (second_phase.last.pc 0)
barrier_no_lost_wakeup_example =
    barrier_no_lost_wakeup (pos 2) pair work made_pair second_phase.reach 0 (omega arith)
      second_phase_stuck

-- Close ends the second phase with an error for goroutine 0.
abbrev closed_phase : Ran (Step 3) (initial pair work)
closed_phase = play (0 ∷ 0 ∷ 1 ∷ 1 ∷ 0 ∷ 0 ∷ 0 ∷ 2 ∷ 2 ∷ 0 ∷ [])

closed_phase_ends : (closed_phase.last.nils ≡ 2) × (closed_phase.last.errs ≡ 1)
unfolding execute act initial next_job ready arrive recheck close leave wake
closed_phase_ends = (refl, refl)

barrier_close_example :
    let s = closed_phase.last in
    (s.barrier.closed ≡ false → s.errs ≡ 0)
    × (((i : ℕ) → i < 3 → s.pc i ≡ outside) → s.nils ≡ 2 * s.barrier.generation)
barrier_close_example = barrier_close (pos 2) pair work made_pair closed_phase.reach
