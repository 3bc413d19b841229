-- ===== src/Semaphore/Tests.antt =====
-- A semaphore with one slot and two callers.
use go_concurrency_examples.Base.Int.{pos}
use go_concurrency_examples.Base.{
  List, Option, Ran, [], arith, execute, false, here, if◌then◌else◌, inl, ltb, none, refl, some,
  sum_below, ℕ, ◌==◌, ◌∷◌, ◌≡◌, ◌≤◌,
}
use go_concurrency_examples.Semaphore.{
  Job, Semaphore, Step, System, acquire, acquires, acquiring, act, after_acquire, goroutine,
  holding, in_use, initial, new, next_job, release, tries, try_acquire, capacity,
}
use go_concurrency_examples.Semaphore.Permits.{holds, semaphore_limit}

abbrev single : Semaphore
single = record { limit = 1; permits = 0 }

made_single : new (pos 1) ≡ inl single
unfolding new
made_single = refl

abbrev work : ℕ → List Job
work i = if i == 0 then acquires ∷ [] else tries ∷ acquires ∷ []

abbrev turn : ℕ → System → Option System
turn id s = if ltb id 2 then act id false (s.pc id) s else none

turn-Step : (id : ℕ) (s t : System) → turn id s ≡ some t → Step 2 s t
turn-Step id s t e = goroutine id false (ground arith) (ground arith)

-- Caller 0 holds the slot, caller 1 fails to take it at once, and waits.
abbrev full : Ran (Step 2) (initial single work)
full =
    execute turn turn-Step (record { last = initial single work; reach = here })
      (0 ∷ 0 ∷ 1 ∷ 1 ∷ 1 ∷ [])

full_places : (full.last.pc 0 ≡ holding) × (full.last.pc 1 ≡ acquiring)
unfolding execute act initial next_job acquire try_acquire after_acquire release
full_places = (refl, refl)

semaphore_limit_example :
    (in_use full.last.semaphore ≡ sum_below (λ i. holds (full.last.pc i)) 2)
    × (sum_below (λ i. holds (full.last.pc i)) 2 ≤ 1)
    × (capacity full.last.semaphore ≡ 1)
    × (full.last.misreleases ≡ 0)
semaphore_limit_example = semaphore_limit (pos 1) single work made_single full.reach

full_stuck : act 1 false (full.last.pc 1) full.last ≡ none
unfolding execute act initial next_job acquire try_acquire after_acquire release
full_stuck = refl
