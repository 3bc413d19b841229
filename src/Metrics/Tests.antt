-- ===== src/Metrics/Tests.antt =====
-- Two requests in flight at once, whose goroutines race in recordPeak.
use go_concurrency_examples.Base.{
  List, Option, Ran, [], arith, execute, here, if◌then◌else◌, ltb, none, refl, some, ℕ, ◌<◌, ◌==◌,
  ◌∷◌, ◌≡◌, ◌≤◌, ◌⊎◌,
}
use go_concurrency_examples.Metrics.{
  Outcome, Step, System, act, fails, finish, goroutine, initial, next_request, succeeds,
  zero_metrics,
}
use go_concurrency_examples.Metrics.Peak.{metrics_peak, records}

abbrev work : ℕ → List Outcome
work i = if i == 0 then succeeds ∷ [] else fails ∷ []

abbrev turn : ℕ → System → Option System
turn id s = if ltb id 2 then act id (s.pc id) s else none

turn-Step : (id : ℕ) (s t : System) → turn id s ≡ some t → Step 2 s t
turn-Step id s t e = goroutine id (ground arith) (ground arith)

-- Both load the peak 0; goroutine 1 sets it to 2, and goroutine 0 fails to set it to 1.
abbrev raced : Ran (Step 2) (initial work)
raced =
    execute turn turn-Step (record { last = initial work; reach = here })
      (0 ∷ 1 ∷ 0 ∷ 1 ∷ 0 ∷ 1 ∷ 1 ∷ 0 ∷ 0 ∷ 0 ∷ 0 ∷ [])

raced_counts : (raced.last.metrics.peak ≡ 2) × (raced.last.metrics.in_flight ≡ 1)
unfolding execute act initial next_request finish zero_metrics
raced_counts = (refl, refl)

metrics_peak_example :
    (raced.last.metrics.peak ≤ raced.last.most)
    × ((raced.last.metrics.peak ≡ raced.last.most)
        ⊎ ((i : ℕ) × (i < 2) × (records raced.last.most (raced.last.pc i) ≡ 1)))
metrics_peak_example = metrics_peak work raced.reach
