-- ===== src/Flight/Tests.antt =====
-- Two goroutines that ask for one key.
use go_concurrency_examples.Base.Dict.{lookup, insert}
use go_concurrency_examples.Base.{
  List, Option, Ran, String, [], arith, execute, here, if◌then◌else◌, ltb, none, refl, some, ℕ, ◌+◌,
  ◌∷◌, ◌≡◌, ◌≢◌,
}
use go_concurrency_examples.Flight.Sharing.{flight_one_run}
use go_concurrency_examples.Flight.{
  Step, System, act, check, following, initial, join, next_do, running, goroutine,
}

abbrev answer : ℕ → String → ℕ
answer id key = 40 + id

abbrev work : ℕ → List String
work i = "a" ∷ []

abbrev turn : ℕ → System ℕ → Option (System ℕ)
turn id s = if ltb id 2 then act answer id (s.pc id) s else none

turn-Step : (id : ℕ) (s t : System ℕ) → turn id s ≡ some t → Step answer 2 s t
turn-Step id s t e = goroutine id (ground arith) (ground arith)

-- Goroutine 0 runs its function, and goroutine 1 waits for it.
abbrev shared_run : Ran (Step answer 2) (initial work)
shared_run =
    execute turn turn-Step (record { last = initial work; reach = here }) (0 ∷ 0 ∷ 1 ∷ 1 ∷ [])

shared_run_places :
    (shared_run.last.pc 0 ≡ running "a" 0) × (shared_run.last.pc 1 ≡ following "a" 0)
unfolding execute act initial next_do join check lookup insert
shared_run_places = (refl, refl)

flight_one_run_example : shared_run.last.pc 1 ≢ running "a" 0
flight_one_run_example =
    flight_one_run answer work shared_run.reach "a" 0 0 0 1 (omega arith) (omega arith)
      (omega arith) shared_run_places.0

follower_stuck : act answer 1 (shared_run.last.pc 1) shared_run.last ≡ none
unfolding execute act initial next_do join check lookup insert
follower_stuck = refl
