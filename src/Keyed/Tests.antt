-- ===== src/Keyed/Tests.antt =====
-- Two goroutines that lock the key "a", and one that locks "b".
use go_concurrency_examples.Base.Dict.{lookup, insert, delete}
use go_concurrency_examples.Base.{
  List, Option, Ran, String, [], arith, execute, false, here, if◌then◌else◌, leb, ltb, none, refl,
  some, suc, zero, ℕ, ◌<◌, ◌↔◌, ◌∷◌, ◌≡◌, ◌≢◌,
}
use go_concurrency_examples.Keyed.Exclusion.{is_using, key_exclusion, key_registry_exact}
use go_concurrency_examples.Keyed.{
  Step, System, acquire_entry, acquire_existing, act, check_lock, goroutine, holding, initial,
  locking, new, next_lock, outside, release_entry,
}

abbrev work : ℕ → List String
work i = if leb i 1 then "a" ∷ [] else "b" ∷ "" ∷ []

abbrev turn : ℕ → System → Option System
turn id s = if ltb id 3 then act id (s.pc id) s else none

turn-Step : (id : ℕ) (s t : System) → turn id s ≡ some t → Step 3 s t
turn-Step id s t e = goroutine id (ground arith) (ground arith)

abbrev play : List ℕ → Ran (Step 3) (initial work)
play ids = execute turn turn-Step (record { last = initial work; reach = here }) ids

-- Goroutine 0 holds "a", goroutine 1 waits for it, goroutine 2 holds "b".
abbrev contended : Ran (Step 3) (initial work)
contended = play (0 ∷ 0 ∷ 0 ∷ 1 ∷ 1 ∷ 2 ∷ 2 ∷ 2 ∷ [])

contended_places :
    (contended.last.pc 0 ≡ holding "a" 0)
    × (contended.last.pc 1 ≡ locking "a" 0)
    × (contended.last.pc 2 ≡ holding "b" 1)
unfolding execute act initial new lookup insert next_lock check_lock acquire_entry acquire_existing
contended_places = (refl, refl, refl)

key_exclusion_example : contended.last.pc 1 ≢ holding "a" 0
key_exclusion_example =
    key_exclusion work contended.reach "a" 0 1 0 0 (omega arith) (omega arith) (omega arith)
      contended_places.0

key_registry_exact_example :
    (lookup "a" contended.last.locker.locks ≡ none)
    ↔ ((i : ℕ) → i < 3 → is_using "a" (contended.last.pc i) ≡ false)
key_registry_exact_example = key_registry_exact work contended.reach "a"

waiting_stuck : act 1 (contended.last.pc 1) contended.last ≡ none
unfolding execute act initial new lookup insert next_lock check_lock acquire_entry acquire_existing
waiting_stuck = refl

-- All of them release, and the third is refused the empty key.
abbrev drained : Ran (Step 3) (initial work)
drained = play (0 ∷ 0 ∷ 0 ∷ 1 ∷ 1 ∷ 2 ∷ 2 ∷ 2 ∷ 0 ∷ 0 ∷ 1 ∷ 1 ∷ 1 ∷ 2 ∷ 2 ∷ 2 ∷ [])

drained_places : (i : ℕ) → i < 3 → drained.last.pc i ≡ outside
unfolding execute act initial new lookup insert delete next_lock check_lock acquire_entry
    acquire_existing release_entry
drained_places zero lt = refl
drained_places (suc zero) lt = refl
drained_places (suc (suc zero)) lt = refl
drained_places (suc (suc (suc i))) lt = absurd (omega arith)
