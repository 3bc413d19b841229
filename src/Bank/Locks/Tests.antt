-- ===== src/Bank/Locks/Tests.antt =====
-- Two opposite transfers of examples/bankaccount that run at once.
use go_concurrency_examples.Bank.Locks.{
  Step, Job, System, act, both_held, goroutine, initial, lock_order, transfers,
}
use go_concurrency_examples.Base.{
  All, List, Option, Ran, [], arith, execute, here, if◌then◌else◌, ltb, none, refl, some, ℕ, ◌+◌,
  ◌<◌, ◌==◌, ◌∷◌, ◌≡◌, ◌⊎◌,
}
use go_concurrency_examples.Bank.Locks.Progress.{Distinct, IsDone, bank_progress}

-- Account `a` has the number `a + 1`, as `New` numbers them.
abbrev numbers : ℕ → ℕ
numbers a = if ltb a 9 then a + 1 else 0

abbrev opposite : ℕ → List Job
opposite i = if i == 0 then transfers 0 1 ∷ [] else (if i == 1 then transfers 1 0 ∷ [] else [])

abbrev turn : ℕ → System → Option System
turn id s = if ltb id 2 then act numbers id (s.pc id) s else none

turn-Step : (id : ℕ) (s t : System) → turn id s ≡ some t → Step numbers 2 s t
turn-Step id s t e = goroutine id (ground arith) (ground arith)

-- Both have begun, and the first holds account 0.
abbrev crossing : Ran (Step numbers 2) (initial opposite)
crossing =
    execute turn turn-Step (record { last = initial opposite; reach = here })
      (0 ∷ 1 ∷ 0 ∷ 1 ∷ 0 ∷ [])

opposite-Distinct : (i : ℕ) → All (Distinct numbers) (opposite i)
opposite-Distinct i = ground arith

bank_progress_example :
    ((i : ℕ) → i < 2 → IsDone crossing.last i)
    ⊎ ((i : ℕ) × (i < 2)
        × (t : System) × (act numbers i (crossing.last.pc i) crossing.last ≡ some t))
bank_progress_example =
    bank_progress {n = 2} {bound = 10} numbers opposite (λ a. ground arith) opposite-Distinct
      crossing.reach

crossing_place : crossing.last.pc 0 ≡ both_held 0 1
unfolding execute act initial lock_order
crossing_place = refl
