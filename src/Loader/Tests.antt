-- ===== src/Loader/Tests.antt =====
-- Three calls of Get, the first of which loads.
use go_concurrency_examples.Base.{
  All, Option, Ran, [], arith, execute, here, if◌then◌else◌, ltb, none, refl, some, ℕ, ◌+◌, ◌∷◌,
  ◌≡◌, ◌≤◌,
}
use go_concurrency_examples.Loader.{
  Choice, Loader, Step, act, call_get, caller, get, go_on, goroutine, new_loader, once_do, turn,
}
use go_concurrency_examples.Loader.Runs.{loader_once}

abbrev load : ℕ → ℕ × Option ℕ
load k = (k + 42, none)

abbrev move : Choice → Loader ℕ ℕ → Option (Loader ℕ ℕ)
move x l = if ltb (caller x) 2 then act load x l else none

move-Step : (x : Choice) (l m : Loader ℕ ℕ) → move x l ≡ some m → Step load 2 l m
move-Step x l m e = goroutine x (ground (arith, e)) (ground (arith, e))

abbrev loaded : Ran (Step load 2) (new_loader {V = ℕ} {E = ℕ} 0)
loaded =
    execute move move-Step (record { last = new_loader 0; reach = here })
      (get 0 ∷ turn 0 ∷ get 1 ∷ turn 1 ∷ turn 0 ∷ get 1 ∷ turn 1 ∷ [])

loaded_returned :
    (loaded.last.returned ≡ (42, none) ∷ (42, none) ∷ (42, none) ∷ []) × (loaded.last.runs ≡ 1)
unfolding execute act new_loader call_get once_do go_on
loaded_returned = (refl, refl)

-- A call waits while another one loads.
abbrev loading_one : Ran (Step load 2) (new_loader {V = ℕ} {E = ℕ} 0)
loading_one = execute move move-Step (record { last = new_loader 0; reach = here }) (get 0 ∷ [])

get_blocks : act load (get 1) loading_one.last ≡ none
unfolding execute act new_loader call_get once_do
get_blocks = refl

loader_once_example : (loaded.last.runs ≤ 1) × All (λ x. x ≡ load 0) loaded.last.returned
loader_once_example = loader_once load 0 loaded.reach
