-- ===== src/Timeout/Tests.antt =====
-- A work that returns 7, and its runs with and without a timeout.
use go_concurrency_examples.Base.{
  Context, List, Option, Ran, [], execute, here, is_some, none, refl, some, true, ℕ, ◌∷◌, ◌≡◌, ◌⊎◌,
  deadline_exceeded,
}
use go_concurrency_examples.Timeout.{
  Choice, Error, Run, Step, act, answer_of, ctx_error, ended, give_up, go_on, goroutine, initial,
  on_ctx, receive, returned, send_result, sending, take_result, worker_turn, observe,
}
use go_concurrency_examples.Timeout.Results.{IsAnswer, timeout_no_leak, timeout_result}

abbrev work : Context → ℕ × Option ℕ
work none = (7, none)
work (some e) = (0, some 1)

abbrev play : (s : Run ℕ ℕ) → List Choice → Ran (Step 0 work) s
play s xs =
    execute (λ x s. act 0 work x s) (λ x s t e. goroutine x e) (record { last = s; reach = here })
      xs

abbrev in_time : Ran (Step 0 work) (initial {V = ℕ} {E = ℕ} none)
in_time = play (initial none) (worker_turn ∷ worker_turn ∷ receive ∷ [])

in_time_answer : (in_time.last.main ≡ returned) × (in_time.last.answer ≡ some (7, none))
unfolding execute act initial observe go_on send_result take_result answer_of
in_time_answer = (refl, refl)

-- The context is done before the work has returned.
abbrev late : Ran (Step 0 work) (initial {V = ℕ} {E = ℕ} (some deadline_exceeded))
late = play (initial (some deadline_exceeded)) (on_ctx ∷ worker_turn ∷ [])

late_answer :
    (late.last.main ≡ returned)
    × (late.last.answer ≡ some (0, some (ctx_error deadline_exceeded)))
    × (late.last.worker ≡ sending (0, some 1))
unfolding execute act initial observe go_on give_up
late_answer = (refl, refl, refl)

timeout_result_example :
    (a : ℕ × Option (Error ℕ)) × (late.last.answer ≡ some a) × IsAnswer 0 work late.last a
timeout_result_example = timeout_result 0 work (some deadline_exceeded) late.reach late_answer.0

timeout_no_leak_example :
    (late.last.worker ≡ ended) ⊎ (is_some (act 0 work worker_turn late.last) ≡ true)
timeout_no_leak_example = timeout_no_leak 0 work (some deadline_exceeded) late.reach
