-- ===== src/Batcher/Tests.antt =====
-- Three items in batches of at most two.
use go_concurrency_examples.Base.{
  All, List, Option, Ran, [], arith, execute, here, none, refl, steps, ℕ, ◌∷◌, ◌≡◌, ◌≤◌,
}
use go_concurrency_examples.Batcher.{
  Batcher, Choice, Step, act, ended, fire, flush, goroutine, initial, receive, send, take_item,
}
use go_concurrency_examples.Batcher.Batches.{Fits, IsPrefix, concat}
use go_concurrency_examples.Batcher.Joined.{batches_bounded, batches_join}

abbrev items : List ℕ
items = 5 ∷ 6 ∷ 7 ∷ []

abbrev turn : Choice → Batcher ℕ → Option (Batcher ℕ)
turn x b = act 2 b.pc x b

abbrev play : List Choice → Ran (Step 2) (initial items)
play xs = execute turn (λ x b c e. goroutine x e) (record { last = initial items; reach = here }) xs

-- A full batch is sent, and the timer fires for the last item before the input is closed.
abbrev timed_out : Ran (Step 2) (initial items)
timed_out = play (receive ∷ receive ∷ send ∷ receive ∷ fire ∷ send ∷ receive ∷ [])

timed_out_batches :
    (timed_out.last.emitted ≡ (5 ∷ 6 ∷ []) ∷ (7 ∷ []) ∷ []) × (timed_out.last.pc ≡ ended)
unfolding execute act initial take_item flush
timed_out_batches = (refl, refl)

timed_out_ended : (timed_out.last.pc ≡ ended) × (timed_out.last.ctx ≡ none)
unfolding execute act initial flush take_item
timed_out_ended = (refl, refl)

batches_join_example : concat timed_out.last.emitted ≡ items
batches_join_example =
    batches_join items 2 (omega arith) timed_out.reach timed_out_ended.0 timed_out_ended.1

batches_bounded_example :
    (steps timed_out.reach ≤ 11)
    × IsPrefix (concat timed_out.last.emitted) items
    × All (Fits 2) timed_out.last.emitted
batches_bounded_example = batches_bounded items 2 (omega arith) timed_out.reach
