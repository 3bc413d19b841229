-- ===== src/Pipeline/Tests.antt =====
-- Two values through the pipeline of `Run`, of which the filter accepts one.
use go_concurrency_examples.Base.Int.{ℤ, pos, negsuc, mul64, wrap, ◌*ℤ◌}
use go_concurrency_examples.Base.{
  Bool, CtxError, List, Option, Ran, [], execute, here, inr, is_some, length, none, refl, some,
  steps, true, ◌*◌, ◌+◌, ◌∷◌, ◌≡◌, ◌≤◌,
}
use go_concurrency_examples.Pipeline.{
  Choice, Step, act, closed, collect_end, end_source, end_stage, filter_end, filter_send, goroutine,
  initial, is_closed, map_end, map_send, positive, run, send_filter, send_map, send_source,
  source_end, source_send, square, when_done,
}
use go_concurrency_examples.Pipeline.Flow.{IsPrefix, expected}
use go_concurrency_examples.Pipeline.Progress.{pipeline_finishes}
use go_concurrency_examples.Pipeline.Order.{pipeline_order}

abbrev input : List ℤ
input = negsuc 1 ∷ pos 3 ∷ []

abbrev keep_positive : Option (ℤ → Bool)
keep_positive = some positive

abbrev squares : Option (ℤ → ℤ)
squares = some square

-- `Run` with a context that is not done starts the goroutines.
run_starts : run none input ≡ inr (initial input)
unfolding run
run_starts = refl

abbrev play : List Choice → Ran (Step keep_positive squares) (initial input)
play cs =
    execute (act keep_positive squares) (λ c s t e. goroutine c e)
      (record { last = initial input; reach = here }) cs

abbrev whole_run : Ran (Step keep_positive squares) (initial input)
whole_run = play (
    source_send ∷ source_send ∷ filter_send ∷ map_send ∷ source_end ∷ filter_end ∷ map_end
    ∷ collect_end ∷ [])

whole_result : whole_run.last.result ≡ some (pos 9 ∷ [], none)
unfolding execute act initial when_done is_closed end_source end_stage send_source send_filter
    send_map positive square mul64 wrap ◌*ℤ◌
whole_result = refl

pipeline_order_example :
    IsPrefix (pos 9 ∷ []) (expected keep_positive squares input)
    × (◌≡◌ {A = Option CtxError} none none → pos 9 ∷ [] ≡ expected keep_positive squares input)
pipeline_order_example =
    pipeline_order keep_positive squares input whole_run.reach (pos 9 ∷ []) none whole_result

pipeline_finishes_example :
    (steps whole_run.reach ≤ 3 * length input + 6)
    × (((c : Choice) → act keep_positive squares c whole_run.last ≡ none)
        → (whole_run.last.source ≡ none)
          × (whole_run.last.filter_at ≡ closed)
          × (whole_run.last.map_at ≡ closed)
          × (is_some whole_run.last.result ≡ true))
pipeline_finishes_example = pipeline_finishes keep_positive squares input whole_run.reach
