-- ===== src/Pipeline/Progress.antt =====
-- The pipeline of examples/pipeline ends: no schedule goes on for ever, and none gets stuck before
-- all goroutines have returned.
use go_concurrency_examples.Base.Int.{ℤ}
use go_concurrency_examples.Base.{
  Bool, List, Option, Reach, Reach-inv, arith, is_some, length, none, not, some, steps, steps-le,
  to_num, true, ℕ, ◌*◌, ◌+◌, ◌<◌, ◌≡◌, ◌≤◌,
}
use go_concurrency_examples.Pipeline.{
  Choice, Stage, Step, System, act, cancel, closed, collect_done, collect_end, end_source,
  end_stage, filter_done, filter_end, filter_send, goroutine, initial, is_closed, map_done, map_end,
  map_send, receiving, send_filter, send_map, send_source, sending, source_done, source_end,
  source_send, when_done,
}

-- Channels are closed downstream only after upstream, unless the context is done.
abbrev Quiet : System → Type 0
Quiet s =
    s.ctx ≡ none
    → (is_some s.result ≡ true → s.map_at ≡ closed)
      × (s.map_at ≡ closed → s.filter_at ≡ closed)
      × (s.filter_at ≡ closed → s.source ≡ none)

-- The steps that are left: for Source and its values, for a stage, and in all.
abbrev source_work : Option (List ℤ) → ℕ
source_work none = 0
source_work (some values) = 1 + 3 * length values

abbrev stage_work : ℕ → Stage → ℕ
stage_work here_to_end receiving = 1
stage_work here_to_end (sending value) = 1 + here_to_end
stage_work here_to_end closed = 0

abbrev work : System → ℕ
work s =
    source_work s.source
    + stage_work 2 s.filter_at
    + stage_work 1 s.map_at
    + to_num (not (is_some s.result))
    + to_num (not (is_some s.ctx))

module _ (keep : Option (ℤ → Bool)) (mapper : Option (ℤ → ℤ)) where
  act-Quiet :
      (c : Choice) (s t : System)
      → act keep mapper c s ≡ some t
      → Quiet s
      → Quiet t × (work t < work s)
  unfolding act when_done is_closed end_source end_stage send_source send_filter send_map
  act-Quiet source_done s t e q = ground arith
  act-Quiet source_end s t e q = ground arith
  act-Quiet source_send s t e q = ground arith
  act-Quiet filter_done s t e q = ground arith
  act-Quiet filter_end s t e q = ground arith
  act-Quiet filter_send s t e q = ground arith
  act-Quiet map_done s t e q = ground arith
  act-Quiet map_end s t e q = ground arith
  act-Quiet map_send s t e q = ground arith
  act-Quiet collect_done s t e q = ground arith
  act-Quiet collect_end s t e q = ground arith

  Step-Quiet : (s t : System) → Step keep mapper s t → Quiet s → Quiet t
  Step-Quiet s t (goroutine c e) q = (act-Quiet c s t e q).0
  Step-Quiet s t (cancel err free e) q = ground arith

  Step-work : (s t : System) → Step keep mapper s t → Quiet s → work t < work s
  Step-work s t (goroutine c e) q = (act-Quiet c s t e q).1
  Step-work s t (cancel err free e) q = ground arith

  stuck-returned :
      (s : System)
      → Quiet s
      → ((c : Choice) → act keep mapper c s ≡ none)
      → (s.source ≡ none) × (s.filter_at ≡ closed) × (s.map_at ≡ closed) × (is_some s.result ≡ true)
  unfolding act when_done is_closed end_source end_stage send_source send_filter send_map
  stuck-returned s q stuck = ground (
    arith,
    q,
    stuck source_done,
    stuck source_end,
    stuck source_send,
    stuck filter_done,
    stuck filter_end,
    stuck filter_send,
    stuck map_done,
    stuck map_end,
    stuck map_send,
    stuck collect_done,
    stuck collect_end,
  )

  initial-Quiet : (values : List ℤ) → Quiet (initial values)
  unfolding initial
  initial-Quiet values h = ground arith

  -- Every schedule of a pipeline ends, after at most three steps for each value of the input and six
  -- more, and where no goroutine can take a step, all of them have returned, Collect with a result:
  -- no goroutine stays blocked on a channel, whether the context was canceled or not.
  pub pipeline_finishes :
      (values : List ℤ) {t : System} (r : Reach (Step keep mapper) (initial values) t)
      → (steps r ≤ 3 * length values + 6)
        × (((c : Choice) → act keep mapper c t ≡ none)
            → (t.source ≡ none)
              × (t.filter_at ≡ closed)
              × (t.map_at ≡ closed)
              × (is_some t.result ≡ true))
  unfolding initial
  pipeline_finishes values {t} r = (
    omega (arith, steps-le Quiet work Step-Quiet Step-work (initial-Quiet values) r),
    λ stuck. stuck-returned t (Reach-inv Quiet Step-Quiet (initial-Quiet values) r) stuck,
  )
