-- ===== src/Pipeline.antt =====
-- examples/pipeline/pipeline.go. The goroutines of Source, Filter and Map, and the loop of Collect,
-- joined by unbuffered channels: a send and the receive that it meets are one step.
mod Flow
mod Order
mod Progress
mod Tests
use go_concurrency_examples.Base.Int.{ℤ, pos, ltb_ℤ, mul64}
use go_concurrency_examples.Base.{
  Bool, Context, CtxError, List, Option, [], false, if◌then◌else◌, inl, inr, is_some, none, not,
  some, true, ◌&&◌, ◌++◌, ◌∷◌, ◌≡◌, ◌⊎◌,
}

-- A stage that receives from the channel before it and sends to its own, which it closes at its
-- end: it waits for a value, or has one to send, or has returned.
pub data Stage : Type 0 where
  receiving : Stage
  sending : ℤ → Stage
  closed : Stage

-- `source` is what Source has still to send, `none` once it has returned; `result` is what Collect
-- returned.
pub record System : Type 0 where
  pub source : Option (List ℤ)
  pub filter_at : Stage
  pub map_at : Stage
  pub collected : List ℤ
  pub result : Option (List ℤ × Option CtxError)
  pub ctx : Context

-- What a goroutine does next: a `done` is the case of its select that a done context makes ready,
-- an `end` its return where its input is at an end, a `send` one value handed to the next stage.
pub data Choice : Type 0 where
  source_done source_end source_send filter_done filter_end filter_send : Choice
  map_done map_end map_send collect_done collect_end : Choice

-- A nil `keep` accepts every value.
pub keeps : Option (ℤ → Bool) → ℤ → Bool
keeps none value = true
keeps (some keep) value = keep value

-- A nil `mapper` returns values unchanged.
pub mapped : Option (ℤ → ℤ) → ℤ → ℤ
mapped none value = value
mapped (some mapper) value = mapper value

-- A case `<-ctx.Done()`, in a goroutine that has not returned.
pub when_done : Context → Bool → System → Option System
when_done none at_select s = none
when_done (some e) at_select s = if at_select then some s else none

-- Whether a stage has returned, so that its channel is closed.
pub is_closed : Stage → Bool
is_closed receiving = false
is_closed (sending value) = false
is_closed closed = true

pub end_source : Option (List ℤ) → System → Option System
end_source none s = none
end_source (some []) s = some (record s { source = none })
end_source (some (value ∷ rest)) s = none

-- `filter_end` and `map_end`: the input channel is closed, and the stage receives.
pub end_stage : Bool → Stage → System → Option System
end_stage input_closed receiving s = if input_closed then some s else none
end_stage input_closed (sending value) s = none
end_stage input_closed closed s = none

pub send_source : Option (ℤ → Bool) → Option (List ℤ) → Stage → System → Option System
unfolding keeps
send_source keep (some (value ∷ rest)) receiving s =
    let next_stage = if keeps keep value then sending value else receiving in
    some (record s { source = some rest; filter_at = next_stage })
send_source keep (some (value ∷ rest)) (sending w) s = none
send_source keep (some (value ∷ rest)) closed s = none
send_source keep (some []) stage s = none
send_source keep none stage s = none

pub send_filter : Option (ℤ → ℤ) → Stage → Stage → System → Option System
unfolding mapped
send_filter mapper (sending value) receiving s =
    some (record s { filter_at = receiving; map_at = sending (mapped mapper value) })
send_filter mapper (sending value) (sending w) s = none
send_filter mapper (sending value) closed s = none
send_filter mapper receiving stage s = none
send_filter mapper closed stage s = none

-- The loop of Collect takes a value, unless it has returned.
pub send_map : Stage → Bool → System → Option System
send_map (sending value) returned s =
    if returned
    then none
    else some (record s { map_at = receiving; collected = s.collected ++ value ∷ [] })
send_map receiving returned s = none
send_map closed returned s = none

module _ (keep : Option (ℤ → Bool)) (mapper : Option (ℤ → ℤ)) where
  pub act : Choice → System → Option System
  unfolding when_done is_closed end_source end_stage send_source send_filter send_map
  act source_done s = when_done s.ctx (is_some s.source) (record s { source = none })
  act source_end s = end_source s.source s
  act source_send s = send_source keep s.source s.filter_at s
  act filter_done s =
      when_done s.ctx (not (is_closed s.filter_at)) (record s { filter_at = closed })
  act filter_end s =
      end_stage (not (is_some s.source)) s.filter_at (record s { filter_at = closed })
  act filter_send s = send_filter mapper s.filter_at s.map_at s
  act map_done s = when_done s.ctx (not (is_closed s.map_at)) (record s { map_at = closed })
  act map_end s = end_stage (is_closed s.filter_at) s.map_at (record s { map_at = closed })
  act map_send s = send_map s.map_at (is_some s.result) s
  act collect_done s =
      when_done s.ctx (not (is_some s.result)) (record s { result = some (s.collected, s.ctx) })
  act collect_end s =
      if is_closed s.map_at && not (is_some s.result)
      then some (record s { result = some (s.collected, s.ctx) })
      else none

pub data Step (keep : Option (ℤ → Bool)) (mapper : Option (ℤ → ℤ)) (s t : System) : Type 0 where
  goroutine : (c : Choice) → act keep mapper c s ≡ some t → Step keep mapper s t
  cancel : (e : CtxError) → s.ctx ≡ none → record s { ctx = some e } ≡ t → Step keep mapper s t

pub initial : List ℤ → System
initial values = record {
  source = some values;
  filter_at = receiving;
  map_at = receiving;
  collected = [];
  result = none;
  ctx = none;
}

pub positive : ℤ → Bool
positive value = ltb_ℤ (pos 0) value

pub square : ℤ → ℤ
square value = mul64 value value

-- `Run`: the result at once if the context is done, or else the goroutines at their start.
pub run : Context → List ℤ → (List ℤ × CtxError) ⊎ System
unfolding initial
run (some e) values = inl ([], e)
run none values = inr (initial values)
