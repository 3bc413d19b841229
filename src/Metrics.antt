-- ===== src/Metrics.antt =====
-- examples/atomiccounter/metrics.go. Every atomic operation is one step. A caller starts a request
-- and ends it, so that `in_flight` is at least 1 where it is lowered and `-` does not stop at 0.
mod Peak
mod Tests
use go_concurrency_examples.Base.{
  List, Option, [], if◌then◌else◌, leb, none, some, suc, update, ℕ, ◌-◌, ◌<◌, ◌==◌, ◌∷◌, ◌≡◌,
}

pub record Metrics : Type 0 where
  pub requests : ℕ
  pub success : ℕ
  pub failure : ℕ
  pub in_flight : ℕ
  pub peak : ℕ

pub data Outcome : Type 0 where
  succeeds fails : Outcome

-- A place in `Start` or after it, in a request that is going to end in this way: `observing` and
-- `swapping` are before the load and the compare-and-swap of `recordPeak`.
pub data Pc : Type 0 where
  outside : Pc
  starting : Outcome → Pc
  observing : Outcome → ℕ → Pc
  swapping : Outcome → ℕ → ℕ → Pc
  active : Outcome → Pc
  ending : Pc

-- `most` records, for the statements, the highest value that `inFlight` has had.
pub record System : Type 0 where
  pub metrics : Metrics
  pub pc : ℕ → Pc
  pub jobs : ℕ → List Outcome
  pub most : ℕ

pub next_request : ℕ → List Outcome → System → Option System
next_request id [] s = none
next_request id (o ∷ rest) s =
    let m = record (s.metrics) { requests = suc s.metrics.requests } in
    some (record s { metrics = m; pc = update s.pc id (starting o); jobs = update s.jobs id rest })

-- `Succeed` and `Fail`, up to their second operation.
pub finish : Outcome → Metrics → Metrics
finish succeeds m = record m { success = suc m.success }
finish fails m = record m { failure = suc m.failure }

abbrev larger : ℕ → ℕ → ℕ
larger a b = if leb a b then b else a

pub act : ℕ → Pc → System → Option System
unfolding next_request finish
act id outside s = next_request id (s.jobs id) s
act id (starting o) s =
    let value = suc s.metrics.in_flight in
    some (record s {
      metrics = record (s.metrics) { in_flight = value };
      pc = update s.pc id (observing o value);
      most = larger s.most value;
    })
act id (observing o value) s =
    let p = if leb value s.metrics.peak then active o else swapping o value s.metrics.peak in
    some (record s { pc = update s.pc id p })
act id (swapping o value current) s =
    if s.metrics.peak == current
    then some
        (record s { metrics = record (s.metrics) { peak = value }; pc = update s.pc id (active o) })
    else some (record s { pc = update s.pc id (observing o value) })
act id (active o) s = some (record s { metrics = finish o s.metrics; pc = update s.pc id ending })
act id ending s =
    let m = record (s.metrics) { in_flight = s.metrics.in_flight - 1 } in
    some (record s { metrics = m; pc = update s.pc id outside })

pub data Step (n : ℕ) (s t : System) : Type 0 where
  goroutine : (id : ℕ) → id < n → act id (s.pc id) s ≡ some t → Step n s t

pub zero_metrics : Metrics
zero_metrics = record { requests = 0; success = 0; failure = 0; in_flight = 0; peak = 0 }

pub initial : (ℕ → List Outcome) → System
unfolding zero_metrics
initial jobs = record { metrics = zero_metrics; pc = λ _. outside; jobs = jobs; most = 0 }
