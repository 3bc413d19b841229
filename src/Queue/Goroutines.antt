-- ===== src/Queue/Goroutines.antt =====
-- Goroutines that call `Enqueue`, `Dequeue` and `Close` of examples/boundedqueue/queue.go on one
-- queue, and the waits, signals and broadcasts on its condition variables.
pub mod Order
pub mod Wakeups
pub mod Stuck
mod Tests
use go_concurrency_examples.Queue.{Queue, added, taken, enqueue, dequeue, close, Enqueued, Dequeued}
use go_concurrency_examples.Base.{
  Bool, List, Option, [], false, if◌then◌else◌, ltb, none, some, sum_below, to_num, true, update, ℕ,
  ◌&&◌, ◌++◌, ◌<◌, ◌==◌, ◌∷◌, ◌≡◌,
}

-- Where a goroutine stands: between calls, about to take the mutex (at first, or woken from a
-- wait), waiting, or, in `Close`, before the one broadcast or the other.
pub data Pc (A : Type 0) : Type 0 where
  idle : Pc A
  enqueueing : A → Pc A
  waiting_not_full : A → Pc A
  dequeueing : Pc A
  waiting_not_empty : Pc A
  closing : Pc A
  waking_not_full : Pc A
  waking_not_empty : Pc A

pub data Job (A : Type 0) : Type 0 where
  enqueues : A → Job A
  dequeues : Job A
  closes : Job A

-- `sent` and `received` are the items that `Enqueue` accepted and `Dequeue` returned, in order.
pub record System (A : Type 0) : Type 0 where
  pub queue : Queue A
  pub pc : ℕ → Pc A
  pub jobs : ℕ → List (Job A)
  pub sent : List A
  pub received : List A

module _ {A : Type 0} where
  abbrev pub waits_not_full : Pc A → Bool
  waits_not_full (waiting_not_full x) = true
  waits_not_full _ = false

  abbrev pub waits_not_empty : Pc A → Bool
  waits_not_empty waiting_not_empty = true
  waits_not_empty _ = false

  -- A goroutine that is woken takes the mutex again and tests the condition of its loop.
  abbrev pub woken : Pc A → Pc A
  woken (waiting_not_full x) = enqueueing x
  woken waiting_not_empty = dequeueing
  woken p = p

  abbrev pub waiters : (Pc A → Bool) → ℕ → (ℕ → Pc A) → ℕ
  waiters waits n pc = sum_below (λ i. to_num (waits (pc i))) n

  -- `Signal` wakes one goroutine that waits, if there is one: the one that the scheduler names.
  pub signal : (Pc A → Bool) → ℕ → ℕ → (ℕ → Pc A) → Option (ℕ → Pc A)
  signal waits n wake pc =
      if waiters waits n pc == 0
      then some pc
      else (if ltb wake n && waits (pc wake) then some (update pc wake (woken (pc wake))) else none)

  pub broadcast : (Pc A → Bool) → (ℕ → Pc A) → ℕ → Pc A
  broadcast waits pc i = if waits (pc i) then woken (pc i) else pc i

  after_enqueue : ℕ → ℕ → ℕ → A → Enqueued A → System A → Option (System A)
  after_enqueue n wake id x Enqueued.must_wait s =
      some (record s { pc = update s.pc id (waiting_not_full x) })
  after_enqueue n wake id x (Enqueued.refused e) s = some (record s { pc = update s.pc id idle })
  after_enqueue n wake id x (added q) s =
      elim (signal waits_not_empty n wake (update s.pc id idle)) [
        | none ↦ none
        | some pc ↦ some (record s { queue = q; pc = pc; sent = s.sent ++ x ∷ [] })
      ]

  after_dequeue : ℕ → ℕ → ℕ → Dequeued A → System A → Option (System A)
  after_dequeue n wake id Dequeued.must_wait s =
      some (record s { pc = update s.pc id waiting_not_empty })
  after_dequeue n wake id (Dequeued.refused e) s = some (record s { pc = update s.pc id idle })
  after_dequeue n wake id (taken x q) s =
      elim (signal waits_not_full n wake (update s.pc id idle)) [
        | none ↦ none
        | some pc ↦ some (record s { queue = q; pc = pc; received = s.received ++ x ∷ [] })
      ]

  begin_job : ℕ → List (Job A) → System A → Option (System A)
  begin_job id [] s = none
  begin_job id (enqueues x ∷ rest) s =
      some (record s { pc = update s.pc id (enqueueing x); jobs = update s.jobs id rest })
  begin_job id (dequeues ∷ rest) s =
      some (record s { pc = update s.pc id dequeueing; jobs = update s.jobs id rest })
  begin_job id (closes ∷ rest) s =
      some (record s { pc = update s.pc id closing; jobs = update s.jobs id rest })

  -- The next step of goroutine `id`; a goroutine that waits has none until it is woken.
  pub act : ℕ → ℕ → ℕ → Pc A → System A → Option (System A)
  unfolding signal after_enqueue after_dequeue begin_job broadcast enqueue dequeue close
  act n wake id idle s = begin_job id (s.jobs id) s
  act n wake id (enqueueing x) s = after_enqueue n wake id x (enqueue x s.queue) s
  act n wake id dequeueing s = after_dequeue n wake id (dequeue s.queue) s
  act n wake id closing s =
      let (q, first_time) = close s.queue in
      let p = if first_time then waking_not_full else idle in
      some (record s { queue = q; pc = update s.pc id p })
  act n wake id waking_not_full s =
      some (record s { pc = broadcast waits_not_full (update s.pc id waking_not_empty) })
  act n wake id waking_not_empty s =
      some (record s { pc = broadcast waits_not_empty (update s.pc id idle) })
  act n wake id (waiting_not_full x) s = none
  act n wake id waiting_not_empty s = none

pub data Step {A : Type 0} (n : ℕ) (s t : System A) : Type 0 where
  goroutine : (id wake : ℕ) → id < n → act n wake id (s.pc id) s ≡ some t → Step n s t

pub initial : {A : Type 0} → Queue A → (ℕ → List (Job A)) → System A
initial q jobs = record { queue = q; pc = λ _. idle; jobs = jobs; sent = []; received = [] }
