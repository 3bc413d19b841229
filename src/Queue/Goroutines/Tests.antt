-- ===== src/Queue/Goroutines/Tests.antt =====
-- One producer and one consumer on a queue of examples/boundedqueue that holds one item.
use go_concurrency_examples.Base.Int.{pos}
use go_concurrency_examples.Queue.Goroutines.{
  Step, Job, System, act, dequeues, enqueueing, enqueues, goroutine, initial, waiting_not_full,
}
use go_concurrency_examples.Base.{
  List, Option, Ran, [], arith, execute, false, here, if◌then◌else◌, inl, length, ltb, none, refl,
  some, suc, zero, ℕ, ◌++◌, ◌<◌, ◌==◌, ◌∷◌, ◌≡◌, ◌≤◌, sum_below,
}
use go_concurrency_examples.Queue.{Queue, new}
use go_concurrency_examples.Queue.Goroutines.Stuck.{Rests, queue_no_lost_wakeup}
use go_concurrency_examples.Queue.Goroutines.Order.{queue_fifo}

abbrev narrow : Queue ℕ
narrow = record { items = []; capacity = 1; closed = false }

made_narrow : new (pos 1) ≡ inl narrow
unfolding new
made_narrow = refl

abbrev work : ℕ → List (Job ℕ)
work i = if i == 0 then enqueues 7 ∷ enqueues 8 ∷ [] else (if i == 1 then dequeues ∷ [] else [])

abbrev turn : ℕ × ℕ → System ℕ → Option (System ℕ)
turn (id, wake) s = if ltb id 2 then act 2 wake id (s.pc id) s else none

turn-Step : (c : ℕ × ℕ) (s t : System ℕ) → turn c s ≡ some t → Step 2 s t
turn-Step (id, wake) s t e = goroutine id wake (ground arith) (ground arith)

abbrev play : List (ℕ × ℕ) → Ran (Step 2) (initial narrow work)
play cs = execute turn turn-Step (record { last = initial narrow work; reach = here }) cs

-- The producer fills the queue and waits; the consumer takes an item and wakes it.
abbrev handed_over : Ran (Step 2) (initial narrow work)
handed_over = play ((0, 0) ∷ (0, 0) ∷ (0, 0) ∷ (0, 0) ∷ (1, 0) ∷ (1, 0) ∷ [])

handed_over_received : (handed_over.last.received ≡ 7 ∷ []) × (handed_over.last.pc 0 ≡ enqueueing 8)
unfolding execute act initial sum_below
handed_over_received = (refl, refl)

queue_fifo_example :
    (handed_over.last.sent ≡ handed_over.last.received ++ handed_over.last.queue.items)
    × (length handed_over.last.queue.items ≤ 1)
queue_fifo_example = queue_fifo (pos 1) narrow work made_narrow handed_over.reach

-- A producer alone stops for good on the full queue.
abbrev alone_work : ℕ → List (Job ℕ)
alone_work i = if i == 0 then enqueues 7 ∷ enqueues 8 ∷ [] else []

abbrev alone_turn : ℕ → System ℕ → Option (System ℕ)
alone_turn id s = if ltb id 1 then act 1 0 id (s.pc id) s else none

alone_turn-Step : (id : ℕ) (s t : System ℕ) → alone_turn id s ≡ some t → Step 1 s t
alone_turn-Step id s t e = goroutine id 0 (ground arith) (ground arith)

abbrev stopped : Ran (Step 1) (initial narrow alone_work)
stopped =
    execute alone_turn alone_turn-Step (record { last = initial narrow alone_work; reach = here })
      (0 ∷ 0 ∷ 0 ∷ 0 ∷ [])

stopped_place : stopped.last.pc 0 ≡ waiting_not_full 8
unfolding execute act initial sum_below
stopped_place = refl

stopped_stuck : (i wake : ℕ) → i < 1 → act 1 wake i (stopped.last.pc i) stopped.last ≡ none
unfolding execute act initial sum_below
stopped_stuck zero wake lt = refl
stopped_stuck (suc i) wake lt = absurd (omega arith)

queue_no_lost_wakeup_example : Rests stopped.last 0 (stopped.last.pc 0)
queue_no_lost_wakeup_example =
    queue_no_lost_wakeup (pos 1) narrow alone_work made_narrow stopped.reach stopped_stuck 0
      (omega arith)
