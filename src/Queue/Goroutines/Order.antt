-- ===== src/Queue/Goroutines/Order.antt =====
-- First in, first out: what examples/boundedqueue delivers is what it accepted, in order, and it
-- never holds more than its capacity.
use mathlib.Core.List.{append_assoc}
use go_concurrency_examples.Queue.{Queue, new}
use go_concurrency_examples.Queue.Goroutines.{
  Step, Job, Pc, System, act, closes, closing, dequeueing, dequeues, enqueueing, enqueues,
  goroutine, idle, initial, waiting_not_empty, waiting_not_full, waking_not_empty, waking_not_full,
}
use go_concurrency_examples.Base.{
  List, Reach, Reach-inv, [], arith, inl, length, length-append, refl, some, ℕ, ◌++◌, ◌∷◌, ◌≡◌, ◌≤◌,
}
use go_concurrency_examples.Base.Int.{pos_part, ℤ}

pub record Inv {A : Type 0} (capacity : ℕ) (s : System A) : Type 0 where
  pub in_order : s.sent ≡ s.received ++ s.queue.items
  pub within : length s.queue.items ≤ capacity
  pub capacity_kept : s.queue.capacity ≡ capacity

module _ {A : Type 0} {capacity : ℕ} {s t : System A} (inv : Inv capacity s) (n wake id : ℕ) where
  enqueue-Inv : (x : A) → act n wake id (enqueueing x) s ≡ some t → Inv capacity t
  unfolding act
  enqueue-Inv x e = ground (
    arith,
    inv,
    append_assoc s.received s.queue.items (x ∷ []),
    length-append s.queue.items (x ∷ []),
  )

  dequeue-Inv :
      (xs : List A) → s.queue.items ≡ xs → act n wake id dequeueing s ≡ some t → Inv capacity t
  unfolding act
  dequeue-Inv [] at e = ground (arith, inv)
  dequeue-Inv (x ∷ xs) at e = ground (arith, inv, append_assoc s.received (x ∷ []) xs)

  idle-Inv :
      (jobs : List (Job A)) → s.jobs id ≡ jobs → act n wake id idle s ≡ some t → Inv capacity t
  unfolding act
  idle-Inv [] at e = ground (arith, inv)
  idle-Inv (enqueues x ∷ rest) at e = ground (arith, inv)
  idle-Inv (dequeues ∷ rest) at e = ground (arith, inv)
  idle-Inv (closes ∷ rest) at e = ground (arith, inv)

  act-Inv : (p : Pc A) → act n wake id p s ≡ some t → Inv capacity t
  unfolding act
  act-Inv idle e = idle-Inv (s.jobs id) refl e
  act-Inv (enqueueing x) e = enqueue-Inv x e
  act-Inv dequeueing e = dequeue-Inv s.queue.items refl e
  act-Inv (waiting_not_full x) e = ground arith
  act-Inv waiting_not_empty e = ground arith
  act-Inv closing e = ground (arith, inv)
  act-Inv waking_not_full e = ground (arith, inv)
  act-Inv waking_not_empty e = ground (arith, inv)

Step-Inv :
    {A : Type 0} {capacity n : ℕ} (s t : System A) → Step n s t → Inv capacity s → Inv capacity t
Step-Inv s t (goroutine id wake lt e) inv = act-Inv inv _ wake id (s.pc id) e

-- In every state that any number of goroutines can reach from a new queue, with any calls: the
-- items that Enqueue accepted are those that Dequeue returned followed by those in the queue, in
-- the same order, so none is lost, doubled or overtaken; and the queue is within its capacity.
pub queue_fifo :
    {A : Type 0} {n : ℕ} (capacity : ℤ) (q : Queue A) (jobs : ℕ → List (Job A)) {s : System A}
    → new capacity ≡ inl q
    → Reach (Step n) (initial q jobs) s
    → (s.sent ≡ s.received ++ s.queue.items) × (length s.queue.items ≤ pos_part capacity)
unfolding initial new
queue_fifo capacity q jobs made r =
    let first_Inv : Inv (pos_part capacity) (initial q jobs) = record {
      in_order = ground arith;
      within = ground arith;
      capacity_kept = ground arith;
    } in
    let inv = Reach-inv (Inv (pos_part capacity)) Step-Inv first_Inv r in (inv.in_order, inv.within)
