-- ===== src/Queue.antt =====
-- examples/boundedqueue/queue.go. A critical section of a method is one function; goroutines that
-- call the methods, and the two condition variables, are in Queue/Goroutines.
pub mod Goroutines
use go_concurrency_examples.Base.Int.{ℤ, pos, leb_ℤ, pos_part}
use go_concurrency_examples.Base.{
  Bool, List, Option, [], false, if◌then◌else◌, inl, inr, length, none, not, some, true, ℕ, ◌&&◌,
  ◌++◌, ◌==◌, ◌∷◌, ◌⊎◌,
}

pub data Error : Type 0 where
  uninitialized closed_queue capacity_not_positive : Error

-- A nil queue, or a zero value, whose condition variables are nil, is `none` of this type.
pub record Queue (A : Type 0) : Type 0 where
  pub items : List A
  pub capacity : ℕ
  pub closed : Bool

-- What a critical section of `Enqueue` does: it waits on `notFull`, returns an error, or changes
-- the queue and signals `notEmpty`.
pub data Enqueued (A : Type 0) : Type 0 where
  must_wait : Enqueued A
  refused : Error → Enqueued A
  added : Queue A → Enqueued A

pub data Dequeued (A : Type 0) : Type 0 where
  must_wait : Dequeued A
  refused : Error → Dequeued A
  taken : A → Queue A → Dequeued A

module _ {A : Type 0} where
  pub new : ℤ → Queue A ⊎ Error
  new capacity =
      if leb_ℤ capacity (pos 0)
      then inr capacity_not_positive
      else inl (record { items = []; capacity = pos_part capacity; closed = false })

  pub ready : Option (Queue A) → Option Error
  ready none = some uninitialized
  ready (some q) = if q.capacity == 0 then some uninitialized else none

  -- From a test of the loop to the wait or the return; after a wait the loop tests again.
  pub enqueue : A → Queue A → Enqueued A
  enqueue item q =
      if (length q.items == q.capacity) && not q.closed
      then Enqueued.must_wait
      else (if q.closed
          then Enqueued.refused closed_queue
          else added (record q { items = q.items ++ item ∷ [] }))

  dequeue_from : List A → Queue A → Dequeued A
  dequeue_from [] q = Dequeued.refused closed_queue
  dequeue_from (item ∷ rest) q = taken item (record q { items = rest })

  pub dequeue : Queue A → Dequeued A
  unfolding dequeue_from
  dequeue q =
      if (length q.items == 0) && not q.closed then Dequeued.must_wait else dequeue_from q.items q

  -- The critical section of `Close`: whether it has to wake the waiters afterwards.
  pub close : Queue A → Queue A × Bool
  close q = (record q { closed = true }, not q.closed)

  pub len : Option (Queue A) → ℕ
  len none = 0
  len (some q) = length q.items
