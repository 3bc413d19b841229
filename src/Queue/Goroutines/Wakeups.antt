-- ===== src/Queue/Goroutines/Wakeups.antt =====
-- No wake-up of examples/boundedqueue/queue.go is lost: one Signal for each item that comes or goes,
-- and a Broadcast on each condition after the queue is closed, are enough.
use go_concurrency_examples.Queue.Goroutines.{
  Pc, System, dequeueing, enqueueing, signal, waiters, waits_not_empty, waits_not_full,
  waking_not_empty, waking_not_full, woken, closing, idle, waiting_not_empty, waiting_not_full, act,
  Job, Step, broadcast, closes, dequeues, enqueues, goroutine,
}
use go_concurrency_examples.Base.{
  Bool, Bool-cases, arith, false, inl, inr, length, ltb, some, sum_below, sum_below-update, to_num,
  true, update, ℕ, ◌&&◌, ◌+◌, ◌<◌, ◌==◌, ◌≡◌, ◌≤◌, ◌⊎◌, refl, List, [], length-append, ◌∷◌,
  if◌then◌else◌, sum_below-congr, sum_below-zero, ◌∙◌,
}

module _ {A : Type 0} where
  -- 1 for a goroutine that will test its condition again, or that is still to broadcast.
  abbrev pub about_to_enqueue : Pc A → ℕ
  about_to_enqueue (enqueueing x) = 1
  about_to_enqueue _ = 0

  abbrev pub about_to_dequeue : Pc A → ℕ
  about_to_dequeue dequeueing = 1
  about_to_dequeue _ = 0

  abbrev pub about_to_wake_not_full : Pc A → ℕ
  about_to_wake_not_full waking_not_full = 1
  about_to_wake_not_full _ = 0

  abbrev pub about_to_wake_not_empty : Pc A → ℕ
  about_to_wake_not_empty waking_not_full = 1
  about_to_wake_not_empty waking_not_empty = 1
  about_to_wake_not_empty _ = 0

  abbrev pub waits_full_num : Pc A → ℕ
  waits_full_num p = to_num (waits_not_full p)

  abbrev pub waits_empty_num : Pc A → ℕ
  waits_empty_num p = to_num (waits_not_empty p)

  abbrev pub count_pc : (Pc A → ℕ) → ℕ → (ℕ → Pc A) → ℕ
  count_pc w n pc = sum_below (λ i. w (pc i)) n

  -- While the queue is open, as many goroutines are about to test their condition as there is room
  -- (or as there are items), if any other waits; once it is closed, a broadcast is still to come.
  pub record Inv (n : ℕ) (s : System A) : Type 0 where
    pub bounded : length s.queue.items ≤ s.queue.capacity
    pub room_seen :
        s.queue.closed ≡ false
        → 0 < count_pc waits_full_num n s.pc
        → s.queue.capacity ≤ length s.queue.items + count_pc about_to_enqueue n s.pc
    pub items_seen :
        s.queue.closed ≡ false
        → 0 < count_pc waits_empty_num n s.pc
        → length s.queue.items ≤ count_pc about_to_dequeue n s.pc
    pub full_woken :
        s.queue.closed ≡ true
        → 0 < count_pc waits_full_num n s.pc
        → 0 < count_pc about_to_wake_not_full n s.pc
    pub empty_woken :
        s.queue.closed ≡ true
        → 0 < count_pc waits_empty_num n s.pc
        → 0 < count_pc about_to_wake_not_empty n s.pc

  -- What a signal does: nothing if nobody waits, else it wakes a goroutine that does.
  signal-cases :
      (waits : Pc A → Bool) (n wake : ℕ) (pc pc' : ℕ → Pc A)
      → signal waits n wake pc ≡ some pc'
      → ((pc' ≡ pc) × (waiters waits n pc ≡ 0))
        ⊎ ((wake < n) × (waits (pc wake) ≡ true) × (pc' ≡ update pc wake (woken (pc wake))))
  unfolding signal
  signal-cases waits n wake pc pc' e = elim (Bool-cases (waiters waits n pc == 0)) [
    | inl nobody ↦ inl (ground arith, ground arith)
    | inr somebody ↦
        let awake : (ltb wake n && waits (pc wake)) ≡ true = ground arith in
        inr (ground arith, ground arith, ground arith)
  ]

  -- Goroutine `wake` goes from `p` to `p'`.
  count_pc-update :
      (w : Pc A → ℕ) {n wake : ℕ} (pc pc' : ℕ → Pc A) (p p' : Pc A)
      → wake < n
      → pc wake ≡ p
      → pc' ≡ update pc wake p'
      → count_pc w n pc' + w p ≡ count_pc w n pc + w p'
  count_pc-update w {n} {wake} pc pc' p p' lt at e =
      rw (e, ← at) (sum_below-update (λ _. w) n pc wake p' lt)

  not_empty_waiter : (p : Pc A) → waits_not_empty p ≡ true → p ≡ waiting_not_empty
  not_empty_waiter waiting_not_empty e = refl
  not_empty_waiter _ e = ground arith

  not_full_waiter : (p : Pc A) → waits_not_full p ≡ true → (x : A) × (p ≡ waiting_not_full x)
  not_full_waiter (waiting_not_full x) e = (x, refl)
  not_full_waiter idle e = absurd (ground arith)
  not_full_waiter (enqueueing x) e = absurd (ground arith)
  not_full_waiter dequeueing e = absurd (ground arith)
  not_full_waiter waiting_not_empty e = absurd (ground arith)
  not_full_waiter closing e = absurd (ground arith)
  not_full_waiter waking_not_full e = absurd (ground arith)
  not_full_waiter waking_not_empty e = absurd (ground arith)

  -- After a signal nobody waits on that condition, or one goroutine less does and one more is
  -- about to test its condition.
  abbrev OneFewer : (Pc A → ℕ) → (Pc A → ℕ) → ℕ → (ℕ → Pc A) → (ℕ → Pc A) → Type 0
  OneFewer waits about n pc pc' =
      (count_pc waits n pc' ≡ 0)
      ⊎ ((count_pc waits n pc' + 1 ≡ count_pc waits n pc)
          × (count_pc about n pc' ≡ count_pc about n pc + 1))

  signal_not_empty :
      (n wake : ℕ) (pc pc' : ℕ → Pc A)
      → signal waits_not_empty n wake pc ≡ some pc'
      → OneFewer waits_empty_num about_to_dequeue n pc pc'
        × (count_pc waits_full_num n pc' ≡ count_pc waits_full_num n pc)
        × (count_pc about_to_enqueue n pc' ≡ count_pc about_to_enqueue n pc)
  signal_not_empty n wake pc pc' e = elim (signal-cases waits_not_empty n wake pc pc' e) [
    | inl (same, nobody) ↦ rw same (inl nobody, refl, refl)
    | inr (lt, waits, moved) ↦
        let at : pc wake ≡ waiting_not_empty = not_empty_waiter (pc wake) waits in
        let to : pc' ≡ update pc wake dequeueing = rw at at moved in
        let change =
          λ (w : Pc A → ℕ). count_pc-update w pc pc' waiting_not_empty dequeueing lt at to in
        (
          inr (omega (arith, change waits_empty_num), omega (arith, change about_to_dequeue)),
          omega (arith, change waits_full_num),
          omega (arith, change about_to_enqueue),
        )
  ]

  signal_not_full :
      (n wake : ℕ) (pc pc' : ℕ → Pc A)
      → signal waits_not_full n wake pc ≡ some pc'
      → OneFewer waits_full_num about_to_enqueue n pc pc'
        × (count_pc waits_empty_num n pc' ≡ count_pc waits_empty_num n pc)
        × (count_pc about_to_dequeue n pc' ≡ count_pc about_to_dequeue n pc)
        × (count_pc about_to_wake_not_full n pc' ≡ count_pc about_to_wake_not_full n pc)
        × (count_pc about_to_wake_not_empty n pc' ≡ count_pc about_to_wake_not_empty n pc)
  signal_not_full n wake pc pc' e = elim (signal-cases waits_not_full n wake pc pc' e) [
    | inl (same, nobody) ↦ rw same (inl nobody, refl, refl, refl, refl)
    | inr (lt, waits, moved) ↦
        let (x, at) = not_full_waiter (pc wake) waits in
        let to : pc' ≡ update pc wake (enqueueing x) = rw at at moved in
        let change =
          λ (w : Pc A → ℕ). count_pc-update w pc pc' (waiting_not_full x) (enqueueing x) lt at to in
        (
          inr (omega (arith, change waits_full_num), omega (arith, change about_to_enqueue)),
          omega (arith, change waits_empty_num),
          omega (arith, change about_to_dequeue),
          omega (arith, change about_to_wake_not_full),
          omega (arith, change about_to_wake_not_empty),
        )
  ]

-- Goroutine `id` alone goes from `p` to `p'`.
record Alone {A : Type 0} (n id : ℕ) (pc : ℕ → Pc A) (p p' : Pc A) : Type 0 where
  full :
      count_pc waits_full_num n (update pc id p') + waits_full_num p
      ≡ count_pc waits_full_num n pc + waits_full_num p'
  empty :
      count_pc waits_empty_num n (update pc id p') + waits_empty_num p
      ≡ count_pc waits_empty_num n pc + waits_empty_num p'
  enq :
      count_pc about_to_enqueue n (update pc id p') + about_to_enqueue p
      ≡ count_pc about_to_enqueue n pc + about_to_enqueue p'
  deq :
      count_pc about_to_dequeue n (update pc id p') + about_to_dequeue p
      ≡ count_pc about_to_dequeue n pc + about_to_dequeue p'
  wake_full :
      count_pc about_to_wake_not_full n (update pc id p') + about_to_wake_not_full p
      ≡ count_pc about_to_wake_not_full n pc + about_to_wake_not_full p'
  wake_empty :
      count_pc about_to_wake_not_empty n (update pc id p') + about_to_wake_not_empty p
      ≡ count_pc about_to_wake_not_empty n pc + about_to_wake_not_empty p'

module _ {A : Type 0} {n id : ℕ} (pc : ℕ → Pc A) (lt : id < n) where
  alone : (p p' : Pc A) → pc id ≡ p → Alone n id pc p p'
  alone p p' at =
      let change = λ (w : Pc A → ℕ). count_pc-update w pc (update pc id p') p p' lt at refl in
      record {
        full = change waits_full_num;
        empty = change waits_empty_num;
        enq = change about_to_enqueue;
        deq = change about_to_dequeue;
        wake_full = change about_to_wake_not_full;
        wake_empty = change about_to_wake_not_empty;
      }

module _ {A : Type 0} {n id : ℕ} (wake : ℕ) {s t : System A} (lt : id < n) (inv : Inv n s) where
  enqueue-Inv : (x : A) → s.pc id ≡ enqueueing x → act n wake id (enqueueing x) s ≡ some t → Inv n t
  unfolding act
  enqueue-Inv x at e = ground (
    arith,
    inv,
    alone s.pc lt (enqueueing x) (waiting_not_full x) at,
    alone s.pc lt (enqueueing x) idle at,
    length-append s.queue.items (x ∷ []),
    signal_not_empty n wake (update s.pc id idle) t.pc,
  )

  dequeue-Inv :
      (xs : List A)
      → s.queue.items ≡ xs
      → s.pc id ≡ dequeueing
      → act n wake id dequeueing s ≡ some t
      → Inv n t
  unfolding act
  dequeue-Inv [] at_items at e =
      ground (
        arith,
        inv,
        alone s.pc lt dequeueing waiting_not_empty at,
        alone s.pc lt dequeueing idle at,
      )
  dequeue-Inv (x ∷ xs) at_items at e = ground (
    arith,
    inv,
    alone s.pc lt dequeueing waiting_not_empty at,
    alone s.pc lt dequeueing idle at,
    signal_not_full n wake (update s.pc id idle) t.pc,
  )

module _ {A : Type 0} (n : ℕ) (pc : ℕ → Pc A) where
  broadcast-kept :
      (w : Pc A → ℕ) (waits : Pc A → Bool)
      → ((p : Pc A) → w (if waits p then woken p else p) ≡ w p)
      → count_pc w n (broadcast waits pc) ≡ count_pc w n pc
  unfolding broadcast
  broadcast-kept w waits same =
      sum_below-congr (λ i. w (broadcast waits pc i)) (λ i. w (pc i)) n (λ i lt. same (pc i))

  broadcast-none :
      (w : Pc A → ℕ) (waits : Pc A → Bool)
      → ((p : Pc A) → w (if waits p then woken p else p) ≡ 0)
      → count_pc w n (broadcast waits pc) ≡ 0
  unfolding broadcast
  broadcast-none w waits gone =
      sum_below-congr (λ i. w (broadcast waits pc i)) (λ _. 0) n (λ i lt. gone (pc i))
      ∙ sum_below-zero n

  -- Broadcasting on `notFull` leaves nobody waiting there, and touches no other place.
  broadcast_not_full : record {
    full : count_pc waits_full_num n (broadcast waits_not_full pc) ≡ 0;
    empty :
        count_pc waits_empty_num n (broadcast waits_not_full pc) ≡ count_pc waits_empty_num n pc;
    deq :
        count_pc about_to_dequeue n (broadcast waits_not_full pc) ≡ count_pc about_to_dequeue n pc;
    wake_empty :
        count_pc about_to_wake_not_empty n (broadcast waits_not_full pc)
        ≡ count_pc about_to_wake_not_empty n pc;
  }
  broadcast_not_full = record {
    full = broadcast-none waits_full_num waits_not_full (λ p. ground arith);
    empty = broadcast-kept waits_empty_num waits_not_full (λ p. ground arith);
    deq = broadcast-kept about_to_dequeue waits_not_full (λ p. ground arith);
    wake_empty = broadcast-kept about_to_wake_not_empty waits_not_full (λ p. ground arith);
  }

  broadcast_not_empty : record {
    empty : count_pc waits_empty_num n (broadcast waits_not_empty pc) ≡ 0;
    full : count_pc waits_full_num n (broadcast waits_not_empty pc) ≡ count_pc waits_full_num n pc;
    enq :
        count_pc about_to_enqueue n (broadcast waits_not_empty pc) ≡ count_pc about_to_enqueue n pc;
    wake_full :
        count_pc about_to_wake_not_full n (broadcast waits_not_empty pc)
        ≡ count_pc about_to_wake_not_full n pc;
  }
  broadcast_not_empty = record {
    empty = broadcast-none waits_empty_num waits_not_empty (λ p. ground arith);
    full = broadcast-kept waits_full_num waits_not_empty (λ p. ground arith);
    enq = broadcast-kept about_to_enqueue waits_not_empty (λ p. ground arith);
    wake_full = broadcast-kept about_to_wake_not_full waits_not_empty (λ p. ground arith);
  }

module _ {A : Type 0} {n id : ℕ} (wake : ℕ) {s t : System A} (lt : id < n) (inv : Inv n s) where
  idle-Inv :
      (jobs : List (Job A))
      → s.jobs id ≡ jobs
      → s.pc id ≡ idle
      → act n wake id idle s ≡ some t
      → Inv n t
  unfolding act
  idle-Inv [] at_jobs at e = ground arith
  idle-Inv (enqueues x ∷ rest) at_jobs at e =
      ground (arith, inv, alone s.pc lt idle (enqueueing x) at)
  idle-Inv (dequeues ∷ rest) at_jobs at e = ground (arith, inv, alone s.pc lt idle dequeueing at)
  idle-Inv (closes ∷ rest) at_jobs at e = ground (arith, inv, alone s.pc lt idle closing at)

  act-Inv : (p : Pc A) → s.pc id ≡ p → act n wake id p s ≡ some t → Inv n t
  unfolding act
  act-Inv idle at e = idle-Inv (s.jobs id) refl at e
  act-Inv (enqueueing x) at e = enqueue-Inv wake lt inv x at e
  act-Inv dequeueing at e = dequeue-Inv wake lt inv s.queue.items refl at e
  act-Inv (waiting_not_full x) at e = ground arith
  act-Inv waiting_not_empty at e = ground arith
  act-Inv closing at e =
      ground (arith, inv, alone s.pc lt closing waking_not_full at, alone s.pc lt closing idle at)
  act-Inv waking_not_full at e = ground (
    arith,
    inv,
    alone s.pc lt waking_not_full waking_not_empty at,
    broadcast_not_full n (update s.pc id waking_not_empty),
  )
  act-Inv waking_not_empty at e = ground (
    arith,
    inv,
    alone s.pc lt waking_not_empty idle at,
    broadcast_not_empty n (update s.pc id idle),
  )

pub Step-Inv : {A : Type 0} {n : ℕ} (s t : System A) → Step n s t → Inv n s → Inv n t
Step-Inv s t (goroutine id wake lt e) inv = act-Inv wake lt inv (s.pc id) refl e
