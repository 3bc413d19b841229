-- ===== src/Queue/Goroutines/Stuck.antt =====
-- When the goroutines of examples/boundedqueue/queue.go can all do nothing more.
use go_concurrency_examples.Queue.{Queue, new}
use go_concurrency_examples.Queue.Goroutines.{
  Step, Job, Pc, System, act, closes, closing, dequeueing, dequeues, enqueueing, enqueues, idle,
  initial, signal, waiters, waiting_not_empty, waiting_not_full, waits_not_empty, waits_not_full,
  waking_not_empty, waking_not_full, woken,
}
use go_concurrency_examples.Queue.Goroutines.Wakeups.{
  Inv, Step-Inv, about_to_dequeue, about_to_enqueue, about_to_wake_not_empty,
  about_to_wake_not_full, count_pc, waits_empty_num, waits_full_num,
}
use go_concurrency_examples.Base.{
  Bool, List, Reach, Reach-inv, [], ap, arith, dec_lt, false, inl, le-sum_below, length, none, refl,
  some, sum_below-congr, sum_below-zero, sum_below_pos, to_num, update, ℕ, ◌<◌, ◌∙◌, ◌∷◌, ◌≡◌,
}
use go_concurrency_examples.Base.Int.{ℤ}

-- Why a goroutine may have no next step: it has made all its calls, or it waits in `Enqueue` on an
-- open queue that is full, or in `Dequeue` on an open queue that is empty.
abbrev pub Rests : {A : Type 0} → System A → ℕ → Pc A → Type 0
Rests s i idle = s.jobs i ≡ []
Rests s i (waiting_not_full x) =
    (s.queue.closed ≡ false) × (length s.queue.items ≡ s.queue.capacity)
Rests s i waiting_not_empty = (s.queue.closed ≡ false) × (s.queue.items ≡ [])
Rests s i _ = ⊥

-- Without what the queue holds.
abbrev Pauses : {A : Type 0} → System A → ℕ → Pc A → Type 0
Pauses s i idle = s.jobs i ≡ []
Pauses s i (waiting_not_full x) = Unit {0}
Pauses s i waiting_not_empty = Unit {0}
Pauses s i _ = ⊥

module _ {A : Type 0} where
  signal-some :
      (waits : Pc A → Bool) (n : ℕ) (pc : ℕ → Pc A)
      → (wake : ℕ) × (pc' : ℕ → Pc A) × (signal waits n wake pc ≡ some pc')
  unfolding signal
  signal-some waits n pc = elim (dec_lt 0 (waiters waits n pc)) [
    | yes h ↦
        let (wake, lt, positive) = sum_below_pos (λ i. to_num (waits (pc i))) n h in
        (wake, update pc wake (woken (pc wake)), ground arith)
    | no h ↦ (0, pc, ground arith)
  ]

  list_zero : (xs : List A) → length xs ≡ 0 → xs ≡ []
  list_zero [] h = refl
  list_zero (x ∷ xs) h = absurd (omega arith)

module _ {A : Type 0} {n : ℕ} {s : System A} (inv : Inv n s)
    (stuck : (i wake : ℕ) → i < n → act n wake i (s.pc i) s ≡ none) where
  Pauses-at :
      (i : ℕ) (jobs : List (Job A)) (p : Pc A)
      → s.jobs i ≡ jobs
      → ((wake : ℕ) → act n wake i p s ≡ none)
      → Pauses s i p
  unfolding act
  Pauses-at i [] idle at none_for = at
  Pauses-at i (enqueues x ∷ rest) idle at none_for = ground (arith, none_for 0)
  Pauses-at i (dequeues ∷ rest) idle at none_for = ground (arith, none_for 0)
  Pauses-at i (closes ∷ rest) idle at none_for = ground (arith, none_for 0)
  Pauses-at i jobs (enqueueing x) at none_for =
      let (wake, pc', e) = signal-some waits_not_empty n (update s.pc i idle) in
      ground (arith, none_for wake)
  Pauses-at i jobs dequeueing at none_for =
      let (wake, pc', e) = signal-some waits_not_full n (update s.pc i idle) in
      ground (arith, none_for wake)
  Pauses-at i jobs (waiting_not_full x) at none_for = tt
  Pauses-at i jobs waiting_not_empty at none_for = tt
  Pauses-at i jobs closing at none_for = ground (arith, none_for 0)
  Pauses-at i jobs waking_not_full at none_for = ground (arith, none_for 0)
  Pauses-at i jobs waking_not_empty at none_for = ground (arith, none_for 0)

  pauses : (i : ℕ) → i < n → Pauses s i (s.pc i)
  pauses i lt = Pauses-at i (s.jobs i) (s.pc i) refl (λ wake. stuck i wake lt)

  nobody_at : (w : Pc A → ℕ) → ((i : ℕ) (p : Pc A) → Pauses s i p → w p ≡ 0) → count_pc w n s.pc ≡ 0
  nobody_at w zero_at =
      sum_below-congr (λ i. w (s.pc i)) (λ _. 0) n (λ i lt. zero_at i (s.pc i) (pauses i lt))
      ∙ sum_below-zero n

  Rests-at : (i : ℕ) (p : Pc A) → i < n → s.pc i ≡ p → Pauses s i p → Rests s i p
  Rests-at i idle lt at h = h
  Rests-at i (waiting_not_full x) lt at h =
      let seen : 0 < count_pc waits_full_num n s.pc =
        omega (arith, le-sum_below (λ k. waits_full_num (s.pc k)) n i lt, ap waits_full_num at) in
      ground (
        arith,
        inv,
        nobody_at about_to_enqueue (λ k p q. ground arith),
        nobody_at about_to_wake_not_full (λ k p q. ground arith),
      )
  Rests-at i waiting_not_empty lt at h =
      let seen : 0 < count_pc waits_empty_num n s.pc =
        omega (arith, le-sum_below (λ k. waits_empty_num (s.pc k)) n i lt, ap waits_empty_num at) in
      ground (
        arith,
        inv,
        list_zero s.queue.items,
        nobody_at about_to_dequeue (λ k p q. ground arith),
        nobody_at about_to_wake_not_empty (λ k p q. ground arith),
      )
  Rests-at i _ lt at h = absurd h

-- No wake-up is lost: when no goroutine can take a step, whichever one a signal would wake, each of
-- them has made all its calls, or waits in Enqueue on an open queue that is full, or in Dequeue on
-- an open queue that is empty. In particular nobody waits on a closed queue.
pub queue_no_lost_wakeup :
    {A : Type 0} {n : ℕ} (capacity : ℤ) (q : Queue A) (jobs : ℕ → List (Job A)) {s : System A}
    → new capacity ≡ inl q
    → Reach (Step n) (initial q jobs) s
    → ((i wake : ℕ) → i < n → act n wake i (s.pc i) s ≡ none)
    → (i : ℕ) → i < n
    → Rests s i (s.pc i)
unfolding initial new
queue_no_lost_wakeup {A} {n} capacity q jobs {s} made r stuck i lt =
    let nobody_waits : (w : Pc A → ℕ) → w idle ≡ 0 → count_pc w n (λ _. idle) ≡ 0 =
      λ w e. sum_below-congr (λ _. w idle) (λ _. 0) n (λ k p. e) ∙ sum_below-zero n in
    let first_Inv : Inv n (initial q jobs) = record {
      bounded = ground arith;
      room_seen = λ open_queue h. absurd (omega (arith, nobody_waits waits_full_num refl));
      items_seen = λ open_queue h. absurd (omega (arith, nobody_waits waits_empty_num refl));
      full_woken = λ shut h. absurd (omega (arith, nobody_waits waits_full_num refl));
      empty_woken = λ shut h. absurd (omega (arith, nobody_waits waits_empty_num refl));
    } in
    let inv = Reach-inv (Inv n) Step-Inv first_Inv r in
    Rests-at inv stuck i (s.pc i) lt refl (pauses inv stuck i lt)
