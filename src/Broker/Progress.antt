-- ===== src/Broker/Progress.antt =====
-- Calls of examples/pubsub/broker.go that are under way go on, and a closed broker has closed every
-- channel once they have returned.
use go_concurrency_examples.Base.{
  Bool, Bool-cases, List, Option, Reach, [], ap, arith, count, dec_lt, false, inl, inr, is_some,
  length, none, refl, some, sum_below, sum_below-congr, sum_below-zero, sum_below_pos, true, ℕ, ◌<◌,
  ◌∷◌, ◌≡◌, ◌≢◌, ◌≤◌, ◌⊎◌,
}
use go_concurrency_examples.Broker.{
  After, Broker, Call, Choice, IsChoice, Step, act, act_broker_done, act_pick, act_put,
  act_sub_done, act_turn, broker_done, checking, close, closing, closing_rest, dropping, idle,
  leaving, meet, new_broker, pick, publish, publishing, put, receive, sending, sub_done, subscribe,
  turn, unsubscribe, waiting,
}
use go_concurrency_examples.Broker.Owners.{Inv, holds, uses, waited, writes}
use go_concurrency_examples.Broker.Safety.{Reach-Good}

module _ {T : Type 0} where
  -- The choices that continue a call without a receiver.
  abbrev pub continues : Choice T → Bool
  continues (turn g) = true
  continues (pick g id) = true
  continues (sub_done g) = true
  continues (broker_done g) = true
  continues (put g) = true
  continues (meet g) = false
  continues (subscribe g) = false
  continues (close g) = false
  continues (publish g m) = false
  continues (unsubscribe g id) = false
  continues (receive id) = false

  abbrev pub Advance : ℕ → Broker T → Type 0
  Advance n b = (x : Choice T) × IsChoice n x × (continues x ≡ true) × (is_some (act x b) ≡ true)

  -- A send to a full channel of a subscriber, while neither that nor the broker is closed.
  abbrev pub Stalled : ℕ → Broker T → Type 0
  Stalled n b =
      (k : ℕ) × (m : T) × (id : ℕ) × (targets : List ℕ) × (left : List ℕ) × (k < n)
      × (b.calls k ≡ sending m id targets left)
      × (b.buffer ≤ length (b.queue id))
      × (b.sub_closed id ≡ false)
      × (b.closed ≡ false)

  module _ {n : ℕ} {b : Broker T} (inv : Inv n b) where
    use_steps :
        (k id : ℕ) (c : Call T)
        → k < n
        → b.calls k ≡ c
        → 0 < uses id c
        → b.sub_closed id ≡ true
        → Advance n b
    unfolding act act_turn act_sub_done
    use_steps k id (sending m j targets left) lt is used_one shut_down =
        (sub_done k, lt, refl, ground (arith, is, used_one, shut_down, inv.sub_dones j))
    use_steps k id (leaving m j ok targets left) lt is used_one shut_down =
        (turn k, lt, refl, ground (arith, is))
    use_steps k id idle lt is used_one shut_down = absurd (omega arith)
    use_steps k id (publishing _ _ _) lt is used_one shut_down = absurd (omega arith)
    use_steps k id (checking _ _ _) lt is used_one shut_down = absurd (omega arith)
    use_steps k id (dropping _) lt is used_one shut_down = absurd (omega arith)
    use_steps k id (closing _ _) lt is used_one shut_down = absurd (omega arith)
    use_steps k id (waiting _ _) lt is used_one shut_down = absurd (omega arith)
    use_steps k id (closing_rest _) lt is used_one shut_down = absurd (omega arith)

    wait_steps : (g id : ℕ) (a : After) → g < n → b.calls g ≡ waiting id a → Advance n b
    unfolding act act_turn
    wait_steps g id a lt is = elim (dec_lt 0 (b.wg id)) [
      | yes busy ↦
          let (k, below, used_one) =
            sum_below_pos (λ k. uses id (b.calls k)) n (omega (arith, busy, inv.users id)) in
          use_steps k id (b.calls k) below refl used_one (ground (arith, waited inv lt is id))
      | no quiet ↦ (turn g, lt, refl, ground (arith, is, quiet))
    ]

    writer_steps : (w : ℕ) (c : Call T) → w < n → b.calls w ≡ c → writes c ≡ true → Advance n b
    unfolding act act_turn
    writer_steps w (closing id a) lt is writing = (turn w, lt, refl, ground (arith, is))
    writer_steps w (waiting id a) lt is writing = wait_steps w id a lt is
    writer_steps w idle lt is writing = cc
    writer_steps w (publishing _ _ _) lt is writing = cc
    writer_steps w (sending _ _ _ _) lt is writing = cc
    writer_steps w (leaving _ _ _ _ _) lt is writing = cc
    writer_steps w (checking _ _ _) lt is writing = cc
    writer_steps w (dropping _) lt is writing = cc
    writer_steps w (closing_rest _) lt is writing = cc

    -- The mutex of the broker is free, or the goroutine with it goes on.
    lock_steps : (o : Option ℕ) → b.writer ≡ o → (b.writer ≡ none) ⊎ Advance n b
    lock_steps none at = inl at
    lock_steps (some w) at =
        let (below, writing) = inv.writer_works w at in
        inr (writer_steps w (b.calls w) below refl writing)

    send_steps :
        (g : ℕ) (m : T) (id : ℕ) (targets left : List ℕ)
        → g < n
        → b.calls g ≡ sending m id targets left
        → Advance n b ⊎ Stalled n b
    unfolding act act_sub_done act_broker_done act_put
    send_steps g m id targets left lt is = elim (Bool-cases (b.sub_closed id)) [
      | inl gone ↦ inl (sub_done g, lt, refl, ground (arith, is, gone, inv.sub_dones id))
      | inr open_sub ↦ elim (Bool-cases b.closed) [
        | inl shut_down ↦ inl (broker_done g, lt, refl, ground (arith, is, shut_down, inv.dones))
        | inr live ↦ elim (dec_lt (length (b.queue id)) b.buffer) [
          | yes room ↦ inl (put g, lt, refl, ground (arith, is, room))
          | no full ↦ inr (g, m, id, targets, left, lt, is, omega (arith, full), open_sub, live)
        ]
      ]
    ]

    call_steps : (g : ℕ) (c : Call T) → g < n → b.calls g ≡ c → c ≢ idle → Advance n b ⊎ Stalled n b
    unfolding act act_turn act_pick
    call_steps g idle lt is busy = absurd (busy refl)
    call_steps g (publishing m targets []) lt is busy = inl (turn g, lt, refl, ground (arith, is))
    call_steps g (publishing m targets (x ∷ left)) lt is busy =
        inl (pick g x, lt, refl, ground (arith, is))
    call_steps g (sending m id targets left) lt is busy = send_steps g m id targets left lt is
    call_steps g (leaving m id ok targets left) lt is busy =
        inl (turn g, lt, refl, ground (arith, is))
    call_steps g (checking m targets left) lt is busy = elim (lock_steps b.writer refl) [
      | inl free ↦ inl (turn g, lt, refl, ground (arith, is, free))
      | inr other ↦ inl other
    ]
    call_steps g (dropping id) lt is busy = elim (lock_steps b.writer refl) [
      | inl free ↦ inl (turn g, lt, refl, ground (arith, is, free))
      | inr other ↦ inl other
    ]
    call_steps g (closing id a) lt is busy = inl (turn g, lt, refl, ground (arith, is))
    call_steps g (waiting id a) lt is busy = inl (wait_steps g id a lt is)
    call_steps g (closing_rest []) lt is busy = inl (turn g, lt, refl, ground (arith, is))
    call_steps g (closing_rest (x ∷ left)) lt is busy = inl (pick g x, lt, refl, ground (arith, is))

    quiet_closed :
        b.closed ≡ true
        → ((g : ℕ) → g < n → b.calls g ≡ idle)
        → (id : ℕ) → id < b.next_id
        → b.ch_closed id ≡ true
    quiet_closed shut_down quiet id known =
        let nobody : sum_below (λ k. holds id (b.calls k)) n ≡ 0 = omega (
          arith,
          sum_below-zero n,
          sum_below-congr (λ k. holds id (b.calls k)) (λ k. 0) n
              (λ k lt. ap (holds id) (quiet k lt)),
        ) in
        ground (arith, inv.tokens id, ap (count id) (inv.emptied shut_down), nobody, known)

  -- In every reachable state in which a call is under way, some call under way can take a step
  -- without waiting for a receiver, or a message is being sent to the full channel of a subscriber
  -- that is not closed, of a broker that is not closed.
  pub broker_progress :
      {n : ℕ} {b : Broker T} (buffer g : ℕ)
      → Reach (Step n) (new_broker buffer) b
      → g < n
      → b.calls g ≢ idle
      → Advance n b ⊎ Stalled n b
  broker_progress {n} {b} buffer g r lt busy =
      call_steps (Reach-Good buffer r) g (b.calls g) lt refl busy

  -- When the broker is closed and no call is under way, the channel of every subscriber there ever
  -- was is closed, so that its receiver ends.
  pub broker_channels_closed :
      {n : ℕ} {b : Broker T} (buffer : ℕ)
      → Reach (Step n) (new_broker buffer) b
      → b.closed ≡ true
      → ((g : ℕ) → g < n → b.calls g ≡ idle)
      → (id : ℕ) → id < b.next_id
      → b.ch_closed id ≡ true
  broker_channels_closed buffer r shut_down quiet id known =
      quiet_closed (Reach-Good buffer r) shut_down quiet id known
