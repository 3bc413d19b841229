-- ===== src/Broker/Tests.antt =====
-- Three goroutines and a buffer of one: one subscribes, one publishes twice, one closes the broker.
use go_concurrency_examples.Base.{
  List, Option, Ran, [], arith, execute, false, here, if◌then◌else◌, ltb, none, refl, some, true, ℕ,
  ◌++◌, ◌<◌, ◌∷◌, ◌≡◌, ◌⊎◌,
}
use go_concurrency_examples.Broker.Progress.{
  Advance, Stalled, broker_channels_closed, broker_progress,
}
use go_concurrency_examples.Broker.{
  Broker, Choice, Step, act, act_pick, act_put, act_sub_done, act_turn, after, broker_done,
  call_close, call_publish, call_subscribe, close, close_channel, go_to, goroutine, idle, meet,
  new_broker, pick, publish, put, receive, rest, start_close, start_send, sub_done, subscribe,
  take_message, turn, unsubscribe, waiting, close_done, close_sub_done,
}
use go_concurrency_examples.Broker.Safety.{broker_no_panic}

abbrev move : Choice ℕ → Broker ℕ → Option (Broker ℕ)
move (subscribe g) b = if ltb g 3 then act (subscribe g) b else none
move (close g) b = if ltb g 3 then act (close g) b else none
move (publish g m) b = if ltb g 3 then act (publish g m) b else none
move (unsubscribe g id) b = if ltb g 3 then act (unsubscribe g id) b else none
move (pick g id) b = if ltb g 3 then act (pick g id) b else none
move (turn g) b = if ltb g 3 then act (turn g) b else none
move (sub_done g) b = if ltb g 3 then act (sub_done g) b else none
move (broker_done g) b = if ltb g 3 then act (broker_done g) b else none
move (put g) b = if ltb g 3 then act (put g) b else none
move (meet g) b = if ltb g 3 then act (meet g) b else none
move (receive id) b = act (receive id) b

move-Step : (x : Choice ℕ) (b d : Broker ℕ) → move x b ≡ some d → Step 3 b d
move-Step (subscribe g) b d e = goroutine (subscribe g) (ground arith) (ground arith)
move-Step (close g) b d e = goroutine (close g) (ground arith) (ground arith)
move-Step (publish g m) b d e = goroutine (publish g m) (ground arith) (ground arith)
move-Step (unsubscribe g id) b d e = goroutine (unsubscribe g id) (ground arith) (ground arith)
move-Step (pick g id) b d e = goroutine (pick g id) (ground arith) (ground arith)
move-Step (turn g) b d e = goroutine (turn g) (ground arith) (ground arith)
move-Step (sub_done g) b d e = goroutine (sub_done g) (ground arith) (ground arith)
move-Step (broker_done g) b d e = goroutine (broker_done g) (ground arith) (ground arith)
move-Step (put g) b d e = goroutine (put g) (ground arith) (ground arith)
move-Step (meet g) b d e = goroutine (meet g) (ground arith) (ground arith)
move-Step (receive id) b d e = goroutine (receive id) tt e

abbrev play : List (Choice ℕ) → Ran (Step 3) (new_broker {T = ℕ} 1)
play xs = execute move move-Step (record { last = new_broker 1; reach = here }) xs

-- The second message waits for room while the broker is closed.
abbrev sending_on : List (Choice ℕ)
sending_on =
    subscribe 0 ∷ publish 1 7 ∷ pick 1 0 ∷ put 1 ∷ turn 1 ∷ turn 1 ∷ publish 1 8 ∷ pick 1 0 ∷ []

abbrev closing_down : Ran (Step 3) (new_broker {T = ℕ} 1)
closing_down = play (sending_on ++ (close 2 ∷ pick 2 0 ∷ turn 2 ∷ []))

abbrev closed_down : Ran (Step 3) (new_broker {T = ℕ} 1)
closed_down = play (
    sending_on
    ++ (close 2
        ∷ pick 2 0
        ∷ turn 2
        ∷ sub_done 1
        ∷ turn 1
        ∷ turn 1
        ∷ turn 2
        ∷ turn 2
        ∷ receive 0
        ∷ []))

closing_down_waits : closing_down.last.calls 2 ≡ waiting 0 (rest [])
unfolding execute act new_broker go_to call_subscribe call_publish call_close close_done act_pick
    start_send act_put act_turn start_close close_sub_done
closing_down_waits = refl

closed_down_state :
    (closed_down.last.closed ≡ true)
    × (closed_down.last.next_id ≡ 1)
    × (closed_down.last.received 0 ≡ 7 ∷ [])
    × (closed_down.last.published ≡ (7, 0 ∷ []) ∷ [])
    × ((g : ℕ) → g < 3 → closed_down.last.calls g ≡ idle)
unfolding execute act new_broker go_to call_subscribe call_publish call_close close_done act_pick
    start_send act_put act_turn start_close close_sub_done act_sub_done after close_channel
    take_message
closed_down_state = (refl, refl, refl, refl, λ g lt. ground arith)

broker_no_panic_example : closed_down.last.panicked ≡ false
broker_no_panic_example = broker_no_panic 1 closed_down.reach

broker_progress_example : Advance 3 closing_down.last ⊎ Stalled 3 closing_down.last
broker_progress_example =
    broker_progress 1 2 closing_down.reach (omega arith)
      (λ e. ground (arith, closing_down_waits, e))

broker_channels_closed_example : closed_down.last.ch_closed 0 ≡ true
broker_channels_closed_example =
    broker_channels_closed 1 closed_down.reach closed_down_state.0 closed_down_state.4 0
      (ground (arith, closed_down_state.1))
