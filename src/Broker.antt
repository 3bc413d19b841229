-- ===== src/Broker.antt =====
-- examples/pubsub/broker.go, for a broker that New returned, at the level of its goroutines. A critical
-- section of a mutex is one step, but for the one of `unsubscribe`, which holds the mutex of the broker
-- while it closes the subscriber.
mod Owners
mod Calls
mod Safety
mod Progress
mod Tests
use go_concurrency_examples.Base.{
  Bool, List, Option, [], count, erase, false, if◌then◌else◌, inl, inr, is_some, length, ltb, none,
  some, suc, true, update, ℕ, ◌++◌, ◌-◌, ◌<◌, ◌==◌, ◌∷◌, ◌≡◌, ◌⊎◌,
}
use go_concurrency_examples.Base.Int.{ltb_ℤ, pos, pos_part, ℤ}

-- After `close` of a subscriber: `unsubscribe` unlocks the broker, or the loop of Close goes on with the
-- subscribers that are left.
pub data After : Type 0 where
  unlock : After
  rest : List ℕ → After

-- A call. Publish: in its loop, with the subscribers of its snapshot and those left; in the select of
-- `send`; before its deferred `wg.Done`, with what it returns; and before `isClosed`. Unsubscribe: before
-- the lock. A subscriber's `close`: before it, and in `wg.Wait`. Close: in its loop.
pub data Call (T : Type 0) : Type 0 where
  idle : Call T
  publishing : T → List ℕ → List ℕ → Call T
  sending : T → ℕ → List ℕ → List ℕ → Call T
  leaving : T → ℕ → Bool → List ℕ → List ℕ → Call T
  checking : T → List ℕ → List ℕ → Call T
  dropping : ℕ → Call T
  closing : ℕ → After → Call T
  waiting : ℕ → After → Call T
  closing_rest : List ℕ → Call T

pub data Once : Type 0 where
  fresh : Once
  started : Once
  ended : Once

-- The fields of a subscriber are families over its id: `wg`, `sub_closed` (its field `closed`),
-- `sub_done_closed` (whether its channel `done` is closed), `queue` (what its channel `ch` holds),
-- `ch_closed` (whether that is closed) and `received` (what its owner received). `done_closed` is whether
-- the broker's channel `done` is closed, and `writer` the goroutine that is in `unsubscribe` with the
-- lock of the broker. `panicked` is a send on a closed channel or a close of one. `published` is the
-- Publish calls that returned nil, with their snapshots.
pub record Broker (T : Type 0) : Type 0 where
  pub subscribers : List ℕ
  pub next_id : ℕ
  pub buffer : ℕ
  pub closed : Bool
  pub done_closed : Bool
  pub writer : Option ℕ
  pub wg : ℕ → ℕ
  pub sub_closed : ℕ → Bool
  pub sub_done_closed : ℕ → Bool
  pub ch_closed : ℕ → Bool
  pub queue : ℕ → List T
  pub received : ℕ → List T
  pub once : ℕ → Once
  pub calls : ℕ → Call T
  pub published : List (T × List ℕ)
  pub panicked : Bool

-- What the scheduler and the callers choose: a call, its next step, the next subscriber of a loop, a
-- case of the select of `send` (`meet` is a send to a waiting receiver), or a receive.
pub data Choice (T : Type 0) : Type 0 where
  subscribe close : ℕ → Choice T
  publish : ℕ → T → Choice T
  unsubscribe pick : ℕ → ℕ → Choice T
  turn sub_done broker_done put meet : ℕ → Choice T
  receive : ℕ → Choice T

pub data Argument : Type 0 where
  negative_buffer : ℤ → Argument

module _ {T : Type 0} where
  pub new_broker : ℕ → Broker T
  new_broker buffer = record {
    subscribers = [];
    next_id = 0;
    buffer = buffer;
    closed = false;
    done_closed = false;
    writer = none;
    wg = λ _. 0;
    sub_closed = λ _. false;
    sub_done_closed = λ _. false;
    ch_closed = λ _. false;
    queue = λ _. [];
    received = λ _. [];
    once = λ _. fresh;
    calls = λ _. idle;
    published = [];
    panicked = false;
  }

  -- New.
  pub new : ℤ → Broker T ⊎ Argument
  unfolding new_broker
  new buffer =
      if ltb_ℤ buffer (pos 0)
      then inr (negative_buffer buffer)
      else inl (new_broker (pos_part buffer))

  pub go_to : ℕ → Call T → Broker T → Broker T
  go_to g c b = record b { calls = update b.calls g c }

  -- The critical sections with which the calls start.
  pub call_subscribe : Call T → Broker T → Option (Broker T)
  call_subscribe idle b =
      if is_some b.writer
      then none
      else if b.closed
      then some b
      else some (record b { next_id = suc b.next_id; subscribers = b.next_id ∷ b.subscribers })
  call_subscribe _ b = none

  pub call_publish : ℕ → T → Call T → Broker T → Option (Broker T)
  unfolding go_to
  call_publish g m idle b =
      if is_some b.writer
      then none
      else if b.closed
      then some b
      else some (go_to g (publishing m b.subscribers b.subscribers) b)
  call_publish g m _ b = none

  -- `once.Do` around `unsubscribe`: it blocks while another call runs it.
  pub once_do : ℕ → ℕ → Once → Broker T → Option (Broker T)
  unfolding go_to
  once_do g id fresh b =
      if ltb id b.next_id
      then some (go_to g (dropping id) (record b { once = update b.once id started }))
      else none
  once_do g id started b = none
  once_do g id ended b = some b

  pub call_unsubscribe : ℕ → ℕ → Call T → Broker T → Option (Broker T)
  unfolding once_do
  call_unsubscribe g id idle b = once_do g id (b.once id) b
  call_unsubscribe g id _ b = none

  -- A close of a channel that is closed already panics.
  pub close_done : Broker T → Broker T
  close_done b =
      if b.done_closed then record b { panicked = true } else record b { done_closed = true }

  pub call_close : ℕ → Call T → Broker T → Option (Broker T)
  unfolding go_to close_done
  call_close g idle b =
      if is_some b.writer
      then none
      else if b.closed
      then some b
      else some (
          go_to g (closing_rest b.subscribers)
            (close_done (record b { closed = true; subscribers = [] })))
  call_close g _ b = none

  -- The end of a subscriber's `close`.
  pub after : ℕ → ℕ → After → Broker T → Broker T
  unfolding go_to
  after g id unlock b = go_to g idle (record b { writer = none; once = update b.once id ended })
  after g id (rest left) b = go_to g (closing_rest left) b

  pub close_channel : ℕ → Broker T → Broker T
  close_channel id b =
      if b.ch_closed id
      then record b { panicked = true }
      else record b { ch_closed = update b.ch_closed id true }

  -- `unsubscribe` from its lock to the call of `close`.
  pub drop : ℕ → ℕ → Broker T → Broker T
  unfolding go_to
  drop g id b =
      if count id b.subscribers == 0
      then go_to g idle (record b { once = update b.once id ended })
      else go_to g (closing id unlock)
          (record b { subscribers = erase id b.subscribers; writer = some g })

  pub close_sub_done : ℕ → Broker T → Broker T
  close_sub_done id b =
      if b.sub_done_closed id
      then record b { panicked = true }
      else record b { sub_done_closed = update b.sub_done_closed id true }

  -- The critical section of a subscriber's `close`.
  pub start_close : ℕ → ℕ → After → Broker T → Broker T
  unfolding go_to after close_sub_done
  start_close g id a b =
      if b.sub_closed id
      then after g id a b
      else go_to g (waiting id a)
          (close_sub_done id (record b { sub_closed = update b.sub_closed id true }))

  -- The critical section of `send`.
  pub start_send : ℕ → T → ℕ → List ℕ → List ℕ → Broker T → Broker T
  unfolding go_to
  start_send g m id targets left b =
      if b.sub_closed id
      then go_to g (checking m targets left) b
      else go_to g (sending m id targets left) (record b { wg = update b.wg id (suc (b.wg id)) })

  -- The next step of a call that has only one.
  pub act_turn : ℕ → Call T → Broker T → Option (Broker T)
  unfolding go_to drop start_close after close_channel
  act_turn g (publishing m targets []) b =
      some (go_to g idle (record b { published = (m, targets) ∷ b.published }))
  act_turn g (leaving m id ok targets left) b = some (
      go_to g (if ok then publishing m targets left else checking m targets left)
        (record b { wg = update b.wg id (b.wg id - 1) }))
  act_turn g (checking m targets left) b =
      if is_some b.writer
      then none
      else some (go_to g (if b.closed then idle else publishing m targets left) b)
  act_turn g (dropping id) b = if is_some b.writer then none else some (drop g id b)
  act_turn g (closing id a) b = some (start_close g id a b)
  act_turn g (waiting id a) b =
      if b.wg id == 0 then some (after g id a (close_channel id b)) else none
  act_turn g (closing_rest []) b = some (go_to g idle b)
  act_turn g _ b = none

  -- The loops of Publish and of Close take their next subscriber.
  pub act_pick : ℕ → ℕ → Call T → Broker T → Option (Broker T)
  unfolding go_to start_send
  act_pick g id (publishing m targets left) b =
      if count id left == 0 then none else some (start_send g m id targets (erase id left) b)
  act_pick g id (closing_rest left) b =
      if count id left == 0 then none else some (go_to g (closing id (rest (erase id left))) b)
  act_pick g id _ b = none

  -- The cases of the select of `send`.
  pub act_sub_done : ℕ → Call T → Broker T → Option (Broker T)
  unfolding go_to
  act_sub_done g (sending m id targets left) b =
      if b.sub_done_closed id then some (go_to g (leaving m id false targets left) b) else none
  act_sub_done g _ b = none

  pub act_broker_done : ℕ → Call T → Broker T → Option (Broker T)
  unfolding go_to
  act_broker_done g (sending m id targets left) b =
      if b.done_closed then some (go_to g (leaving m id false targets left) b) else none
  act_broker_done g _ b = none

  pub act_put : ℕ → Call T → Broker T → Option (Broker T)
  unfolding go_to
  act_put g (sending m id targets left) b =
      if b.ch_closed id
      then some (record b { panicked = true })
      else if ltb (length (b.queue id)) b.buffer
      then some (
          go_to g (leaving m id true targets left)
            (record b { queue = update b.queue id (b.queue id ++ m ∷ []) }))
      else none
  act_put g _ b = none

  pub act_meet : ℕ → Call T → Broker T → Option (Broker T)
  unfolding go_to
  act_meet g (sending m id targets left) b =
      if b.ch_closed id
      then some (record b { panicked = true })
      else if length (b.queue id) == 0
      then some (
          go_to g (leaving m id true targets left)
            (record b { received = update b.received id (b.received id ++ m ∷ []) }))
      else none
  act_meet g _ b = none

  pub take_message : ℕ → List T → Broker T → Option (Broker T)
  take_message id [] b = none
  take_message id (m ∷ more) b = some (record b {
    queue = update b.queue id more;
    received = update b.received id (b.received id ++ m ∷ []);
  })

  pub act : Choice T → Broker T → Option (Broker T)
  unfolding call_subscribe call_publish call_unsubscribe call_close act_turn act_pick act_sub_done
      act_broker_done act_put act_meet take_message
  act (subscribe g) b = call_subscribe (b.calls g) b
  act (publish g m) b = call_publish g m (b.calls g) b
  act (unsubscribe g id) b = call_unsubscribe g id (b.calls g) b
  act (close g) b = call_close g (b.calls g) b
  act (turn g) b = act_turn g (b.calls g) b
  act (pick g id) b = act_pick g id (b.calls g) b
  act (sub_done g) b = act_sub_done g (b.calls g) b
  act (broker_done g) b = act_broker_done g (b.calls g) b
  act (put g) b = act_put g (b.calls g) b
  act (meet g) b = act_meet g (b.calls g) b
  act (receive id) b = take_message id (b.queue id) b

  abbrev pub IsChoice : ℕ → Choice T → Type 0
  IsChoice n (subscribe g) = g < n
  IsChoice n (publish g m) = g < n
  IsChoice n (unsubscribe g id) = g < n
  IsChoice n (close g) = g < n
  IsChoice n (turn g) = g < n
  IsChoice n (pick g id) = g < n
  IsChoice n (sub_done g) = g < n
  IsChoice n (broker_done g) = g < n
  IsChoice n (put g) = g < n
  IsChoice n (meet g) = g < n
  IsChoice n (receive id) = Unit {0}

  -- SubscriberCount.
  pub subscriber_count : Broker T → ℕ
  subscriber_count b = length b.subscribers

pub data Step {T : Type 0} (n : ℕ) (b c : Broker T) : Type 0 where
  goroutine : (x : Choice T) → IsChoice n x → act x b ≡ some c → Step n b c
