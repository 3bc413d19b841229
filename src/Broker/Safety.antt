-- ===== src/Broker/Safety.antt =====
-- Nothing panics in examples/pubsub/broker.go, and a closed broker has closed every channel.
use mathlib.Core.Path.{subst}
use go_concurrency_examples.Base.{
  Bool, Bool-cases, List, Reach, Reach-inv, [], arith, count, count-erase, erase, false,
  if◌then◌else◌, inl, inr, is_some, length, ltb, refl, some, sum_below-zero, true, update, ℕ, ◌++◌,
  ◌<◌, ◌==◌, ◌∷◌, ◌≡◌,
}
use go_concurrency_examples.Broker.{
  Broker, Call, Step, act, act_broker_done, act_meet, act_pick, act_put, act_sub_done, act_turn,
  broker_done, call_subscribe, checking, close, closing, closing_rest, dropping, go_to, goroutine,
  idle, leaving, meet, new_broker, pick, publish, publishing, put, receive, rest, sending, sub_done,
  subscribe, take_message, turn, unsubscribe, waiting,
}
use go_concurrency_examples.Broker.Owners.{Inv, used}
use go_concurrency_examples.Broker.Calls.{
  close-Inv, drop-Inv, leave-Inv, open_if, publish-Inv, same-Inv, start_close-Inv, start_send-Inv,
  taken, unsubscribe-Inv, wait-Inv,
}

module _ {T : Type 0} {n g : ℕ} {b : Broker T} (inv : Inv n b) (lt : g < n) where
  subscribe-Inv : (c : Call T) {d : Broker T} → call_subscribe c b ≡ some d → Inv n d
  unfolding call_subscribe
  subscribe-Inv idle {d} e = open_if inv lt _ d e λ live. (record {
    tokens = λ id. ground (arith, inv.tokens id);
    closers = inv.closers;
    users = inv.users;
    shut = inv.shut;
    sound = inv.sound;
    dones = inv.dones;
    sub_dones = inv.sub_dones;
    emptied = λ shut_down. ground (arith, live, shut_down);
    writer_works = inv.writer_works;
  })
  subscribe-Inv (publishing _ _ _) e = ground (arith, e)
  subscribe-Inv (sending _ _ _ _) e = ground (arith, e)
  subscribe-Inv (leaving _ _ _ _ _) e = ground (arith, e)
  subscribe-Inv (checking _ _ _) e = ground (arith, e)
  subscribe-Inv (dropping _) e = ground (arith, e)
  subscribe-Inv (closing _ _) e = ground (arith, e)
  subscribe-Inv (waiting _ _) e = ground (arith, e)
  subscribe-Inv (closing_rest _) e = ground (arith, e)

  check-Inv :
      (m : T) (targets left : List ℕ)
      → b.calls g ≡ checking m targets left
      → Inv n (go_to g (if b.closed then idle else publishing m targets left) b)
  unfolding go_to
  check-Inv m targets left is = elim (Bool-cases b.closed) [
    | inl shut_down ↦
        subst (λ v. Inv n (go_to g v b)) (ground (arith, shut_down))
          (same-Inv inv lt (checking m targets left) idle _ is (λ j. (refl, refl, refl)) refl
            (refl, refl, refl, refl, refl, refl, refl, refl, refl, refl, refl))
    | inr live ↦
        subst (λ v. Inv n (go_to g v b)) (ground (arith, live))
          (same-Inv inv lt (checking m targets left) (publishing m targets left) _ is
            (λ j. (refl, refl, refl)) refl
            (refl, refl, refl, refl, refl, refl, refl, refl, refl, refl, refl))
  ]

  turn-Inv : (c : Call T) {d : Broker T} → b.calls g ≡ c → act_turn g c b ≡ some d → Inv n d
  unfolding act_turn go_to
  turn-Inv (publishing m targets []) {d} is e = subst (Inv n) (ground (arith, e)) (
      same-Inv inv lt (publishing m targets []) idle
        (record b { calls = update b.calls g idle; published = (m, targets) ∷ b.published }) is
        (λ j. (refl, refl, refl)) refl
        (refl, refl, refl, refl, refl, refl, refl, refl, refl, refl, refl))
  turn-Inv (publishing m targets (x ∷ left)) is e = ground (arith, e)
  turn-Inv (leaving m id ok targets left) is e =
      subst (Inv n) (ground (arith, e)) (leave-Inv inv lt m id ok targets left is)
  turn-Inv (checking m targets left) is e = elim (Bool-cases (is_some b.writer)) [
    | inl locked ↦ ground (arith, locked, e)
    | inr free ↦ subst (Inv n) (ground (arith, free, e)) (check-Inv m targets left is)
  ]
  turn-Inv (dropping id) is e = elim (Bool-cases (is_some b.writer)) [
    | inl locked ↦ ground (arith, locked, e)
    | inr free ↦ subst (Inv n) (ground (arith, free, e)) (drop-Inv inv lt id is)
  ]
  turn-Inv (closing id a) is e = subst (Inv n) (ground (arith, e)) (start_close-Inv inv lt id a is)
  turn-Inv (waiting id a) is e = elim (Bool-cases (b.wg id == 0)) [
    | inl quiet ↦
        subst (Inv n) (ground (arith, quiet, e)) (wait-Inv inv lt id a is (ground (arith, quiet)))
    | inr busy ↦ ground (arith, busy, e)
  ]
  turn-Inv (closing_rest []) is e = subst (Inv n) (ground (arith, e)) (
      same-Inv inv lt (closing_rest []) idle (record b { calls = update b.calls g idle }) is
        (λ j. (refl, refl, refl)) refl
        (refl, refl, refl, refl, refl, refl, refl, refl, refl, refl, refl))
  turn-Inv (closing_rest (x ∷ left)) is e = ground (arith, e)
  turn-Inv idle is e = ground (arith, e)
  turn-Inv (sending _ _ _ _) is e = ground (arith, e)

  pick-Inv :
      (id : ℕ) (c : Call T) {d : Broker T} → b.calls g ≡ c → act_pick g id c b ≡ some d → Inv n d
  unfolding act_pick go_to
  pick-Inv id (publishing m targets left) is e = elim (Bool-cases (count id left == 0)) [
    | inl gone ↦ ground (arith, gone, e)
    | inr there ↦
        subst (Inv n) (ground (arith, there, e))
          (start_send-Inv inv lt m id targets left (erase id left) is)
  ]
  pick-Inv id (closing_rest left) is e = elim (Bool-cases (count id left == 0)) [
    | inl gone ↦ ground (arith, gone, e)
    | inr there ↦ subst (Inv n) (ground (arith, there, e)) (
        same-Inv inv lt (closing_rest left) (closing id (rest (erase id left)))
          (record b { calls = update b.calls g (closing id (rest (erase id left))) }) is
          (λ j. (ground (arith, count-erase id j left), refl, refl)) refl
          (refl, refl, refl, refl, refl, refl, refl, refl, refl, refl, refl))
  ]
  pick-Inv id idle is e = ground (arith, e)
  pick-Inv id (sending _ _ _ _) is e = ground (arith, e)
  pick-Inv id (leaving _ _ _ _ _) is e = ground (arith, e)
  pick-Inv id (checking _ _ _) is e = ground (arith, e)
  pick-Inv id (dropping _) is e = ground (arith, e)
  pick-Inv id (closing _ _) is e = ground (arith, e)
  pick-Inv id (waiting _ _) is e = ground (arith, e)

  -- The channel of a subscriber is open while a call is in `send`.
  send_open :
      (m : T) (id : ℕ) (targets left : List ℕ)
      → b.calls g ≡ sending m id targets left
      → b.ch_closed id ≡ false
  send_open m id targets left is = elim (Bool-cases (b.ch_closed id)) [
    | inl over ↦ ground (arith, inv.shut id over, used inv lt is id)
    | inr live ↦ live
  ]

  left-Inv :
      (m : T) (id : ℕ) (ok : Bool) (targets left : List ℕ) (d : Broker T)
      → b.calls g ≡ sending m id targets left
      → (update b.calls g (leaving m id ok targets left) ≡ d.calls)
        × (b.subscribers ≡ d.subscribers)
        × (b.next_id ≡ d.next_id)
        × (b.wg ≡ d.wg)
        × (b.sub_closed ≡ d.sub_closed)
        × (b.ch_closed ≡ d.ch_closed)
        × (b.panicked ≡ d.panicked)
        × (b.closed ≡ d.closed)
        × (b.writer ≡ d.writer)
        × (b.done_closed ≡ d.done_closed)
        × (b.sub_done_closed ≡ d.sub_done_closed)
      → Inv n d
  left-Inv m id ok targets left d is same =
      same-Inv inv lt (sending m id targets left) (leaving m id ok targets left) d is
        (λ j. (refl, refl, refl)) refl same

  sub_done-Inv : (c : Call T) {d : Broker T} → b.calls g ≡ c → act_sub_done g c b ≡ some d → Inv n d
  unfolding act_sub_done go_to
  sub_done-Inv (sending m id targets left) is e = elim (Bool-cases (b.sub_done_closed id)) [
    | inl shut_down ↦ subst (Inv n) (ground (arith, shut_down, e)) (
        left-Inv m id false targets left
          (record b { calls = update b.calls g (leaving m id false targets left) }) is
          (refl, refl, refl, refl, refl, refl, refl, refl, refl, refl, refl))
    | inr live ↦ ground (arith, live, e)
  ]
  sub_done-Inv idle is e = ground (arith, e)
  sub_done-Inv (publishing _ _ _) is e = ground (arith, e)
  sub_done-Inv (leaving _ _ _ _ _) is e = ground (arith, e)
  sub_done-Inv (checking _ _ _) is e = ground (arith, e)
  sub_done-Inv (dropping _) is e = ground (arith, e)
  sub_done-Inv (closing _ _) is e = ground (arith, e)
  sub_done-Inv (waiting _ _) is e = ground (arith, e)
  sub_done-Inv (closing_rest _) is e = ground (arith, e)

  broker_done-Inv :
      (c : Call T) {d : Broker T} → b.calls g ≡ c → act_broker_done g c b ≡ some d → Inv n d
  unfolding act_broker_done go_to
  broker_done-Inv (sending m id targets left) is e = elim (Bool-cases b.done_closed) [
    | inl shut_down ↦ subst (Inv n) (ground (arith, shut_down, e)) (
        left-Inv m id false targets left
          (record b { calls = update b.calls g (leaving m id false targets left) }) is
          (refl, refl, refl, refl, refl, refl, refl, refl, refl, refl, refl))
    | inr live ↦ ground (arith, live, e)
  ]
  broker_done-Inv idle is e = ground (arith, e)
  broker_done-Inv (publishing _ _ _) is e = ground (arith, e)
  broker_done-Inv (leaving _ _ _ _ _) is e = ground (arith, e)
  broker_done-Inv (checking _ _ _) is e = ground (arith, e)
  broker_done-Inv (dropping _) is e = ground (arith, e)
  broker_done-Inv (closing _ _) is e = ground (arith, e)
  broker_done-Inv (waiting _ _) is e = ground (arith, e)
  broker_done-Inv (closing_rest _) is e = ground (arith, e)

  put-Inv : (c : Call T) {d : Broker T} → b.calls g ≡ c → act_put g c b ≡ some d → Inv n d
  unfolding act_put go_to
  put-Inv (sending m id targets left) is e =
      elim (Bool-cases (ltb (length (b.queue id)) b.buffer)) [
        | inl room ↦ subst (Inv n) (ground (arith, send_open m id targets left is, room, e)) (
            left-Inv m id true targets left
              (record b {
                calls = update b.calls g (leaving m id true targets left);
                queue = update b.queue id (b.queue id ++ m ∷ []);
              })
              is (refl, refl, refl, refl, refl, refl, refl, refl, refl, refl, refl))
        | inr full ↦ ground (arith, send_open m id targets left is, full, e)
      ]
  put-Inv idle is e = ground (arith, e)
  put-Inv (publishing _ _ _) is e = ground (arith, e)
  put-Inv (leaving _ _ _ _ _) is e = ground (arith, e)
  put-Inv (checking _ _ _) is e = ground (arith, e)
  put-Inv (dropping _) is e = ground (arith, e)
  put-Inv (closing _ _) is e = ground (arith, e)
  put-Inv (waiting _ _) is e = ground (arith, e)
  put-Inv (closing_rest _) is e = ground (arith, e)

  meet-Inv : (c : Call T) {d : Broker T} → b.calls g ≡ c → act_meet g c b ≡ some d → Inv n d
  unfolding act_meet go_to
  meet-Inv (sending m id targets left) is e = elim (Bool-cases (length (b.queue id) == 0)) [
    | inl room ↦ subst (Inv n) (ground (arith, send_open m id targets left is, room, e)) (
        left-Inv m id true targets left
          (record b {
            calls = update b.calls g (leaving m id true targets left);
            received = update b.received id (b.received id ++ m ∷ []);
          })
          is (refl, refl, refl, refl, refl, refl, refl, refl, refl, refl, refl))
    | inr full ↦ ground (arith, send_open m id targets left is, full, e)
  ]
  meet-Inv idle is e = ground (arith, e)
  meet-Inv (publishing _ _ _) is e = ground (arith, e)
  meet-Inv (leaving _ _ _ _ _) is e = ground (arith, e)
  meet-Inv (checking _ _ _) is e = ground (arith, e)
  meet-Inv (dropping _) is e = ground (arith, e)
  meet-Inv (closing _ _) is e = ground (arith, e)
  meet-Inv (waiting _ _) is e = ground (arith, e)
  meet-Inv (closing_rest _) is e = ground (arith, e)

module _ {T : Type 0} {n : ℕ} where
  receive-Inv :
      {b d : Broker T} (id : ℕ) (xs : List T) → take_message id xs b ≡ some d → Inv n b → Inv n d
  unfolding take_message
  receive-Inv id [] e inv = ground (arith, e)
  receive-Inv {b} {d} id (m ∷ more) e inv = subst (Inv n) (ground (arith, e)) (taken inv id m more)

  Step-Inv : (b d : Broker T) → Step n b d → Inv n b → Inv n d
  unfolding act
  Step-Inv b d (goroutine (subscribe g) lt e) inv = subscribe-Inv inv lt (b.calls g) e
  Step-Inv b d (goroutine (close g) lt e) inv = close-Inv inv lt (b.calls g) refl e
  Step-Inv b d (goroutine (publish g m) lt e) inv = publish-Inv inv lt m (b.calls g) refl e
  Step-Inv b d (goroutine (unsubscribe g id) lt e) inv =
      unsubscribe-Inv inv lt id (b.calls g) refl e
  Step-Inv b d (goroutine (pick g id) lt e) inv = pick-Inv inv lt id (b.calls g) refl e
  Step-Inv b d (goroutine (turn g) lt e) inv = turn-Inv inv lt (b.calls g) refl e
  Step-Inv b d (goroutine (sub_done g) lt e) inv = sub_done-Inv inv lt (b.calls g) refl e
  Step-Inv b d (goroutine (broker_done g) lt e) inv = broker_done-Inv inv lt (b.calls g) refl e
  Step-Inv b d (goroutine (put g) lt e) inv = put-Inv inv lt (b.calls g) refl e
  Step-Inv b d (goroutine (meet g) lt e) inv = meet-Inv inv lt (b.calls g) refl e
  Step-Inv b d (goroutine (receive id) lt e) inv = receive-Inv id (b.queue id) e inv

  pub new-Inv : (buffer : ℕ) → Inv {T = T} n (new_broker buffer)
  unfolding new_broker
  new-Inv buffer = record {
    tokens = λ id. ground (arith, sum_below-zero n);
    closers = λ id. omega (arith, sum_below-zero n);
    users = λ id. omega (arith, sum_below-zero n);
    shut = λ id over. cc;
    sound = refl;
    dones = refl;
    sub_dones = λ id. refl;
    emptied = λ shut_down. refl;
    writer_works = λ w at. cc;
  }

  pub Reach-Good :
      {b : Broker T} (buffer : ℕ) → Reach (Step {T = T} n) (new_broker buffer) b → Inv n b
  Reach-Good buffer r = Reach-inv (Inv n) (λ b d st. Step-Inv b d st) (new-Inv buffer) r

  -- In no execution, with any number of goroutines that subscribe, publish, unsubscribe and close at
  -- any time, is a message sent on a closed channel or a channel closed twice, be it the one of a subscriber's
  -- messages, its done or the broker's done: nothing panics.
  pub broker_no_panic :
      {b : Broker T} (buffer : ℕ)
      → Reach (Step {T = T} n) (new_broker buffer) b
      → b.panicked ≡ false
  broker_no_panic buffer r = (Reach-Good buffer r).sound
