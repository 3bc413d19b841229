-- ===== src/Broker/Calls.antt =====
-- The invariant of examples/pubsub/broker.go, call by call.
use mathlib.Core.Path.{subst}
use go_concurrency_examples.Base.{
  Bool, Bool-cases, arith, count, count-erase, inl, inr, refl, some, true, update, ℕ, ◌<◌, ◌==◌,
  ◌≡◌, List, if◌then◌else◌, is_some, ltb, none, ◌-◌, dec_lt, false, sum_below, sum_below_pos, ap,
  le-sum_below_two, to_num, to_num-le_one, ◌≢◌, [], ◌++◌, ◌∷◌, erase, sym, ◌∙◌,
}
use go_concurrency_examples.Broker.{
  Broker, Call, call_publish, drop, dropping, go_to, idle, After, Once, after, call_close,
  call_unsubscribe, checking, close_channel, closing, closing_rest, fresh, leaving, publishing,
  rest, sending, start_close, start_send, started, unlock, waiting, once_do, ended, close_done,
  close_sub_done,
}
use go_concurrency_examples.Broker.Owners.{
  Inv, Moved-Inv, holds, uses, waits, used, held, waits-holds, writes,
}

same_id : (id : ℕ) → to_num (id == id) ≡ 1
same_id id = ground arith

module _ {T : Type 0} {n g : ℕ} {b : Broker T} (inv : Inv n b) (lt : g < n) where
  -- A call goes on, and nothing that the invariant counts changes.
  pub same-Inv :
      (old now : Call T) (c : Broker T)
      → b.calls g ≡ old
      → ((id : ℕ)
          → (holds id now ≡ holds id old)
            × (waits id now ≡ waits id old)
            × (uses id now ≡ uses id old))
      → writes now ≡ writes old
      → (update b.calls g now ≡ c.calls)
        × (b.subscribers ≡ c.subscribers)
        × (b.next_id ≡ c.next_id)
        × (b.wg ≡ c.wg)
        × (b.sub_closed ≡ c.sub_closed)
        × (b.ch_closed ≡ c.ch_closed)
        × (b.panicked ≡ c.panicked)
        × (b.closed ≡ c.closed)
        × (b.writer ≡ c.writer)
        × (b.done_closed ≡ c.done_closed)
        × (b.sub_done_closed ≡ c.sub_done_closed)
      → Inv n c
  same-Inv old now c is like writing
        (calls, subs, ids, wgs, subs_closed, chs, calm, shutting, locking, doning, sub_doning) =
      Moved-Inv inv lt is calls (record {
        tokens_moved = λ id. let (h, w, u) = like id in cc;
        closers_moved = λ id. let (h, w, u) = like id in cc;
        users_moved = λ id. let (h, w, u) = like id in cc;
        shut_kept =
            subst (λ (f : ℕ → ℕ). (id : ℕ) → c.ch_closed id ≡ true → f id ≡ 0) wgs
              (subst (λ (f : ℕ → Bool). (id : ℕ) → f id ≡ true → b.wg id ≡ 0) chs inv.shut);
        sound_kept = ground (arith, calm, inv.sound);
        dones_kept = ground (arith, inv.dones, doning, shutting);
        sub_dones_kept = λ id.
            let here_done = ap (λ (f : ℕ → Bool). f id) sub_doning in
            let here_closed = ap (λ (f : ℕ → Bool). f id) subs_closed in
            ground (arith, inv.sub_dones id, here_done, here_closed);
        emptied_kept = λ shut_down. ground (arith, subs, inv.emptied (shutting ∙ shut_down));
        writer_moved = inr (inl (sym locking, writing));
      })

  pub open_if :
      (c d : Broker T)
      → (if is_some b.writer then none else if b.closed then some b else some c) ≡ some d
      → (b.closed ≡ false → Inv n c)
      → Inv n d
  open_if c d e kept = elim (Bool-cases (is_some b.writer)) [
    | inl locked ↦ ground (arith, locked, e)
    | inr free ↦ elim (Bool-cases b.closed) [
      | inl shut_down ↦ subst (Inv n) (ground (arith, free, shut_down, e)) inv
      | inr live ↦ subst (Inv n) (ground (arith, free, live, e)) (kept live)
    ]
  ]

  pub publish-Inv :
      (m : T) (c : Call T) {d : Broker T} → b.calls g ≡ c → call_publish g m c b ≡ some d → Inv n d
  unfolding call_publish go_to
  publish-Inv m idle {d} is e = open_if _ d e (λ live.
      same-Inv idle (publishing m b.subscribers b.subscribers) _ is (λ j. (refl, refl, refl)) refl
        (refl, refl, refl, refl, refl, refl, refl, refl, refl, refl, refl))
  publish-Inv m (publishing _ _ _) is e = ground (arith, e)
  publish-Inv m (sending _ _ _ _) is e = ground (arith, e)
  publish-Inv m (leaving _ _ _ _ _) is e = ground (arith, e)
  publish-Inv m (checking _ _ _) is e = ground (arith, e)
  publish-Inv m (dropping _) is e = ground (arith, e)
  publish-Inv m (closing _ _) is e = ground (arith, e)
  publish-Inv m (waiting _ _) is e = ground (arith, e)
  publish-Inv m (closing_rest _) is e = ground (arith, e)

  once_do-Inv :
      (id : ℕ) (o : Once) {d : Broker T} → b.calls g ≡ idle → once_do g id o b ≡ some d → Inv n d
  unfolding once_do go_to
  once_do-Inv id fresh is e = elim (Bool-cases (ltb id b.next_id)) [
    | inl known ↦ subst (Inv n) (ground (arith, known, e)) (
        same-Inv idle (dropping id)
          (record b { calls = update b.calls g (dropping id); once = update b.once id started }) is
          (λ j. (refl, refl, refl)) refl
          (refl, refl, refl, refl, refl, refl, refl, refl, refl, refl, refl))
    | inr unknown ↦ ground (arith, unknown, e)
  ]
  once_do-Inv id started is e = ground (arith, e)
  once_do-Inv id ended is e = subst (Inv n) (ground (arith, e)) inv

  pub unsubscribe-Inv :
      (id : ℕ) (c : Call T) {d : Broker T}
      → b.calls g ≡ c
      → call_unsubscribe g id c b ≡ some d
      → Inv n d
  unfolding call_unsubscribe
  unsubscribe-Inv id idle is e = once_do-Inv id (b.once id) is e
  unsubscribe-Inv id (publishing _ _ _) is e = ground (arith, e)
  unsubscribe-Inv id (sending _ _ _ _) is e = ground (arith, e)
  unsubscribe-Inv id (leaving _ _ _ _ _) is e = ground (arith, e)
  unsubscribe-Inv id (checking _ _ _) is e = ground (arith, e)
  unsubscribe-Inv id (dropping _) is e = ground (arith, e)
  unsubscribe-Inv id (closing _ _) is e = ground (arith, e)
  unsubscribe-Inv id (waiting _ _) is e = ground (arith, e)
  unsubscribe-Inv id (closing_rest _) is e = ground (arith, e)

  -- Close has closed `done` for the first time.
  closed-Inv :
      b.calls g ≡ idle
      → b.closed ≡ false
      → Inv n (
          go_to g
            (closing_rest b.subscribers)
            (close_done (record b { closed = true; subscribers = [] })))
  unfolding go_to close_done
  closed-Inv is live =
      let not_done : b.done_closed ≡ false = inv.dones ∙ live in
      rw not_done (
        Moved-Inv inv lt is refl (record {
          tokens_moved = λ j. ground arith;
          closers_moved = λ j. refl;
          users_moved = λ j. refl;
          shut_kept = inv.shut;
          sound_kept = inv.sound;
          dones_kept = refl;
          sub_dones_kept = inv.sub_dones;
          emptied_kept = λ shut_down. refl;
          writer_moved = inr (inl (refl, refl));
        }))

  pub close-Inv : (c : Call T) {d : Broker T} → b.calls g ≡ c → call_close g c b ≡ some d → Inv n d
  unfolding call_close
  close-Inv idle {d} is e = open_if _ d e (λ live. closed-Inv is live)
  close-Inv (publishing _ _ _) is e = ground (arith, e)
  close-Inv (sending _ _ _ _) is e = ground (arith, e)
  close-Inv (leaving _ _ _ _ _) is e = ground (arith, e)
  close-Inv (checking _ _ _) is e = ground (arith, e)
  close-Inv (dropping _) is e = ground (arith, e)
  close-Inv (closing _ _) is e = ground (arith, e)
  close-Inv (waiting _ _) is e = ground (arith, e)
  close-Inv (closing_rest _) is e = ground (arith, e)

  pub drop-Inv : (id : ℕ) → b.calls g ≡ dropping id → Inv n (drop g id b)
  unfolding drop go_to
  drop-Inv id is = elim (Bool-cases (count id b.subscribers == 0)) [
    | inl gone ↦ rw gone (
        same-Inv (dropping id) idle _ is (λ j. (refl, refl, refl)) refl
          (refl, refl, refl, refl, refl, refl, refl, refl, refl, refl, refl))
    | inr here_still ↦ rw here_still (
        Moved-Inv inv lt is refl (record {
          tokens_moved = λ j. ground (arith, count-erase id j b.subscribers);
          closers_moved = λ j. refl;
          users_moved = λ j. refl;
          shut_kept = inv.shut;
          sound_kept = inv.sound;
          dones_kept = inv.dones;
          sub_dones_kept = inv.sub_dones;
          emptied_kept = λ shut_down. ap (erase id) (inv.emptied shut_down);
          writer_moved = inr (inr (refl, refl));
        }))
  ]

  not_waiting :
      (id : ℕ) (a : After) (k : ℕ) → b.calls g ≡ closing id a → g ≡ k → 0 < waits id (b.calls k) → ⊥
  not_waiting id a k is e pos_wait =
      omega (arith, pos_wait, ap (λ j. waits id (b.calls j)) e, ap (waits id) is)

  -- A call that is to close a subscriber is the only one.
  only_closer : (id : ℕ) (a : After) → b.calls g ≡ closing id a → b.sub_closed id ≡ true → ⊥
  only_closer id a is shut_down = elim (dec_lt 0 (sum_below (λ k. waits id (b.calls k)) n)) [
    | yes someone ↦
        let (k, below, pos_wait) = sum_below_pos (λ k. waits id (b.calls k)) n someone in
        let other : g ≢ k = λ e. not_waiting id a k is e pos_wait in
        omega (
          arith,
          le-sum_below_two (λ k. holds id (b.calls k)) n g k lt below other,
          waits-holds id (b.calls k),
          pos_wait,
          ap (holds id) is,
          inv.tokens id,
          to_num-le_one (ltb id b.next_id),
          to_num-le_one (id == id),
          same_id id,
        )
    | no nobody ↦
        ground (arith, shut_down, nobody, inv.closers id, inv.tokens id, held inv lt is id)
  ]

  open_channel : (id : ℕ) (a : After) → b.calls g ≡ waiting id a → b.ch_closed id ≡ false
  open_channel id a is = ground (arith, inv.tokens id, held inv lt is id)

  pub start_close-Inv :
      (id : ℕ) (a : After) → b.calls g ≡ closing id a → Inv n (start_close g id a b)
  unfolding start_close go_to close_sub_done
  start_close-Inv id a is = elim (Bool-cases (b.sub_closed id)) [
    | inl shut_down ↦ absurd (only_closer id a is shut_down)
    | inr live ↦
        let not_done : b.sub_done_closed id ≡ false = inv.sub_dones id ∙ live in
        rw (live, not_done)
          (Moved-Inv inv lt is refl (record {
            tokens_moved = λ j. refl;
            closers_moved = λ j. ground (arith, live);
            users_moved = λ j. refl;
            shut_kept = inv.shut;
            sound_kept = inv.sound;
            dones_kept = inv.dones;
            sub_dones_kept = λ j. ground (arith, inv.sub_dones j);
            emptied_kept = inv.emptied;
            writer_moved = inr (inl (refl, refl));
          }))
  ]

  pub start_send-Inv :
      (m : T) (id : ℕ) (targets before left : List ℕ)
      → b.calls g ≡ publishing m targets before
      → Inv n (start_send g m id targets left b)
  unfolding start_send go_to
  start_send-Inv m id targets before left is = elim (Bool-cases (b.sub_closed id)) [
    | inl shut_down ↦ rw shut_down (
        same-Inv (publishing m targets before) (checking m targets left) _ is
          (λ j. (refl, refl, refl)) refl
          (refl, refl, refl, refl, refl, refl, refl, refl, refl, refl, refl))
    | inr live ↦ rw live (
        Moved-Inv inv lt is refl (record {
          tokens_moved = λ j. refl;
          closers_moved = λ j. refl;
          users_moved = λ j. ground arith;
          shut_kept = λ j over. ground (arith, live, inv.closers id, inv.shut j over);
          sound_kept = inv.sound;
          dones_kept = inv.dones;
          sub_dones_kept = inv.sub_dones;
          emptied_kept = inv.emptied;
          writer_moved = inr (inl (refl, refl));
        }))
  ]

  pub leave-Inv :
      (m : T) (id : ℕ) (ok : Bool) (targets left : List ℕ)
      → b.calls g ≡ leaving m id ok targets left
      → Inv n (
          go_to g
            (if ok then publishing m targets left else checking m targets left)
            (record b { wg = update b.wg id (b.wg id - 1) }))
  unfolding go_to
  leave-Inv m id ok targets left is = elim (Bool-cases ok) [
    | inl sent ↦ rw sent (
        Moved-Inv inv lt is refl (record {
          tokens_moved = λ j. refl;
          closers_moved = λ j. refl;
          users_moved = λ j. ground (arith, used inv lt is id);
          shut_kept = λ j over. ground (arith, inv.shut j over);
          sound_kept = inv.sound;
          dones_kept = inv.dones;
          sub_dones_kept = inv.sub_dones;
          emptied_kept = inv.emptied;
          writer_moved = inr (inl (refl, refl));
        }))
    | inr unsent ↦ rw unsent (
        Moved-Inv inv lt is refl (record {
          tokens_moved = λ j. refl;
          closers_moved = λ j. refl;
          users_moved = λ j. ground (arith, used inv lt is id);
          shut_kept = λ j over. ground (arith, inv.shut j over);
          sound_kept = inv.sound;
          dones_kept = inv.dones;
          sub_dones_kept = inv.sub_dones;
          emptied_kept = inv.emptied;
          writer_moved = inr (inl (refl, refl));
        }))
  ]

  pub wait-Inv :
      (id : ℕ) (a : After)
      → b.calls g ≡ waiting id a
      → b.wg id ≡ 0
      → Inv n (after g id a (close_channel id b))
  unfolding after close_channel go_to
  wait-Inv id unlock is quiet =
      let open_ch = open_channel id unlock is in
      rw open_ch (
        Moved-Inv inv lt is refl (record {
          tokens_moved = λ j. ground (arith, open_ch);
          closers_moved = λ j. ground (arith, open_ch);
          users_moved = λ j. refl;
          shut_kept = λ j over. ground (arith, inv.shut j, quiet);
          sound_kept = inv.sound;
          dones_kept = inv.dones;
          sub_dones_kept = inv.sub_dones;
          emptied_kept = inv.emptied;
          writer_moved = inl refl;
        }))
  wait-Inv id (rest left) is quiet =
      let open_ch = open_channel id (rest left) is in
      rw open_ch (
        Moved-Inv inv lt is refl (record {
          tokens_moved = λ j. ground (arith, open_ch);
          closers_moved = λ j. ground (arith, open_ch);
          users_moved = λ j. refl;
          shut_kept = λ j over. ground (arith, inv.shut j, quiet);
          sound_kept = inv.sound;
          dones_kept = inv.dones;
          sub_dones_kept = inv.sub_dones;
          emptied_kept = inv.emptied;
          writer_moved = inr (inl (refl, refl));
        }))

module _ {T : Type 0} {n : ℕ} {b : Broker T} (inv : Inv n b) where
  pub taken :
      (id : ℕ) (m : T) (more : List T)
      → Inv n (record b {
        queue = update b.queue id more;
        received = update b.received id (b.received id ++ m ∷ []);
      })
  taken id m more = record {
    tokens = inv.tokens;
    closers = inv.closers;
    users = inv.users;
    shut = inv.shut;
    sound = inv.sound;
    dones = inv.dones;
    sub_dones = inv.sub_dones;
    emptied = inv.emptied;
    writer_works = inv.writer_works;
  }
