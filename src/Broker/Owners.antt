-- ===== src/Broker/Owners.antt =====
-- Who is to close each subscriber of examples/pubsub/broker.go, and which calls send to it.
use mathlib.Core.Path.{subst}
use go_concurrency_examples.Base.{
  Bool, ap, arith, count, false, ltb, sum_below, sum_below-update, to_num, true, update, ℕ, ◌+◌,
  ◌<◌, ◌==◌, ◌≡◌, ◌≤◌, le-sum_below, [], inl, inr, none, some, ◌⊎◌,
}
use go_concurrency_examples.Broker.{
  After, Broker, Call, checking, closing, closing_rest, dropping, idle, leaving, publishing, rest,
  sending, unlock, waiting,
}

abbrev pub holds_after : ℕ → After → ℕ
holds_after id unlock = 0
holds_after id (rest left) = count id left

abbrev pub writes_after : After → Bool
writes_after unlock = true
writes_after (rest left) = false

module _ {T : Type 0} where
  -- The calls that are still to close the channel of a subscriber.
  abbrev pub holds : ℕ → Call T → ℕ
  holds id (closing j a) = to_num (j == id) + holds_after id a
  holds id (waiting j a) = to_num (j == id) + holds_after id a
  holds id (closing_rest left) = count id left
  holds id idle = 0
  holds id (publishing m ts left) = 0
  holds id (sending m j ts left) = 0
  holds id (leaving m j ok ts left) = 0
  holds id (checking m ts left) = 0
  holds id (dropping j) = 0

  abbrev pub waits : ℕ → Call T → ℕ
  waits id (waiting j a) = to_num (j == id)
  waits id idle = 0
  waits id (publishing m ts left) = 0
  waits id (sending m j ts left) = 0
  waits id (leaving m j ok ts left) = 0
  waits id (checking m ts left) = 0
  waits id (dropping j) = 0
  waits id (closing j a) = 0
  waits id (closing_rest left) = 0

  -- The calls that the wait group of a subscriber counts.
  abbrev pub uses : ℕ → Call T → ℕ
  uses id (sending m j ts left) = to_num (j == id)
  uses id (leaving m j ok ts left) = to_num (j == id)
  uses id idle = 0
  uses id (publishing m ts left) = 0
  uses id (checking m ts left) = 0
  uses id (dropping j) = 0
  uses id (closing j a) = 0
  uses id (waiting j a) = 0
  uses id (closing_rest left) = 0

  abbrev pub writes : Call T → Bool
  writes (closing j a) = writes_after a
  writes (waiting j a) = writes_after a
  writes idle = false
  writes (publishing m ts left) = false
  writes (sending m j ts left) = false
  writes (leaving m j ok ts left) = false
  writes (checking m ts left) = false
  writes (dropping j) = false
  writes (closing_rest left) = false

  pub waits-holds : (id : ℕ) (c : Call T) → waits id c ≤ holds id c
  waits-holds id (waiting j a) = omega arith
  waits-holds id idle = omega arith
  waits-holds id (publishing m ts left) = omega arith
  waits-holds id (sending m j ts left) = omega arith
  waits-holds id (leaving m j ok ts left) = omega arith
  waits-holds id (checking m ts left) = omega arith
  waits-holds id (dropping j) = omega arith
  waits-holds id (closing j a) = omega arith
  waits-holds id (closing_rest left) = omega arith

  -- What a step of one call, `old` before it and `now` after it, does to the counts.
  pub record Moved (g : ℕ) (b c : Broker T) (old now : Call T) : Type 0 where
    pub tokens_moved :
        (id : ℕ)
        → count id c.subscribers
            + holds id now
            + to_num (c.ch_closed id)
            + to_num (ltb id b.next_id)
          ≡ count id b.subscribers
            + holds id old
            + to_num (b.ch_closed id)
            + to_num (ltb id c.next_id)
    pub closers_moved :
        (id : ℕ)
        → to_num (c.sub_closed id) + waits id old + to_num (b.ch_closed id)
          ≡ to_num (b.sub_closed id) + waits id now + to_num (c.ch_closed id)
    pub users_moved : (id : ℕ) → c.wg id + uses id old ≡ b.wg id + uses id now
    pub shut_kept : (id : ℕ) → c.ch_closed id ≡ true → c.wg id ≡ 0
    pub sound_kept : c.panicked ≡ false
    pub dones_kept : c.done_closed ≡ c.closed
    pub sub_dones_kept : (id : ℕ) → c.sub_done_closed id ≡ c.sub_closed id
    pub emptied_kept : c.closed ≡ true → c.subscribers ≡ []
    pub writer_moved :
        (c.writer ≡ none)
        ⊎ (((c.writer ≡ b.writer) × (writes now ≡ writes old))
            ⊎ ((c.writer ≡ some g) × (writes now ≡ true)))

  -- Each subscriber is either in the map, or one call is to close its channel, or that is closed. It
  -- is marked as closed while a call waits to close the channel and afterwards. Its wait group counts
  -- the calls in `send`, and is zero once the channel is closed. The `done`
  -- channels are closed together with what they belong to. A closed broker has no subscriber in its
  -- map, and the goroutine with the lock is closing a subscriber.
  pub record Inv (n : ℕ) (b : Broker T) : Type 0 where
    pub tokens :
        (id : ℕ)
        → count id b.subscribers + sum_below (λ k. holds id (b.calls k)) n + to_num (b.ch_closed id)
          ≡ to_num (ltb id b.next_id)
    pub closers :
        (id : ℕ)
        → to_num (b.sub_closed id)
          ≡ sum_below (λ k. waits id (b.calls k)) n + to_num (b.ch_closed id)
    pub users : (id : ℕ) → b.wg id ≡ sum_below (λ k. uses id (b.calls k)) n
    pub shut : (id : ℕ) → b.ch_closed id ≡ true → b.wg id ≡ 0
    pub sound : b.panicked ≡ false
    pub dones : b.done_closed ≡ b.closed
    pub sub_dones : (id : ℕ) → b.sub_done_closed id ≡ b.sub_closed id
    pub emptied : b.closed ≡ true → b.subscribers ≡ []
    pub writer_works : (w : ℕ) → b.writer ≡ some w → (w < n) × (writes (b.calls w) ≡ true)

  module _ {n g : ℕ} {b : Broker T} {old : Call T} (inv : Inv n b) where
    -- What the counts say of the goroutine `g`.
    pub held :
        g < n → b.calls g ≡ old → (id : ℕ) → holds id old ≤ sum_below (λ k. holds id (b.calls k)) n
    held lt is id = omega (arith, le-sum_below (λ k. holds id (b.calls k)) n g lt, ap (holds id) is)

    pub used : g < n → b.calls g ≡ old → (id : ℕ) → uses id old ≤ b.wg id
    used lt is id =
        omega (arith, le-sum_below (λ k. uses id (b.calls k)) n g lt, ap (uses id) is, inv.users id)

    pub waited : g < n → b.calls g ≡ old → (id : ℕ) → waits id old ≤ to_num (b.sub_closed id)
    waited lt is id =
        omega
          (arith, le-sum_below (λ k. waits id (b.calls k)) n g lt, ap (waits id) is, inv.closers id)

    sum_moved :
        (c : Broker T) (now : Call T) (w : Call T → ℕ)
        → g < n
        → b.calls g ≡ old
        → update b.calls g now ≡ c.calls
        → sum_below (λ k. w (c.calls k)) n + w old ≡ sum_below (λ k. w (b.calls k)) n + w now
    sum_moved c now w lt is e =
        subst
          (λ (f : ℕ → Call T).
            sum_below (λ k. w (f k)) n + w old ≡ sum_below (λ k. w (b.calls k)) n + w now)
          e (omega (arith, sum_below-update (λ k. w) n b.calls g now lt, ap w is))

    writer_follows :
        {c : Broker T} {now : Call T}
        → g < n
        → b.calls g ≡ old
        → update b.calls g now ≡ c.calls
        → Moved g b c old now
        → (w : ℕ) → c.writer ≡ some w
        → (w < n) × (writes (c.calls w) ≡ true)
    writer_follows {c} {now} lt is e m w at = elim m.writer_moved [
      | inl gone ↦ cc
      | inr (inl (same, like)) ↦
          let (below, writing) = inv.writer_works w (ground (arith, same, at)) in
          (
            below,
            subst (λ (f : ℕ → Call T). writes (f w) ≡ true) e (ground (arith, writing, like, is)),
          )
      | inr (inr (grabbed, writing)) ↦ (
        ground (arith, grabbed, at, lt),
        subst (λ (f : ℕ → Call T). writes (f w) ≡ true) e (ground (arith, grabbed, at, writing)),
      )
    ]

    pub Moved-Inv :
        {c : Broker T} {now : Call T}
        → g < n
        → b.calls g ≡ old
        → update b.calls g now ≡ c.calls
        → Moved g b c old now
        → Inv n c
    Moved-Inv {c} {now} lt is e m = record {
      tokens =
          λ id. omega (arith, inv.tokens id, m.tokens_moved id, sum_moved c now (holds id) lt is e);
      closers = λ id.
          omega (arith, inv.closers id, m.closers_moved id, sum_moved c now (waits id) lt is e);
      users =
          λ id. omega (arith, inv.users id, m.users_moved id, sum_moved c now (uses id) lt is e);
      shut = m.shut_kept;
      sound = m.sound_kept;
      dones = m.dones_kept;
      sub_dones = m.sub_dones_kept;
      emptied = m.emptied_kept;
      writer_works = writer_follows lt is e m;
    }
