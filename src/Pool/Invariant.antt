-- ===== src/Pool/Invariant.antt =====
-- Where the connections of examples/connectionpool are, and which calls wait for one.
use go_concurrency_examples.Pool.{Call, absent, selecting, late, returned, System, call_acquire}
use go_concurrency_examples.Base.{
  Option, [], arith, count, is_some, length, ltb, none, some, sum_below, to_num, true, ℕ, ◌+◌, ◌==◌,
  ◌≡◌, ◌≤◌, ◌⊎◌, count-append, length-append, ◌∷◌, sum_below-suc,
}

-- 1 if the option holds `c`.
abbrev pub holds : ℕ → Option ℕ → ℕ
holds c none = 0
holds c (some d) = to_num (d == c)

-- The copies of connection `c` in the pool's list, with callers, and in channels.
abbrev pub places : ℕ → System → ℕ
places c s = count c s.pool.idle + count c s.borrowed + sum_below (λ w. holds c (s.ready w)) s.fresh

-- All connections, wherever they are.
abbrev pub total : System → ℕ
total s =
    length s.pool.idle + length s.borrowed + sum_below (λ w. to_num (is_some (s.ready w))) s.fresh

-- A call waits in the list or has a connection in its channel, and never both; one that was
-- canceled too late has the connection. `queued` is how often the list has it.
abbrev pub Waits : Call → ℕ → Option ℕ → Type 0
Waits selecting queued ready = queued + to_num (is_some ready) ≡ 1
Waits late queued ready = (queued ≡ 0) × (is_some ready ≡ true)
Waits absent queued ready = (queued ≡ 0) × (ready ≡ none)
Waits (returned r) queued ready = (queued ≡ 0) × (ready ≡ none)

pub record Inv (cap most : ℕ) (s : System) : Type 0 where
  pub capacity_kept : s.pool.capacity ≡ cap
  pub limit_kept : s.pool.max_waiters ≡ most
  pub one_place : (c : ℕ) → places c s ≡ to_num (ltb c cap)
  pub all_there : total s ≡ cap
  pub fair : (s.pool.idle ≡ []) ⊎ (s.pool.waiters ≡ [])
  pub limited : length s.pool.waiters ≤ most
  pub calls_wait : (w : ℕ) → Waits (s.calls w) (count w s.pool.waiters) (s.ready w)
  pub unused : (w : ℕ) → s.fresh ≤ w → s.calls w ≡ absent

module _ {cap most : ℕ} {s t : System} (inv : Inv cap most s) where
  acquire-one_place : call_acquire s ≡ some t → (c : ℕ) → places c t ≡ to_num (ltb c cap)
  unfolding call_acquire
  acquire-one_place e c = ground (
    arith,
    inv.one_place c,
    inv.calls_wait s.fresh,
    inv.unused s.fresh,
    sum_below-suc (λ w. holds c (s.ready w)) s.fresh,
  )

  acquire-all_there : call_acquire s ≡ some t → total t ≡ cap
  unfolding call_acquire
  acquire-all_there e = ground (
    arith,
    inv.all_there,
    inv.calls_wait s.fresh,
    inv.unused s.fresh,
    sum_below-suc (λ w. to_num (is_some (s.ready w))) s.fresh,
  )

  acquire-calls_wait :
      call_acquire s ≡ some t → (w : ℕ) → Waits (t.calls w) (count w t.pool.waiters) (t.ready w)
  unfolding call_acquire
  acquire-calls_wait e w = ground (
    arith,
    inv.calls_wait w,
    inv.calls_wait s.fresh,
    inv.unused s.fresh,
    count-append w s.pool.waiters (s.fresh ∷ []),
  )

  acquire-unused : call_acquire s ≡ some t → (w : ℕ) → t.fresh ≤ w → t.calls w ≡ absent
  unfolding call_acquire
  acquire-unused e w h = ground (arith, inv.unused w)

  acquire-rest : call_acquire s ≡ some t → record {
    capacity : t.pool.capacity ≡ cap;
    limit : t.pool.max_waiters ≡ most;
    fair : (t.pool.idle ≡ []) ⊎ (t.pool.waiters ≡ []);
    limited : length t.pool.waiters ≤ most;
  }
  unfolding call_acquire
  acquire-rest e = ground (arith, inv, length-append s.pool.waiters (s.fresh ∷ []))

  pub acquire-Inv : call_acquire s ≡ some t → Inv cap most t
  acquire-Inv e = record {
    capacity_kept = (acquire-rest e).capacity;
    limit_kept = (acquire-rest e).limit;
    one_place = acquire-one_place e;
    all_there = acquire-all_there e;
    fair = (acquire-rest e).fair;
    limited = (acquire-rest e).limited;
    calls_wait = acquire-calls_wait e;
    unused = acquire-unused e;
  }
