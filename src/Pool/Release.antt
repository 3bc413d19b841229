-- ===== src/Pool/Release.antt =====
-- `Release` of examples/connectionpool keeps the invariant, and what it does under it: it never
-- blocks and never fails for a caller that holds the connection.
use go_concurrency_examples.Pool.Invariant.{Inv, holds, places, Waits, total}
use go_concurrency_examples.Base.{
  List, Option, [], arith, count, count-append, count-erase, ltb, none, some, sum_below-update,
  to_num, ℕ, ◌<◌, ◌∷◌, ◌≡◌, is_some, length, length-append, length-erase, refl, ◌≤◌, ◌⊎◌,
}
use go_concurrency_examples.Pool.{
  Error, System, absent, give_back, release_to, call_release, release, selecting,
}
use go_concurrency_examples.Pool.Resume.{started}

-- The first waiter in the list is a call in its `select`, and its channel is empty.
module _ {cap most : ℕ} {s : System} (inv : Inv cap most s) where
  pub first_waits :
      (w : ℕ) (ws : List ℕ)
      → s.pool.waiters ≡ w ∷ ws
      → (s.ready w ≡ none) × (s.calls w ≡ selecting) × (w < s.fresh)
  first_waits w ws e =
      let waits = inv.calls_wait w in
      let positive : 0 < count w s.pool.waiters = rw e (ground arith) in
      (ground arith, ground arith, started inv w (λ a. ground arith))

module _ {cap most : ℕ} {s t : System} (inv : Inv cap most s) (conn : ℕ) (e : Option Error)
    (held : 0 < count conn s.borrowed) where
  release-one_place :
      (ws : List ℕ)
      → s.pool.waiters ≡ ws
      → give_back (release_to ws conn s.pool) conn s ≡ some (t, e)
      → (c : ℕ) → places c t ≡ to_num (ltb c cap)
  unfolding give_back release_to
  release-one_place [] at h c = ground (
    arith,
    inv.one_place c,
    count-erase conn c s.borrowed held,
    count-append c s.pool.idle (conn ∷ []),
  )
  release-one_place (w ∷ ws) at h c =
      let (empty, selects, lt) = first_waits inv w ws at in
      ground (
        arith,
        inv.one_place c,
        count-erase conn c s.borrowed held,
        sum_below-update (λ _. holds c) s.fresh s.ready w (some conn) lt,
      )

  release-all_there :
      (ws : List ℕ)
      → s.pool.waiters ≡ ws
      → give_back (release_to ws conn s.pool) conn s ≡ some (t, e)
      → total t ≡ cap
  unfolding give_back release_to
  release-all_there [] at h = ground (
    arith,
    inv.all_there,
    length-erase conn s.borrowed held,
    length-append s.pool.idle (conn ∷ []),
  )
  release-all_there (w ∷ ws) at h =
      let (empty, selects, lt) = first_waits inv w ws at in
      ground (
        arith,
        inv.all_there,
        length-erase conn s.borrowed held,
        sum_below-update (λ _ (o : Option ℕ). to_num (is_some o)) s.fresh s.ready w (some conn) lt,
      )

  release-calls_wait :
      (ws : List ℕ)
      → s.pool.waiters ≡ ws
      → give_back (release_to ws conn s.pool) conn s ≡ some (t, e)
      → (v : ℕ) → Waits (t.calls v) (count v t.pool.waiters) (t.ready v)
  unfolding give_back release_to
  release-calls_wait [] at h v = ground (arith, inv.calls_wait v)
  release-calls_wait (w ∷ ws) at h v =
      let (empty, selects, lt) = first_waits inv w ws at in ground (arith, inv.calls_wait v)

  release-rest :
      (ws : List ℕ)
      → s.pool.waiters ≡ ws
      → give_back (release_to ws conn s.pool) conn s ≡ some (t, e)
      → record {
        capacity : t.pool.capacity ≡ cap;
        limit : t.pool.max_waiters ≡ most;
        fair : (t.pool.idle ≡ []) ⊎ (t.pool.waiters ≡ []);
        limited : length t.pool.waiters ≤ most;
        unused : (v : ℕ) → t.fresh ≤ v → t.calls v ≡ absent;
      }
  unfolding give_back release_to
  release-rest [] at h = ground (arith, inv)
  release-rest (w ∷ ws) at h = ground (arith, inv)

  pub release-Inv : call_release conn s ≡ some (t, e) → Inv cap most t
  unfolding call_release release
  release-Inv h =
      let rest = release-rest s.pool.waiters refl h in
      record {
        capacity_kept = rest.capacity;
        limit_kept = rest.limit;
        one_place = release-one_place s.pool.waiters refl h;
        all_there = release-all_there s.pool.waiters refl h;
        fair = rest.fair;
        limited = rest.limited;
        calls_wait = release-calls_wait s.pool.waiters refl h;
        unused = rest.unused;
      }
