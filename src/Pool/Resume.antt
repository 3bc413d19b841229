-- ===== src/Pool/Resume.antt =====
-- The waiting calls of examples/connectionpool keep the invariant: a receive, and a cancellation
-- before or after the connection was handed over.
use go_concurrency_examples.Pool.{
  remove_waiter, Call, System, absent, late, resume_at, returned, selecting, resume,
}
use go_concurrency_examples.Pool.Invariant.{Inv, Waits, holds, places, total}
use go_concurrency_examples.Base.{
  CtxError, List, Option, [], arith, count, count-erase, dec_lt, erase, false, is_some, length,
  length-erase, ltb, none, refl, some, sum_below-update, to_num, true, ℕ, ◌<◌, ◌∷◌, ◌≡◌, ◌≢◌, ◌≤◌,
  ◌⊎◌,
}

-- `removeWaiterLocked` removes the waiter it is given, and no other.
pub remove_waiter_lem :
    (w : ℕ) (ws : List ℕ)
    → ((remove_waiter w ws).1 ≡ ltb 0 (count w ws))
      × ((remove_waiter w ws).1 ≡ false → (remove_waiter w ws).0 ≡ ws)
      × ((remove_waiter w ws).1 ≡ true → (remove_waiter w ws).0 ≡ erase w ws)
unfolding remove_waiter
remove_waiter_lem w [] = ground arith
remove_waiter_lem w (v ∷ ws) = ground (arith, remove_waiter_lem w ws)

erase-nil : (w : ℕ) (ws : List ℕ) → ws ≡ [] → erase w ws ≡ []
erase-nil w [] e = refl
erase-nil w (v ∷ ws) e = cc

module _ {cap most : ℕ} {s : System} (inv : Inv cap most s) where
  pub started : (w : ℕ) → s.calls w ≢ absent → w < s.fresh
  started w ne = elim (dec_lt w s.fresh) [
    | yes p ↦ p
    | no p ↦ absurd (ne (inv.unused w (omega arith)))
  ]

module _ {cap most : ℕ} {s t : System} (inv : Inv cap most s) where
  resume-one_place :
      (w : ℕ) (ctx : Option CtxError) (call : Call)
      → s.calls w ≡ call
      → resume_at call ctx w s ≡ some t
      → (c : ℕ) → places c t ≡ to_num (ltb c cap)
  unfolding resume_at
  resume-one_place w none selecting at e c = ground (
    arith,
    inv.one_place c,
    sum_below-update (λ _. holds c) s.fresh s.ready w none (started inv w (λ q. cc)),
  )
  resume-one_place w (some x) selecting at e c = ground (arith, inv.one_place c)
  resume-one_place w ctx late at e c = ground (
    arith,
    inv.one_place c,
    sum_below-update (λ _. holds c) s.fresh s.ready w none (started inv w (λ q. cc)),
  )
  resume-one_place w ctx absent at e c = ground arith
  resume-one_place w ctx (returned r) at e c = ground arith

  resume-all_there :
      (w : ℕ) (ctx : Option CtxError) (call : Call)
      → s.calls w ≡ call
      → resume_at call ctx w s ≡ some t
      → total t ≡ cap
  unfolding resume_at
  resume-all_there w none selecting at e = ground (
    arith,
    inv.all_there,
    sum_below-update (λ _ (o : Option ℕ). to_num (is_some o)) s.fresh s.ready w none
        (started inv w (λ q. cc)),
  )
  resume-all_there w (some x) selecting at e = ground (arith, inv.all_there)
  resume-all_there w ctx late at e = ground (
    arith,
    inv.all_there,
    sum_below-update (λ _ (o : Option ℕ). to_num (is_some o)) s.fresh s.ready w none
        (started inv w (λ q. cc)),
  )
  resume-all_there w ctx absent at e = ground arith
  resume-all_there w ctx (returned r) at e = ground arith

  resume-calls_wait :
      (w : ℕ) (ctx : Option CtxError) (call : Call)
      → s.calls w ≡ call
      → resume_at call ctx w s ≡ some t
      → (v : ℕ) → Waits (t.calls v) (count v t.pool.waiters) (t.ready v)
  unfolding resume_at
  resume-calls_wait w none selecting at e v = ground (arith, inv.calls_wait v)
  resume-calls_wait w (some x) selecting at e v = ground (
    arith,
    inv.calls_wait v,
    inv.calls_wait w,
    remove_waiter_lem w s.pool.waiters,
    count-erase w v s.pool.waiters,
  )
  resume-calls_wait w ctx late at e v = ground (arith, inv.calls_wait v)
  resume-calls_wait w ctx absent at e v = ground arith
  resume-calls_wait w ctx (returned r) at e v = ground arith

  resume-rest :
      (w : ℕ) (ctx : Option CtxError) (call : Call)
      → s.calls w ≡ call
      → resume_at call ctx w s ≡ some t
      → record {
        capacity : t.pool.capacity ≡ cap;
        limit : t.pool.max_waiters ≡ most;
        fair : (t.pool.idle ≡ []) ⊎ (t.pool.waiters ≡ []);
        limited : length t.pool.waiters ≤ most;
        unused : (v : ℕ) → t.fresh ≤ v → t.calls v ≡ absent;
      }
  unfolding resume_at
  resume-rest w none selecting at e = ground (arith, inv, started inv w)
  resume-rest w (some x) selecting at e = ground (
    arith,
    inv,
    started inv w,
    remove_waiter_lem w s.pool.waiters,
    erase-nil w s.pool.waiters,
    length-erase w s.pool.waiters,
  )
  resume-rest w ctx late at e = ground (arith, inv, started inv w)
  resume-rest w ctx absent at e = ground arith
  resume-rest w ctx (returned r) at e = ground arith

  pub resume-Inv : (w : ℕ) (ctx : Option CtxError) → resume w ctx s ≡ some t → Inv cap most t
  unfolding resume
  resume-Inv w ctx e =
      let rest = resume-rest w ctx (s.calls w) refl e in
      record {
        capacity_kept = rest.capacity;
        limit_kept = rest.limit;
        one_place = resume-one_place w ctx (s.calls w) refl e;
        all_there = resume-all_there w ctx (s.calls w) refl e;
        fair = rest.fair;
        limited = rest.limited;
        calls_wait = resume-calls_wait w ctx (s.calls w) refl e;
        unused = rest.unused;
      }
