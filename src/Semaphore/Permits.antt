-- ===== src/Semaphore/Permits.antt =====
-- The permits of examples/semaphore: as many are in use as goroutines hold one, and callers wait
-- only for permits.
use mathlib.Core.Path.{subst}
use go_concurrency_examples.Base.{
  Bool, List, [], ap, arith, if◌then◌else◌, is_some, le-sum_below, ltb, some, sum_below, true,
  update, ℕ, ◌+◌, ◌<◌, ◌∷◌, ◌≡◌, ◌≤◌, Reach, Reach-inv, inl, none, refl, sum_below-update,
  sum_below-zero, sym, ◌∙◌,
}
use go_concurrency_examples.Semaphore.{
  Job, Pc, System, acquire, acquires, acquiring, act, after_acquire, capacity, holding, in_use,
  next_job, outside, release, tries, try_acquire, Semaphore, Step, cancel, goroutine, initial, new,
}
use go_concurrency_examples.Base.Int.{negsuc, pos, pos_part, ℤ}

abbrev pub holds : Pc → ℕ
holds outside = 0
holds acquiring = 0
holds holding = 1

record Inv (limit n : ℕ) (s : System) : Type 0 where
  made : is_some s.semaphore ≡ true
  limit_kept : capacity s.semaphore ≡ limit
  counted : in_use s.semaphore ≡ sum_below (λ i. holds (s.pc i)) n
  within : in_use s.semaphore ≤ limit
  no_misrelease : s.misreleases ≡ 0

record Moved (id : ℕ) (s t : System) (p p' : Pc) : Type 0 where
  places : t.pc ≡ update s.pc id p'
  still_made : is_some t.semaphore ≡ true
  limit_same : capacity t.semaphore ≡ capacity s.semaphore
  permits_moved : in_use t.semaphore + holds p ≡ in_use s.semaphore + holds p'
  permits_within : in_use t.semaphore ≤ capacity s.semaphore
  misreleases_same : t.misreleases ≡ s.misreleases

module _ {limit n id : ℕ} {s t : System} (inv : Inv limit n s) (lt : id < n) where
  outside-Moved :
      (jobs : List Job)
      → s.jobs id ≡ jobs
      → next_job id jobs s ≡ some t
      → (p' : Pc) × Moved id s t outside p'
  unfolding next_job try_acquire capacity in_use
  outside-Moved [] at e = ground arith
  outside-Moved (acquires ∷ rest) at e = (acquiring, ground (arith, inv))
  outside-Moved (tries ∷ rest) at e = (
    if ltb (in_use s.semaphore) (capacity s.semaphore) then holding else outside,
    ground (arith, inv),
  )

  acquiring-Moved :
      (prefer_done : Bool)
      → act id prefer_done acquiring s ≡ some t
      → (p' : Pc) × Moved id s t acquiring p'
  unfolding act acquire after_acquire capacity in_use
  acquiring-Moved prefer_done e = (t.pc id, ground (arith, inv))

  holding-Moved :
      (prefer_done : Bool)
      → s.pc id ≡ holding
      → act id prefer_done holding s ≡ some t
      → Moved id s t holding outside
  unfolding act release capacity in_use
  holding-Moved prefer_done is e =
      ground (arith, inv, ap holds is, le-sum_below (λ i. holds (s.pc i)) n id lt)

  Moved-Inv : {p' : Pc} → Moved id s t (s.pc id) p' → Inv limit n t
  Moved-Inv {p'} m = record {
    made = m.still_made;
    limit_kept = m.limit_same ∙ inv.limit_kept;
    counted = rw m.places (
        omega (arith, inv.counted, m.permits_moved, sum_below-update (λ _. holds) n s.pc id p' lt));
    within = omega (arith, m.permits_within, inv.limit_kept);
    no_misrelease = m.misreleases_same ∙ inv.no_misrelease;
  }

  act-Inv :
      (p : Pc) (prefer_done : Bool) → s.pc id ≡ p → act id prefer_done p s ≡ some t → Inv limit n t
  unfolding act
  act-Inv outside prefer_done is e =
      let (p', m) = outside-Moved (s.jobs id) refl e in
      Moved-Inv (subst (λ q. Moved id s t q p') (sym is) m)
  act-Inv acquiring prefer_done is e =
      let (p', m) = acquiring-Moved prefer_done e in
      Moved-Inv (subst (λ q. Moved id s t q p') (sym is) m)
  act-Inv holding prefer_done is e =
      Moved-Inv (subst (λ q. Moved id s t q outside) (sym is) (holding-Moved prefer_done is e))

Step-Inv : {limit n : ℕ} (s t : System) → Step n s t → Inv limit n s → Inv limit n t
Step-Inv s t (goroutine id prefer_done lt e) inv = act-Inv inv lt (s.pc id) prefer_done refl e
Step-Inv {limit} {n} s t (cancel id err free e) inv = subst (Inv limit n) e (record {
  made = inv.made;
  limit_kept = inv.limit_kept;
  counted = inv.counted;
  within = inv.within;
  no_misrelease = inv.no_misrelease;
})

new-Inv :
    (limit : ℤ) (sem : Semaphore) (n : ℕ) (jobs : ℕ → List Job)
    → new limit ≡ inl sem
    → Inv (pos_part limit) n (initial sem jobs)
unfolding new initial capacity in_use
new-Inv (pos m) sem n jobs e = record {
  made = refl;
  limit_kept = ground (arith, e);
  counted = ground (arith, e, sum_below-zero n);
  within = ground (arith, e);
  no_misrelease = refl;
}
new-Inv (negsuc m) sem n jobs e = ground (arith, e)

Reach-Inv :
    {n : ℕ} {t : System} (limit : ℤ) (sem : Semaphore) (jobs : ℕ → List Job)
    → new limit ≡ inl sem
    → Reach (Step n) (initial sem jobs) t
    → Inv (pos_part limit) n t
Reach-Inv {n} limit sem jobs e r =
    Reach-inv (Inv (pos_part limit) n) (λ s t st inv. Step-Inv s t st inv)
      (new-Inv limit sem n jobs e) r

-- In every state that callers can reach from a semaphore that New returned, by Acquire, TryAcquire,
-- one Release for each slot that they got, and cancellation of their contexts at any time: InUse is
-- the number of callers that hold a slot, which is at most the limit; Capacity is the
-- limit; and no Release has failed.
pub semaphore_limit :
    {n : ℕ} {t : System} (limit : ℤ) (sem : Semaphore) (jobs : ℕ → List Job)
    → new limit ≡ inl sem
    → Reach (Step n) (initial sem jobs) t
    → (in_use t.semaphore ≡ sum_below (λ i. holds (t.pc i)) n)
      × (sum_below (λ i. holds (t.pc i)) n ≤ pos_part limit)
      × (capacity t.semaphore ≡ pos_part limit)
      × (t.misreleases ≡ 0)
semaphore_limit limit sem jobs e r =
    let inv = Reach-Inv limit sem jobs e r in
    (inv.counted, omega (arith, inv.counted, inv.within), inv.limit_kept, inv.no_misrelease)

-- Why a goroutine cannot take a step: it has no call left, or waits in Acquire with a context that
-- is not done while all slots are taken.
abbrev pub Rests : ℕ → ℕ → System → ℕ → Pc → Type 0
Rests limit n s id outside = s.jobs id ≡ []
Rests limit n s id acquiring = (s.ctx id ≡ none) × (sum_below (λ i. holds (s.pc i)) n ≡ limit)
Rests limit n s id holding = ⊥

module _ {limit n : ℕ} {s : System} (inv : Inv limit n s) where
  idle-Rests : (id : ℕ) (jobs : List Job) → s.jobs id ≡ jobs → next_job id jobs s ≡ none → jobs ≡ []
  unfolding next_job
  idle-Rests id [] at e = refl
  idle-Rests id (acquires ∷ rest) at e = ground arith
  idle-Rests id (tries ∷ rest) at e = ground arith

  stuck-Rests :
      (id : ℕ) (prefer_done : Bool) (p : Pc) → act id prefer_done p s ≡ none → Rests limit n s id p
  unfolding act acquire after_acquire release in_use capacity
  stuck-Rests id prefer_done outside e = idle-Rests id (s.jobs id) refl e
  stuck-Rests id prefer_done acquiring e = ground (arith, inv)
  stuck-Rests id prefer_done holding e = ground (arith, inv)

-- In every reachable state, a caller that cannot take a step has no call left, or waits in Acquire
-- with a context that is not done while other callers hold all the slots: no free slot is missed,
-- and a canceled caller does not stay blocked.
semaphore_waits_when_full :
    {n : ℕ} {t : System} (limit : ℤ) (sem : Semaphore) (jobs : ℕ → List Job)
    → new limit ≡ inl sem
    → Reach (Step n) (initial sem jobs) t
    → (id : ℕ) (prefer_done : Bool) → act id prefer_done (t.pc id) t ≡ none
    → Rests (pos_part limit) n t id (t.pc id)
semaphore_waits_when_full {n} {t} limit sem jobs made r id prefer_done e =
    stuck-Rests (Reach-Inv limit sem jobs made r) id prefer_done (t.pc id) e
