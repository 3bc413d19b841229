-- ===== src/Metrics/Peak.antt =====
-- The counters of examples/atomiccounter: no update is lost, and the peak is the highest number of
-- requests that were in flight at once.
use go_concurrency_examples.Base.{
  ap, arith, sum_below, sum_below-update, to_num, update, ℕ, ◌+◌, ◌<◌, ◌==◌, ◌≡◌, ◌≤◌, ◌⊎◌, List,
  [], if◌then◌else◌, inl, inr, le-sum_below, leb, refl, some, suc, ℕ_discrete, ◌∷◌, Reach,
  Reach-inv, sum_below-zero, sum_below_pos, sym,
}
use go_concurrency_examples.Metrics.{
  Pc, System, active, ending, observing, outside, starting, swapping, Outcome, act, fails, finish,
  next_request, succeeds, Step, goroutine, initial, zero_metrics,
}

-- 1 for a request that has been counted and not ended.
abbrev pub unfinished : Pc → ℕ
unfinished outside = 0
unfinished (starting o) = 1
unfinished (observing o v) = 1
unfinished (swapping o v c) = 1
unfinished (active o) = 1
unfinished ending = 0

-- 1 for a request that is in flight.
abbrev pub flying : Pc → ℕ
flying outside = 0
flying (starting o) = 0
flying (observing o v) = 1
flying (swapping o v c) = 1
flying (active o) = 1
flying ending = 1

-- 1 for a goroutine that is in `recordPeak` with this value.
abbrev pub records : ℕ → Pc → ℕ
records value (observing o v) = to_num (v == value)
records value (swapping o v c) = to_num (v == value)
records value _ = 0

abbrev Ordered : ℕ → Pc → Type 0
Ordered most (observing o v) = v ≤ most
Ordered most (swapping o v c) = (v ≤ most) × (c < v)
Ordered most _ = Unit {0}

record Inv (n : ℕ) (s : System) : Type 0 where
  counted :
      s.metrics.requests
      ≡ s.metrics.success + s.metrics.failure + sum_below (λ i. unfinished (s.pc i)) n
  in_air : s.metrics.in_flight ≡ sum_below (λ i. flying (s.pc i)) n
  peak_bound : s.metrics.peak ≤ s.most
  flight_bound : s.metrics.in_flight ≤ s.most
  pending : (s.most ≤ s.metrics.peak) ⊎ (0 < sum_below (λ i. records s.most (s.pc i)) n)
  ordered : (i : ℕ) → Ordered s.most (s.pc i)

record Moved (id : ℕ) (s t : System) (p p' : Pc) : Type 0 where
  places : t.pc ≡ update s.pc id p'
  requests_moved :
      t.metrics.requests + s.metrics.success + s.metrics.failure + unfinished p
      ≡ s.metrics.requests + t.metrics.success + t.metrics.failure + unfinished p'
  flight_moved : t.metrics.in_flight + flying p ≡ s.metrics.in_flight + flying p'
  bounds : (t.metrics.peak ≤ t.most) × (t.metrics.in_flight ≤ t.most)
  most_grows : s.most ≤ t.most
  peak_grows : s.metrics.peak ≤ t.metrics.peak
  pending_moved :
      (t.most ≤ t.metrics.peak)
      ⊎ ((t.most ≡ s.most) × (records s.most p ≤ records s.most p'))
      ⊎ (0 < records t.most p')
  place : Ordered t.most p'

still-Ordered : (most later : ℕ) (p : Pc) → most ≤ later → Ordered most p → Ordered later p
still-Ordered most later outside le h = tt
still-Ordered most later (starting o) le h = tt
still-Ordered most later (observing o v) le h = omega (arith, h)
still-Ordered most later (swapping o v c) le h = (omega (arith, h.0), h.1)
still-Ordered most later (active o) le h = tt
still-Ordered most later ending le h = tt

module _ {n id : ℕ} {s t : System} {p' : Pc} (inv : Inv n s) (lt : id < n)
    (m : Moved id s t (s.pc id) p') where
  pending-moved : (t.most ≤ t.metrics.peak) ⊎ (0 < sum_below (λ i. records t.most (t.pc i)) n)
  pending-moved = rw m.places (elim m.pending_moved [
    | inl small ↦ inl small
    | inr (inl (same, keeps)) ↦ rw same (
        ground (
          arith,
          m.peak_grows,
          inv.pending,
          same,
          sum_below-update (λ _. records s.most) n s.pc id p' lt,
        ))
    | inr (inr mine) ↦
        inr (ground (arith, mine, le-sum_below (λ i. records t.most (update s.pc id p' i)) n id lt))
  ])

  Moved-Inv : Inv n t
  Moved-Inv = record {
    counted = rw m.places (
        omega (
          arith,
          inv.counted,
          m.requests_moved,
          sum_below-update (λ _. unfinished) n s.pc id p' lt,
        ));
    in_air =
        rw m.places (
          omega
            (arith, inv.in_air, m.flight_moved, sum_below-update (λ _. flying) n s.pc id p' lt));
    peak_bound = m.bounds.0;
    flight_bound = m.bounds.1;
    pending = pending-moved;
    ordered = λ i. rw m.places (elim (ℕ_discrete i id) [
      | yes e ↦ ground (arith, e, m.place)
      | no ne ↦ ground (arith, still-Ordered s.most t.most (s.pc i) m.most_grows (inv.ordered i))
    ]);
  }

module _ {n id : ℕ} {s t : System} (inv : Inv n s) (lt : id < n) where
  outside-Moved :
      (jobs : List Outcome)
      → s.jobs id ≡ jobs
      → next_request id jobs s ≡ some t
      → (p' : Pc) × Moved id s t outside p'
  unfolding next_request
  outside-Moved [] at e = ground arith
  outside-Moved (o ∷ rest) at e = (starting o, ground (arith, inv))

  act-Moved :
      (p : Pc)
      → s.pc id ≡ p
      → Ordered s.most p
      → act id p s ≡ some t
      → (p' : Pc) × Moved id s t p p'
  unfolding act finish
  act-Moved outside is h e = outside-Moved (s.jobs id) refl e
  act-Moved (starting o) is h e = (observing o (suc s.metrics.in_flight), ground (arith, inv))
  act-Moved (observing o v) is h e = (
    if leb v s.metrics.peak then active o else swapping o v s.metrics.peak,
    ground (arith, inv, h),
  )
  act-Moved (swapping o v c) is h e =
      (if s.metrics.peak == c then active o else observing o v, ground (arith, inv, h))
  act-Moved (active succeeds) is h e = (ending, ground (arith, inv))
  act-Moved (active fails) is h e = (ending, ground (arith, inv))
  act-Moved ending is h e =
      (outside, ground (arith, inv, ap flying is, le-sum_below (λ i. flying (s.pc i)) n id lt))

Step-Inv : {n : ℕ} (s t : System) → Step n s t → Inv n s → Inv n t
Step-Inv s t (goroutine id lt e) inv =
    let (p', m) = act-Moved inv lt (s.pc id) refl (inv.ordered id) e in Moved-Inv inv lt m

initial-Inv : (n : ℕ) (jobs : ℕ → List Outcome) → Inv n (initial jobs)
unfolding initial zero_metrics
initial-Inv n jobs = record {
  counted = omega (arith, sum_below-zero n);
  in_air = sym (sum_below-zero n);
  peak_bound = omega arith;
  flight_bound = omega arith;
  pending = inl (omega arith);
  ordered = λ i. tt;
}

Reach-Inv :
    {n : ℕ} {t : System} (jobs : ℕ → List Outcome) → Reach (Step n) (initial jobs) t → Inv n t
Reach-Inv {n} jobs r = Reach-inv (Inv n) (λ s t st inv. Step-Inv s t st inv) (initial-Inv n jobs) r

records_one : (value : ℕ) (p : Pc) → 0 < records value p → records value p ≡ 1
records_one value outside h = ground arith
records_one value (starting o) h = ground arith
records_one value (observing o v) h = ground arith
records_one value (swapping o v c) h = ground arith
records_one value (active o) h = ground arith
records_one value ending h = ground arith

-- In every state that any number of goroutines can reach by starting and ending requests, with
-- their atomic operations in any order: the peak is at most the highest number of requests that
-- were in flight at once, and it is that number, unless a goroutine is still in recordPeak with it.
-- So no update of the peak is lost when several goroutines compare and swap it.
pub metrics_peak :
    {n : ℕ} {t : System} (jobs : ℕ → List Outcome)
    → Reach (Step n) (initial jobs) t
    → (t.metrics.peak ≤ t.most)
      × ((t.metrics.peak ≡ t.most) ⊎ ((i : ℕ) × (i < n) × (records t.most (t.pc i) ≡ 1)))
metrics_peak {n} {t} jobs r =
    let inv = Reach-Inv jobs r in
    (
      inv.peak_bound,
      elim inv.pending [
        | inl le ↦ inl (omega (arith, inv.peak_bound))
        | inr p ↦
            let (i, q, h) = sum_below_pos (λ i. records t.most (t.pc i)) n p in
            inr (i, q, records_one t.most (t.pc i) h)
      ],
    )

-- In every reachable state, the requests that were counted are those that succeeded, those that
-- failed and those that goroutines have not ended, and InFlight is the number of goroutines that
-- have a request in flight: no increment or decrement is lost.
metrics_counted :
    {n : ℕ} {t : System} (jobs : ℕ → List Outcome)
    → Reach (Step n) (initial jobs) t
    → (t.metrics.requests
        ≡ t.metrics.success + t.metrics.failure + sum_below (λ i. unfinished (t.pc i)) n)
      × (t.metrics.in_flight ≡ sum_below (λ i. flying (t.pc i)) n)
      × (t.metrics.in_flight ≤ t.most)
metrics_counted jobs r = let inv = Reach-Inv jobs r in (inv.counted, inv.in_air, inv.flight_bound)
