-- ===== src/Barrier/Calls.antt =====
-- Every step of a goroutine of examples/barrier keeps its groups.
use mathlib.Core.Path.{subst}
use go_concurrency_examples.Base.{
  List, [], arith, false, some, suc, sym, true, ℕ, ◌<◌, ◌∷◌, ◌≡◌, ◌≢◌, ap, inl, refl, sum_below,
  sum_below-add, sum_below-congr, sum_below-update, sum_below-zero, update, ℕ_discrete, ◌+◌, ◌∙◌,
  ◌⊎◌, inr, Bool-cases, Reach, Reach-inv, ◌*◌,
}
use go_concurrency_examples.Barrier.Groups.{
  Inv, Moved, Moved-Inv, Placed, current, earlier, turned-counts, closed-Placed, turned-Placed,
  wake-earlier,
}
use go_concurrency_examples.Barrier.{
  Job, System, act, arrive, arriving, leave, next_job, outside, ready, recheck, start, waiting,
  waking, Pc, closing, wake, close, Barrier, Step, goroutine, initial, new,
}
use go_concurrency_examples.Base.Int.{negsuc, pos, pos_part, ℤ}

next_multiple :
    (parties gen later : ℕ) → later ≡ suc gen → parties * later ≡ parties * gen + parties
next_multiple parties gen later e = rw e (omega arith)

module _ {parties n id : ℕ} {s : System} (inv : Inv parties n s) (lt : id < n) where
  -- Goroutine `id` is outside the current generation's count, and leaves.
  left-Placed :
      (i : ℕ) → i < n → Placed s.barrier.generation s.barrier.closed (update s.pc id outside i)
  left-Placed i q = elim (ℕ_discrete i id) [
    | yes e ↦ ground (arith, e)
    | no ne ↦ ground (arith, inv.placed i q)
  ]

  left-counts :
      (p : Pc)
      → s.pc id ≡ p
      → (p ≡ arriving) ⊎ (p ≡ closing)
      → (gen : ℕ)
      → (sum_below (λ i. current gen (update s.pc id outside i)) n
          ≡ sum_below (λ i. current gen (s.pc i)) n)
        × (sum_below (λ i. earlier gen (update s.pc id outside i)) n
            ≡ sum_below (λ i. earlier gen (s.pc i)) n)
  left-counts p is which gen =
      let none_current = ap (current gen) is in
      let none_earlier = ap (earlier gen) is in
      (
        ground (arith, none_current, sum_below-update (λ _. current gen) n s.pc id outside lt),
        ground (arith, none_earlier, sum_below-update (λ _. earlier gen) n s.pc id outside lt),
      )

  -- The sums after the last caller of a group.
  turned-sums :
      s.pc id ≡ arriving
      → let gen = s.barrier.generation in
        (sum_below (λ i. current (suc gen) (wake (update s.pc id outside i))) n ≡ 0)
        × (sum_below (λ i. earlier (suc gen) (wake (update s.pc id outside i))) n
            ≡ sum_below (λ i. earlier gen (s.pc i)) n + sum_below (λ i. current gen (s.pc i)) n)
  turned-sums is =
      let gen = s.barrier.generation in
      let q = update s.pc id outside in
      let each =
        λ (i : ℕ) (p : i < n). turned-counts gen s.barrier.closed (q i) (left-Placed i p) in
      let (cur, ear) = left-counts arriving is (inl refl) gen in
      (
        sum_below-congr (λ i. current (suc gen) (wake (q i))) (λ _. 0) n (λ i p. (each i p).0)
            ∙ sum_below-zero n,
        omega (
          arith,
          cur,
          ear,
          sum_below-add (λ i. earlier gen (q i)) (λ i. current gen (q i)) n,
          sum_below-congr (λ i. earlier (suc gen) (wake (q i)))
              (λ i. earlier gen (q i) + current gen (q i)) n (λ i p. (each i p).1),
        ),
      )

module _ {parties n id : ℕ} {s t : System} (inv : Inv parties n s) (lt : id < n) where
  outside-Inv :
      (jobs : List Job)
      → s.jobs id ≡ jobs
      → s.pc id ≡ outside
      → act id outside s ≡ some t
      → Inv parties n t
  unfolding act next_job
  outside-Inv [] at is e = ground (arith, at)
  outside-Inv (job ∷ rest) at is e =
      let p' = start (ready (some s.barrier)) job in
      Moved-Inv inv lt (subst (λ q. Moved id s t q p') (sym is) (ground (arith, inv, at)))

  refused-Inv :
      s.pc id ≡ arriving → s.barrier.closed ≡ true → act id arriving s ≡ some t → Inv parties n t
  unfolding act arrive leave
  refused-Inv is c e =
      Moved-Inv inv lt (subst (λ q. Moved id s t q outside) (sym is) (ground (arith, inv)))

  joins-Inv :
      s.pc id ≡ arriving
      → s.barrier.closed ≡ false
      → suc s.barrier.arrived ≢ s.barrier.parties
      → act id arriving s ≡ some t
      → Inv parties n t
  unfolding act arrive leave
  joins-Inv is c ne e =
      Moved-Inv inv lt
        (subst (λ q. Moved id s t q (waiting s.barrier.generation)) (sym is) (ground (arith, inv)))

  woken-Inv :
      (g : ℕ)
      → s.pc id ≡ waking g
      → Placed s.barrier.generation s.barrier.closed (waking g)
      → act id (waking g) s ≡ some t
      → Inv parties n t
  unfolding act recheck leave
  woken-Inv g is h e =
      Moved-Inv inv lt (subst (λ q. Moved id s t q outside) (sym is) (ground (arith, inv, h)))

  -- The last caller of a group ends the generation.
  turns-Inv :
      s.pc id ≡ arriving
      → s.barrier.closed ≡ false
      → suc s.barrier.arrived ≡ s.barrier.parties
      → act id arriving s ≡ some t
      → Inv parties n t
  unfolding act arrive leave
  turns-Inv is c full e =
      let gen = s.barrier.generation in
      let (cur, ear) = turned-sums inv lt is in
      record {
        parties_kept = ground (arith, inv);
        few = ground (arith, inv);
        counted = λ o. ground (arith, cur);
        groups = ground (
          arith,
          ear,
          inv.counted c,
          inv.groups,
          inv.parties_kept,
          next_multiple parties gen t.barrier.generation (ground arith),
        );
        placed = λ i q. ground (
          arith,
          turned-Placed gen s.barrier.closed (update s.pc id outside i) (left-Placed inv lt i q),
        );
        open_errs = λ o. ground (arith, inv);
      }

  -- Close, on an open barrier and on one that is closed.
  closes-Inv : s.pc id ≡ closing → act id closing s ≡ some t → Inv parties n t
  unfolding act close
  closes-Inv is e =
      let gen = s.barrier.generation in
      let q = update s.pc id outside in
      let (cur, ear) = left-counts inv lt closing is (inr refl) gen in
      record {
        parties_kept = ground (arith, inv);
        few = ground (arith, inv);
        counted = λ o. ground (arith, cur, inv.counted);
        groups = ground (
          arith,
          ear,
          inv.groups,
          sum_below-congr (λ i. earlier gen (wake (q i))) (λ i. earlier gen (q i)) n
              (λ i p. wake-earlier gen (q i)),
        );
        placed = λ i p. ground (
          arith,
          closed-Placed gen s.barrier.closed (q i) (left-Placed inv lt i p),
          left-Placed inv lt i p,
        );
        open_errs = λ o. ground (arith, inv);
      }

  arriving-Inv : s.pc id ≡ arriving → act id arriving s ≡ some t → Inv parties n t
  arriving-Inv is e = elim (Bool-cases s.barrier.closed) [
    | inl c ↦ refused-Inv is c e
    | inr c ↦ elim (ℕ_discrete (suc s.barrier.arrived) s.barrier.parties) [
      | yes full ↦ turns-Inv is c full e
      | no ne ↦ joins-Inv is c ne e
    ]
  ]

  act-Inv :
      (p : Pc)
      → s.pc id ≡ p
      → Placed s.barrier.generation s.barrier.closed p
      → act id p s ≡ some t
      → Inv parties n t
  unfolding act
  act-Inv outside is h e = outside-Inv (s.jobs id) refl is e
  act-Inv arriving is h e = arriving-Inv is e
  act-Inv (waiting g) is h e = ground arith
  act-Inv (waking g) is h e = woken-Inv g is h e
  act-Inv closing is h e = closes-Inv is e

Step-Inv : {parties n : ℕ} (s t : System) → Step n s t → Inv parties n s → Inv parties n t
Step-Inv s t (goroutine id lt e) inv = act-Inv inv lt (s.pc id) refl (inv.placed id lt) e

-- A barrier that `New` returned.
new-Inv :
    (parties : ℤ) (b : Barrier) (n : ℕ) (jobs : ℕ → List Job)
    → new parties ≡ inl b
    → Inv (pos_part parties) n (initial b jobs)
unfolding new initial
new-Inv (pos m) b n jobs made = record {
  parties_kept = ground (arith, made);
  few = ground (arith, made);
  counted = λ o. ground (arith, made, sum_below-zero n);
  groups = ground (arith, made, sum_below-zero n);
  placed = λ i p. tt;
  open_errs = λ o. refl;
}
new-Inv (negsuc m) b n jobs made = ground (arith, made)

pub Reach-Inv :
    {n : ℕ} {t : System} (parties : ℤ) (b : Barrier) (jobs : ℕ → List Job)
    → new parties ≡ inl b
    → Reach (Step n) (initial b jobs) t
    → Inv (pos_part parties) n t
Reach-Inv {n} parties b jobs made r =
    Reach-inv (Inv (pos_part parties) n) (λ s t st inv. Step-Inv s t st inv)
      (new-Inv parties b n jobs made) r
