-- ===== src/Dining/Progress.antt =====
-- examples/diningphilosophers/table.go cannot deadlock: with one seat fewer than philosophers, some
-- philosopher can always take a step until all have finished.
use native.Mathlib.Nat.{add-zero, mod-lt, mod-add-mod, mod-eq_of_lt, mod-eq-sub-mod}
use mathlib.Core.Path.{subst}
use go_concurrency_examples.Base.{
  ◌∙◌, sym, ℕ, zero, suc, ◌+◌, ◌-◌, ◌%◌, ◌<◌, ◌≤◌, ◌≡◌, ◌⊎◌, inl, inr, refl, ap, Bool, true, none,
  some, is_some, sum_below-zero, sum_below-const, sum_below-congr, sum_below-lt, sum_below_pos,
  le-sum_below, search_below, arith, Reach, is_some-false, is_some-true,
}
use go_concurrency_examples.Dining.{
  Pc, at_loop, sitting, lock_left, lock_right, unlock_right, unlock_left, leaving, reporting,
  finished, Table, right_fork, dine, Step, table,
}
use go_concurrency_examples.Dining.Forks.{holds, takes_seat, has_reported, Inv, Reach-Inv}

abbrev pub IsFinished : Pc → Type 0
IsFinished (finished e) = Unit {0}
IsFinished _ = ⊥

abbrev IsWaiting : Pc → Type 0
IsWaiting (lock_right k) = Unit {0}
IsWaiting _ = ⊥

-- What blocks a philosopher at each place, given the counts.
abbrev Blocked : ℕ → ℕ → Table → Pc → Type 0
Blocked n id s (sitting k) = n - 1 ≤ s.seats
Blocked n id s (lock_left k) = s.forks id ≡ true
Blocked n id s (lock_right k) = s.forks (right_fork n id) ≡ true
Blocked n id s (finished e) = Unit {0}
Blocked n id s _ = ⊥

mod-add_self : (j n : ℕ) → j < n → (j + n) % n ≡ j
mod-add_self j n p = grind (arith, mod-eq-sub-mod, mod-eq_of_lt)

holder_at :
    (n j i : ℕ) (s : Table) (p : Pc) → Blocked n i s p → 0 < holds n j i p → (i ≡ j) × IsWaiting p
holder_at n j i s (lock_right k) b h = ground arith
holder_at n j i s _ b h = ground arith

seat_at : (i : ℕ) (p : Pc) → IsWaiting p → takes_seat i p ≡ 1
seat_at i (lock_right k) w = refl
seat_at i _ w = ground arith

module _ {n rounds : ℕ} {s : Table} (two : 2 ≤ n) (inv : Inv n rounds s) (choice : Bool) where
  Blocked-dine :
      (id : ℕ) (p : Pc)
      → id < n
      → s.pc id ≡ p
      → dine n rounds id choice p s ≡ none
      → Blocked n id s p
  unfolding dine
  Blocked-dine id (at_loop k) lt at e = ground arith
  Blocked-dine id (reporting x) lt at e = ground (
    arith,
    inv.errs_counted,
    sum_below-lt (λ i. has_reported i (s.pc i)) n id lt (λ j. ground arith) (ground arith),
  )
  Blocked-dine id (leaving k) lt at e =
      ground (arith, inv.seats_counted, le-sum_below (λ i. takes_seat i (s.pc i)) n id lt)
  Blocked-dine id (unlock_left k) lt at e =
      ground (arith, inv.forks_counted id, le-sum_below (λ i. holds n id i (s.pc i)) n id lt)
  Blocked-dine id (unlock_right k) lt at e = ground (
    arith,
    inv.forks_counted (right_fork n id),
    le-sum_below (λ i. holds n (right_fork n id) i (s.pc i)) n id lt,
  )
  Blocked-dine id _ lt at e = ground arith

  module _ (stuck : (i : ℕ) → i < n → dine n rounds i choice (s.pc i) s ≡ none) where
    stuck_at : (i : ℕ) → i < n → Blocked n i s (s.pc i)
    stuck_at i lt = Blocked-dine i (s.pc i) lt refl (stuck i lt)

    -- Then a locked fork is held by a philosopher that waits for the one on its right.
    holder_waits : (j i : ℕ) → i < n → 0 < holds n j i (s.pc i) → (i ≡ j) × IsWaiting (s.pc j)
    holder_waits j i lt h =
        let (e, w) = holder_at n j i s (s.pc i) (stuck_at i lt) h in
        (e, subst (λ k. IsWaiting (s.pc k)) e w)

    locked_waits : (j : ℕ) → s.forks j ≡ true → IsWaiting (s.pc j)
    locked_waits j locked =
        let (i, lt, h) =
          sum_below_pos (λ i. holds n j i (s.pc i)) n (ground (arith, inv.forks_counted j)) in
        (holder_waits j i lt h).1

    waits_right : (i : ℕ) → i < n → IsWaiting (s.pc i) → IsWaiting (s.pc (right_fork n i))
    waits_right i lt w = locked_waits (right_fork n i) (ground (arith, stuck_at i lt))

    waits_around : (d i : ℕ) → i < n → IsWaiting (s.pc i) → IsWaiting (s.pc ((i + d) % n))
    waits_around zero i lt w =
        subst (λ k. IsWaiting (s.pc k)) (rw add-zero (sym (mod-eq_of_lt lt))) w
    waits_around (suc d) i lt w =
        subst (λ k. IsWaiting (s.pc k))
          (mod-add-mod (i + d) n 1 ∙ ap (λ (k : ℕ). k % n) (omega arith))
          (waits_right ((i + d) % n) (mod-lt (i + d) (omega arith)) (waits_around d i lt w))

    all_wait : (i j : ℕ) → i < n → j < n → IsWaiting (s.pc i) → IsWaiting (s.pc j)
    all_wait i j lt lt_j w =
        subst (λ k. IsWaiting (s.pc k))
          (ap (λ (k : ℕ). k % n) (omega arith) ∙ mod-add_self j n lt_j)
          (waits_around (j + n - i) i lt w)

    -- All of them would wait, and hold a seat each: more than there are.
    none_waits : (i : ℕ) → i < n → ¬ IsWaiting (s.pc i)
    none_waits i lt w =
        let full =
          sum_below-congr (λ j. takes_seat j (s.pc j)) (λ _. 1) n
            (λ j lt_j. seat_at j (s.pc j) (all_wait i j lt lt_j w)) in
        absurd (omega (arith, full, sum_below-const 1 n, inv.seats_counted, inv.seats_limited))

    unseated_at : (i : ℕ) (p : Pc) → i < n → s.pc i ≡ p → Blocked n i s p → takes_seat i p ≡ 0
    unseated_at i (lock_left k) lt e b = absurd (none_waits i lt (locked_waits i b))
    unseated_at i (lock_right k) lt e b = absurd (none_waits i lt (rw e tt))
    unseated_at i _ lt e b = ground arith

    no_seats : s.seats ≡ 0
    no_seats =
        inv.seats_counted
        ∙ sum_below-congr (λ j. takes_seat j (s.pc j)) (λ _. 0) n
            (λ j lt. unseated_at j (s.pc j) lt refl (stuck_at j lt))
        ∙ sum_below-zero n

    IsFinished-unseated : (i : ℕ) (p : Pc) → Blocked n i s p → takes_seat i p ≡ 0 → IsFinished p
    IsFinished-unseated i (finished e) b u = tt
    IsFinished-unseated i (sitting k) b u = absurd (omega (arith, no_seats))
    IsFinished-unseated i _ b u = ground arith

    stuck-IsFinished : (i : ℕ) → i < n → IsFinished (s.pc i)
    stuck-IsFinished i lt =
        IsFinished-unseated i (s.pc i) (stuck_at i lt)
          (unseated_at i (s.pc i) lt refl (stuck_at i lt))

-- No deadlock: in every reachable state, whatever branch the `select`s prefer, all philosophers
-- have finished or one of them can take a step.
pub dining_progress :
    {n rounds : ℕ} {s : Table}
    → 2 ≤ n
    → Reach (Step n rounds) (table none) s
    → (choice : Bool)
    → ((i : ℕ) → i < n → IsFinished (s.pc i))
      ⊎ ((i : ℕ) × (i < n) × (t : Table) × (dine n rounds i choice (s.pc i) s ≡ some t))
dining_progress {n} {rounds} {s} two r choice =
    elim (search_below (λ i. is_some (dine n rounds i choice (s.pc i) s)) n) [
      | inl (i, lt, e) ↦
          let (t, stepped) = is_some-true (dine n rounds i choice (s.pc i) s) e in
          inr (i, lt, t, stepped)
      | inr stuck ↦ inl (
          stuck-IsFinished two (Reach-Inv r) choice
            (λ i lt. is_some-false (dine n rounds i choice (s.pc i) s) (stuck i lt)))
    ]
