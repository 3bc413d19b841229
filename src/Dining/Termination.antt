-- ===== src/Dining/Termination.antt =====
-- examples/diningphilosophers/table.go: every schedule ends. Each step of a philosopher lowers the
-- number of steps it has left, so no execution is longer than nine steps for each round of each
-- philosopher, two more for each philosopher, and the cancellation.
use go_concurrency_examples.Base.{
  ℕ, ◌+◌, ◌*◌, ◌<◌, ◌≤◌, not, none, is_some, to_num, sum_below, sum_below-const, arith, Reach,
  steps, steps-le, sum_below-congr, ◌≡◌,
}
use go_concurrency_examples.Dining.{Table, Step, philosopher, cancel, table, at_loop}
use go_concurrency_examples.Dining.Forks.{
  Inv, dine-Moved, Step-Inv, table-Inv, remaining, sum_after,
}

-- The steps that all philosophers have left, and the cancellation.
abbrev pub work : ℕ → ℕ → Table → ℕ
work n rounds s = sum_below (λ i. remaining rounds i (s.pc i)) n + to_num (not (is_some s.ctx))

Step-work :
    {n rounds : ℕ} (s t : Table)
    → Step n rounds s t
    → Inv n rounds s
    → work n rounds t < work n rounds s
Step-work {n} {rounds} s t (philosopher id choice lt e) inv =
    let (p', m) = dine-Moved n rounds id choice s t e in
    let sums = sum_after inv lt m (remaining rounds) in
    let falls = m.work_falls (inv.rounds_counted id) in ground (arith, m.ctx_kept)
Step-work s t (cancel x free e) inv = rw (e, free) (omega arith)

work-table : (n rounds : ℕ) → work n rounds (table none) ≡ n * (9 * rounds + 2) + 1
unfolding table
work-table n rounds =
    let each =
      sum_below-congr (λ i. remaining rounds i (at_loop 0)) (λ _. 9 * rounds + 2) n
        (λ i lt. omega arith) in
    omega (arith, each, sum_below-const (9 * rounds + 2) n)

-- Every execution from the initial table ends: it has at most 9 * rounds + 2 steps for each
-- philosopher, and one for the cancellation.
pub dining_terminates :
    {n rounds : ℕ} {s : Table} (r : Reach (Step n rounds) (table none) s)
    → steps r ≤ n * (9 * rounds + 2) + 1
dining_terminates {n} {rounds} r = omega (
  arith,
  steps-le (Inv n rounds) (work n rounds) Step-Inv Step-work (table-Inv n rounds) r,
  work-table n rounds,
)
