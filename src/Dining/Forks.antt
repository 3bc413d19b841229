-- ===== src/Dining/Forks.antt =====
-- The counting invariants of examples/diningphilosophers/table.go: who holds the forks and the
-- seats, and that every step of a philosopher keeps the counts.
use go_concurrency_examples.Base.{
  ℕ, suc, ◌+◌, ◌-◌, ◌<◌, ◌≤◌, ◌≡◌, ◌≢◌, Bool, none, some, [], ◌∷◌, length, length-append, ltb, ◌==◌,
  if◌then◌else◌, update, is_some, select, first, second, blocked, to_num, sum_below, sum_below-zero,
  sum_below-update, le-sum_below_two, arith, ℕ_discrete, Reach, Reach-inv, sym, ◌*◌,
}
use go_concurrency_examples.Dining.{
  Pc, at_loop, sitting, lock_left, lock_right, counting, unlock_right, unlock_left, leaving,
  reporting, finished, Table, right_fork, dine, Step, philosopher, cancel, table,
}

-- How often philosopher `i` of `n`, standing at a place, holds fork `j`.
abbrev pub holds : ℕ → ℕ → ℕ → Pc → ℕ
holds n j i (lock_right k) = to_num (i == j)
holds n j i (counting k) = to_num (i == j) + to_num (right_fork n i == j)
holds n j i (unlock_right k) = to_num (i == j) + to_num (right_fork n i == j)
holds n j i (unlock_left k) = to_num (i == j)
holds n j i _ = 0

-- 1 from the send on `seats` to the receive.
abbrev pub takes_seat : ℕ → Pc → ℕ
takes_seat i (at_loop k) = 0
takes_seat i (sitting k) = 0
takes_seat i (reporting e) = 0
takes_seat i (finished e) = 0
takes_seat i _ = 1

abbrev pub has_reported : ℕ → Pc → ℕ
has_reported i (finished e) = 1
has_reported i _ = 0

-- The result of philosopher `i` agrees with its loop variable.
abbrev pub RoundsAt : ℕ → Pc → ℕ → Type 0
RoundsAt rounds (at_loop k) r = (r ≡ k) × (k ≤ rounds)
RoundsAt rounds (reporting none) r = r ≡ rounds
RoundsAt rounds (finished none) r = r ≡ rounds
RoundsAt rounds (reporting (some e)) r = r < rounds
RoundsAt rounds (finished (some e)) r = r < rounds
RoundsAt rounds (unlock_right k) r = (r ≡ suc k) × (k < rounds)
RoundsAt rounds (unlock_left k) r = (r ≡ suc k) × (k < rounds)
RoundsAt rounds (leaving k) r = (r ≡ suc k) × (k < rounds)
RoundsAt rounds (sitting k) r = (r ≡ k) × (k < rounds)
RoundsAt rounds (lock_left k) r = (r ≡ k) × (k < rounds)
RoundsAt rounds (lock_right k) r = (r ≡ k) × (k < rounds)
RoundsAt rounds (counting k) r = (r ≡ k) × (k < rounds)

-- The steps that a philosopher has left, at most.
abbrev pub remaining : ℕ → ℕ → Pc → ℕ
remaining rounds i (at_loop k) = 9 * (rounds - k) + 2
remaining rounds i (sitting k) = 9 * (rounds - k) + 1
remaining rounds i (lock_left k) = 9 * (rounds - k)
remaining rounds i (lock_right k) = 9 * (rounds - k) - 1
remaining rounds i (counting k) = 9 * (rounds - k) - 2
remaining rounds i (unlock_right k) = 9 * (rounds - k) - 3
remaining rounds i (unlock_left k) = 9 * (rounds - k) - 4
remaining rounds i (leaving k) = 9 * (rounds - k) - 5
remaining rounds i (reporting e) = 1
remaining rounds i (finished e) = 0

pub record Inv (n rounds : ℕ) (s : Table) : Type 0 where
  pub forks_counted : (j : ℕ) → to_num (s.forks j) ≡ sum_below (λ i. holds n j i (s.pc i)) n
  pub seats_counted : s.seats ≡ sum_below (λ i. takes_seat i (s.pc i)) n
  pub seats_limited : s.seats ≤ n - 1
  pub errs_counted : length s.errs ≡ sum_below (λ i. has_reported i (s.pc i)) n
  pub rounds_counted : (i : ℕ) → RoundsAt rounds (s.pc i) (s.rounds_done i)

-- Where a step leads, given the context and the branch that the `select` of `sit` takes.
next_pc : ℕ → ℕ → Bool → Table → Pc → Pc
next_pc n rounds choice s (at_loop i) = if ltb i rounds then sitting i else reporting none
next_pc n rounds choice s (sitting i) = elim (select (ltb s.seats (n - 1)) (is_some s.ctx) choice) [
  | first ↦ lock_left i
  | second ↦ reporting s.ctx
  | blocked ↦ sitting i
]
next_pc n rounds choice s (lock_left i) = lock_right i
next_pc n rounds choice s (lock_right i) = counting i
next_pc n rounds choice s (counting i) = unlock_right i
next_pc n rounds choice s (unlock_right i) = unlock_left i
next_pc n rounds choice s (unlock_left i) = leaving i
next_pc n rounds choice s (leaving i) = at_loop (suc i)
next_pc n rounds choice s (reporting e) = finished e
next_pc n rounds choice s (finished e) = finished e

-- What one step of philosopher `id` from `p` to `p'` changes: its own share of each count.
pub record Moved (n rounds id : ℕ) (s t : Table) (p p' : Pc) : Type 0 where
  pub places : t.pc ≡ update s.pc id p'
  pub forks_moved :
      (j : ℕ) → to_num (t.forks j) + holds n j id p ≡ to_num (s.forks j) + holds n j id p'
  pub seats_moved : t.seats + takes_seat id p ≡ s.seats + takes_seat id p'
  pub seats_limited : s.seats ≤ n - 1 → t.seats ≤ n - 1
  pub errs_moved : length t.errs + has_reported id p ≡ length s.errs + has_reported id p'
  pub rounds_moved : RoundsAt rounds p (s.rounds_done id) → RoundsAt rounds p' (t.rounds_done id)
  pub work_falls :
      RoundsAt rounds p (s.rounds_done id) → remaining rounds id p' < remaining rounds id p
  pub rounds_kept : (i : ℕ) → i ≢ id → t.rounds_done i ≡ s.rounds_done i
  pub ctx_kept : t.ctx ≡ s.ctx

dine-Moved_at :
    (n rounds id : ℕ) (choice : Bool) (s t : Table) (p : Pc)
    → dine n rounds id choice p s ≡ some t
    → Moved n rounds id s t p (next_pc n rounds choice s p)
unfolding dine next_pc
dine-Moved_at n rounds id choice s t (at_loop i) e = ground arith
dine-Moved_at n rounds id choice s t (reporting x) e = ground (arith, length-append s.errs (x ∷ []))
dine-Moved_at n rounds id choice s t (sitting i) e = ground arith
dine-Moved_at n rounds id choice s t (finished x) e = ground arith
dine-Moved_at n rounds id choice s t _ e = ground arith

-- Every step of a philosopher moves its own shares only.
pub dine-Moved :
    (n rounds id : ℕ) (choice : Bool) (s t : Table)
    → dine n rounds id choice (s.pc id) s ≡ some t
    → (p' : Pc) × Moved n rounds id s t (s.pc id) p'
dine-Moved n rounds id choice s t e = (_, dine-Moved_at n rounds id choice s t (s.pc id) e)

module _ {n rounds id : ℕ} {s t : Table} {p' : Pc} (inv : Inv n rounds s) (lt : id < n)
    (m : Moved n rounds id s t (s.pc id) p') where
  pub sum_after :
      (w : ℕ → Pc → ℕ)
      → sum_below (λ i. w i (t.pc i)) n + w id (s.pc id) ≡ sum_below (λ i. w i (s.pc i)) n + w id p'
  sum_after w = rw m.places (sum_below-update w n s.pc id p' lt)

  rounds_after : (i : ℕ) → RoundsAt rounds (t.pc i) (t.rounds_done i)
  rounds_after i = elim (ℕ_discrete i id) [
    | yes e ↦ rw (m.places, e) (ground (arith, m.rounds_moved (inv.rounds_counted id)))
    | no ne ↦ rw (m.places, m.rounds_kept i ne) (ground (arith, inv.rounds_counted i))
  ]

  Moved-Inv : Inv n rounds t
  Moved-Inv = record {
    forks_counted = λ j. omega (arith, sum_after (holds n j), m.forks_moved j, inv.forks_counted j);
    seats_counted = omega (arith, sum_after takes_seat, m.seats_moved, inv.seats_counted);
    seats_limited = m.seats_limited inv.seats_limited;
    errs_counted = omega (arith, sum_after has_reported, m.errs_moved, inv.errs_counted);
    rounds_counted = rounds_after;
  }

pub Step-Inv : {n rounds : ℕ} (s t : Table) → Step n rounds s t → Inv n rounds s → Inv n rounds t
Step-Inv {n} {rounds} s t (philosopher id choice lt e) inv =
    Moved-Inv inv lt (dine-Moved n rounds id choice s t e).1
Step-Inv s t (cancel x free e) inv = rw e (record {
  forks_counted = inv.forks_counted;
  seats_counted = inv.seats_counted;
  seats_limited = inv.seats_limited;
  errs_counted = inv.errs_counted;
  rounds_counted = inv.rounds_counted;
})

pub table-Inv : (n rounds : ℕ) → Inv n rounds (table none)
unfolding table
table-Inv n rounds = record {
  forks_counted = λ j. sym (sum_below-zero n);
  seats_counted = sym (sum_below-zero n);
  seats_limited = omega arith;
  errs_counted = sym (sum_below-zero n);
  rounds_counted = λ i. omega arith;
}

-- The invariant in every state that `Run` can reach.
pub Reach-Inv : {n rounds : ℕ} {s : Table} → Reach (Step n rounds) (table none) s → Inv n rounds s
Reach-Inv {n} {rounds} r = Reach-inv (Inv n rounds) Step-Inv (table-Inv n rounds) r

-- No two philosophers hold the same fork.
fork_exclusion :
    {n rounds : ℕ} {s : Table}
    → Reach (Step n rounds) (table none) s
    → (i k j : ℕ) → i < n
    → k < n
    → i ≢ k
    → 0 < holds n j i (s.pc i)
    → holds n j k (s.pc k) ≡ 0
fork_exclusion {n} {rounds} {s} r i k j p q ne h = ground (
  arith,
  (Reach-Inv r).forks_counted j,
  le-sum_below_two (λ a. holds n j a (s.pc a)) n i k p q ne,
)
