-- ===== src/Bank/Locks/Progress.antt =====
-- Transfers of examples/bankaccount/account.go cannot deadlock, since both accounts are locked in
-- the order of their sequence numbers, and no two goroutines hold one account.
use mathlib.Core.Path.{subst}
use go_concurrency_examples.Bank.Locks.{
  Pc, Job, System, act, both_held, first_wanted, lock_order, one_held, one_wanted, outside,
  second_held, second_wanted, single, transfers, Step, goroutine, initial,
}
use go_concurrency_examples.Base.{
  All, List, [], arith, some, sum_below, to_num, update, ℕ, ◌+◌, ◌<◌, ◌==◌, ◌∷◌, ◌≡◌, ◌≢◌, Reach,
  Reach-inv, inl, inr, is_some, is_some-false, is_some-true, le-sum_below, le-sum_below_two, none,
  refl, search_below, suc, sum_below-update, sum_below-zero, sum_below_pos, sym, true, zero,
  ℕ_discrete, ◌≤◌, ◌⊎◌,
}

abbrev pub holds : ℕ → ℕ → Pc → ℕ
holds a i (one_held c) = to_num (c == a)
holds a i (second_wanted low high) = to_num (low == a)
holds a i (both_held low high) = to_num (low == a) + to_num (high == a)
holds a i (second_held high) = to_num (high == a)
holds a i _ = 0

-- The accounts of a transfer in progress are in the order of their sequence numbers.
abbrev Ordered : (ℕ → ℕ) → Pc → Type 0
Ordered seq (first_wanted low high) = seq low < seq high
Ordered seq (second_wanted low high) = seq low < seq high
Ordered seq (both_held low high) = seq low < seq high
Ordered seq _ = Unit {0}

-- Transfer is called with two accounts that are different, and so have different numbers.
abbrev pub Distinct : (ℕ → ℕ) → Job → Type 0
Distinct seq (single a) = Unit {0}
Distinct seq (transfers from to) = seq from ≢ seq to

record Inv (seq : ℕ → ℕ) (n : ℕ) (s : System) : Type 0 where
  counted : (a : ℕ) → to_num (s.locked a) ≡ sum_below (λ i. holds a i (s.pc i)) n
  ordered : (i : ℕ) → Ordered seq (s.pc i)
  distinct : (i : ℕ) → All (Distinct seq) (s.jobs i)

next_pc : (ℕ → ℕ) → List Job → Pc → Pc
next_pc seq [] outside = outside
next_pc seq (single a ∷ rest) outside = one_wanted a
next_pc seq (transfers from to ∷ rest) outside =
    let (low, high) = lock_order seq from to in first_wanted low high
next_pc seq jobs (one_wanted a) = one_held a
next_pc seq jobs (one_held a) = outside
next_pc seq jobs (first_wanted low high) = second_wanted low high
next_pc seq jobs (second_wanted low high) = both_held low high
next_pc seq jobs (both_held low high) = second_held high
next_pc seq jobs (second_held high) = outside

record Moved (seq : ℕ → ℕ) (id : ℕ) (s t : System) (p p' : Pc) : Type 0 where
  places : t.pc ≡ update s.pc id p'
  locks_moved : (a : ℕ) → to_num (t.locked a) + holds a id p ≡ to_num (s.locked a) + holds a id p'
  still_ordered : All (Distinct seq) (s.jobs id) → Ordered seq p → Ordered seq p'
  fewer_jobs : (i : ℕ) → All (Distinct seq) (s.jobs i) → All (Distinct seq) (t.jobs i)

act-Moved_at :
    (seq : ℕ → ℕ) (id : ℕ) (s t : System) (jobs : List Job) (p : Pc)
    → s.jobs id ≡ jobs
    → act seq id p s ≡ some t
    → Moved seq id s t p (next_pc seq jobs p)
unfolding act next_pc lock_order
act-Moved_at seq id s t [] outside at e = ground arith
act-Moved_at seq id s t (single a ∷ rest) outside at e = ground arith
act-Moved_at seq id s t (transfers from to ∷ rest) outside at e = ground arith
act-Moved_at seq id s t jobs (one_wanted a) at e = ground arith
act-Moved_at seq id s t jobs (one_held a) at e = ground arith
act-Moved_at seq id s t jobs (first_wanted low high) at e = ground arith
act-Moved_at seq id s t jobs (second_wanted low high) at e = ground arith
act-Moved_at seq id s t jobs (both_held low high) at e = ground arith
act-Moved_at seq id s t jobs (second_held high) at e = ground arith

module _ {seq : ℕ → ℕ} {n id : ℕ} {s t : System} {p' : Pc} (inv : Inv seq n s) (lt : id < n)
    (m : Moved seq id s t (s.pc id) p') where
  Ordered-moved : (i : ℕ) → Ordered seq (t.pc i)
  Ordered-moved i = elim (ℕ_discrete i id) [
    | yes e ↦ rw (m.places, e) (ground (arith, m.still_ordered (inv.distinct id) (inv.ordered id)))
    | no ne ↦ rw m.places (ground (arith, inv.ordered i))
  ]

  Moved-Inv : Inv seq n t
  Moved-Inv = record {
    counted = λ a.
        let change = sum_below-update (holds a) n s.pc id p' lt in
        rw m.places (omega (arith, change, m.locks_moved a, inv.counted a));
    ordered = Ordered-moved;
    distinct = λ i. m.fewer_jobs i (inv.distinct i);
  }

Step-Inv : {seq : ℕ → ℕ} {n : ℕ} (s t : System) → Step seq n s t → Inv seq n s → Inv seq n t
Step-Inv {seq} s t (goroutine id lt e) inv =
    Moved-Inv inv lt (act-Moved_at seq id s t (s.jobs id) (s.pc id) refl e)

initial-Inv :
    (seq : ℕ → ℕ) (n : ℕ) (jobs : ℕ → List Job)
    → ((i : ℕ) → All (Distinct seq) (jobs i))
    → Inv seq n (initial jobs)
unfolding initial
initial-Inv seq n jobs d = record {
  counted = λ a. sym (sum_below-zero n);
  ordered = λ i. tt;
  distinct = d;
}

-- A goroutine that has made all its calls.
abbrev pub IsDone : System → ℕ → Type 0
IsDone s i = (s.pc i ≡ outside) × (s.jobs i ≡ [])

-- What blocks a goroutine, given the counts.
abbrev Blocked : System → ℕ → Pc → Type 0
Blocked s i outside = s.jobs i ≡ []
Blocked s i (one_wanted a) = s.locked a ≡ true
Blocked s i (first_wanted low high) = s.locked low ≡ true
Blocked s i (second_wanted low high) = s.locked high ≡ true
Blocked s i _ = ⊥

module _ {seq : ℕ → ℕ} {n : ℕ} {s : System} (inv : Inv seq n s) where
  held_locked : (a i : ℕ) → i < n → 0 < holds a i (s.pc i) → s.locked a ≡ true
  held_locked a i lt h =
      ground (arith, inv.counted a, le-sum_below (λ k. holds a k (s.pc k)) n i lt)

  act-Blocked :
      (i : ℕ) (jobs : List Job) (p : Pc)
      → i < n
      → s.jobs i ≡ jobs
      → s.pc i ≡ p
      → act seq i p s ≡ none
      → Blocked s i p
  unfolding act
  act-Blocked i [] outside lt at_jobs at e = at_jobs
  act-Blocked i (job ∷ rest) outside lt at_jobs at e = ground arith
  act-Blocked i jobs (one_wanted a) lt at_jobs at e = ground arith
  act-Blocked i jobs (first_wanted low high) lt at_jobs at e = ground arith
  act-Blocked i jobs (second_wanted low high) lt at_jobs at e = ground arith
  act-Blocked i jobs (one_held a) lt at_jobs at e = ground (arith, held_locked a i lt)
  act-Blocked i jobs (both_held low high) lt at_jobs at e = ground (arith, held_locked low i lt)
  act-Blocked i jobs (second_held high) lt at_jobs at e = ground (arith, held_locked high i lt)

  module _ (stuck : (i : ℕ) → i < n → act seq i (s.pc i) s ≡ none) where
    stuck_at : (i : ℕ) → i < n → Blocked s i (s.pc i)
    stuck_at i lt = act-Blocked i (s.jobs i) (s.pc i) lt refl refl (stuck i lt)

    -- The holder of a locked account waits for one with a larger number, which is locked too.
    holder_waits :
        (a i : ℕ) (p : Pc)
        → Ordered seq p
        → Blocked s i p
        → 0 < holds a i p
        → (c : ℕ) × (s.locked c ≡ true) × (seq a < seq c)
    holder_waits a i (second_wanted low high) o b h =
        let e : low ≡ a = ground arith in (high, b, subst (λ k. seq k < seq high) e o)
    holder_waits a i outside o b h = absurd (omega arith)
    holder_waits a i (one_wanted c) o b h = absurd (omega arith)
    holder_waits a i (first_wanted c d) o b h = absurd (omega arith)
    holder_waits a i (one_held c) o b h = absurd b
    holder_waits a i (both_held c d) o b h = absurd b
    holder_waits a i (second_held c) o b h = absurd b

    locked_chain : (a : ℕ) → s.locked a ≡ true → (c : ℕ) × (s.locked c ≡ true) × (seq a < seq c)
    locked_chain a h =
        let (i, lt, held) =
          sum_below_pos (λ k. holds a k (s.pc k)) n (ground (arith, inv.counted a)) in
        holder_waits a i (s.pc i) (inv.ordered i) (stuck_at i lt) held

    -- So the numbers of locked accounts would grow without end.
    none_locked :
        (bound : ℕ) → ((a : ℕ) → seq a < bound) → (d a : ℕ) → bound ≤ seq a + d → s.locked a ≢ true
    none_locked bound small zero a fuel h = absurd (omega (arith, small a))
    none_locked bound small (suc d) a fuel h =
        let (c, locked, more) = locked_chain a h in none_locked bound small d c (omega arith) locked

    IsDone-stuck :
        (i : ℕ) (p : Pc) → ((a : ℕ) → s.locked a ≢ true) → s.pc i ≡ p → Blocked s i p → IsDone s i
    IsDone-stuck i outside free at b = (at, b)
    IsDone-stuck i (one_wanted a) free at b = absurd (free a b)
    IsDone-stuck i (first_wanted low high) free at b = absurd (free low b)
    IsDone-stuck i (second_wanted low high) free at b = absurd (free high b)
    IsDone-stuck i (one_held a) free at b = absurd b
    IsDone-stuck i (both_held low high) free at b = absurd b
    IsDone-stuck i (second_held high) free at b = absurd b

-- No deadlock: while goroutines call the methods of any accounts and transfer between accounts
-- with different sequence numbers, below any bound, some goroutine can take a step until all calls
-- have returned.
pub bank_progress :
    {n bound : ℕ} (seq : ℕ → ℕ) (jobs : ℕ → List Job) {s : System}
    → ((a : ℕ) → seq a < bound)
    → ((i : ℕ) → All (Distinct seq) (jobs i))
    → Reach (Step seq n) (initial jobs) s
    → ((i : ℕ) → i < n → IsDone s i)
      ⊎ ((i : ℕ) × (i < n) × (t : System) × (act seq i (s.pc i) s ≡ some t))
bank_progress {n} {bound} seq jobs {s} small distinct r =
    let inv = Reach-inv (Inv seq n) Step-Inv (initial-Inv seq n jobs distinct) r in
    elim (search_below (λ i. is_some (act seq i (s.pc i) s)) n) [
      | inl (i, lt, e) ↦
          let (t, stepped) = is_some-true (act seq i (s.pc i) s) e in inr (i, lt, t, stepped)
      | inr none_moves ↦
          let stuck : (i : ℕ) → i < n → act seq i (s.pc i) s ≡ none =
            λ i lt. is_some-false (act seq i (s.pc i) s) (none_moves i lt) in
          let free = λ (a : ℕ). none_locked inv stuck bound small bound a (omega arith) in
          inl (λ i lt. IsDone-stuck inv stuck i (s.pc i) free refl (stuck_at inv stuck i lt))
    ]

-- No account is in two critical sections at once.
account_exclusion :
    {n : ℕ} (seq : ℕ → ℕ) (jobs : ℕ → List Job) {s : System}
    → ((i : ℕ) → All (Distinct seq) (jobs i))
    → Reach (Step seq n) (initial jobs) s
    → (i k a : ℕ) → i < n
    → k < n
    → i ≢ k
    → 0 < holds a i (s.pc i)
    → holds a k (s.pc k) ≡ 0
account_exclusion {n} seq jobs {s} distinct r i k a p q ne h =
    let inv = Reach-inv (Inv seq n) Step-Inv (initial-Inv seq n jobs distinct) r in
    ground (arith, inv.counted a, le-sum_below_two (λ c. holds a c (s.pc c)) n i k p q ne)
