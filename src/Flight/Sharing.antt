-- ===== src/Flight/Sharing.antt =====
-- What callers of examples/singleflight rely on.
use go_concurrency_examples.Base.Dict.{lookup}
use go_concurrency_examples.Base.{
  List, Reach, String, [], arith, false, is_some, le-sum_below_two, none, refl, some, sum_below_pos,
  true, ℕ, ◌<◌, ◌∷◌, ◌≡◌, ◌≢◌,
}
use go_concurrency_examples.Flight.{
  Pc, Step, System, act, deleting, entering, following, initial, next_do, outside, running, storing,
}
use go_concurrency_examples.Flight.Calls.{leads, works, Inv, Listed}
use go_concurrency_examples.Flight.Moves.{Reach-Inv}

leads-running :
    {V : Type 0} (s : System V) (k : String) (c fresh : ℕ) (p : Pc)
    → Listed s.group.calls fresh p
    → p ≡ running k c
    → (lookup k s.group.calls ≡ some c) × (leads c p ≡ 1)
leads-running s k c fresh p h is = ground arith

-- In every state that any number of goroutines can reach, with any keys and any function: no two
-- goroutines run their functions for one key at the same time.
pub flight_one_run :
    {V : Type 0} (fn : ℕ → String → V) {n : ℕ} {t : System V} (jobs : ℕ → List String)
    → Reach (Step fn n) (initial jobs) t
    → (k : String) (c d i j : ℕ) → i < n
    → j < n
    → i ≢ j
    → t.pc i ≡ running k c
    → t.pc j ≢ running k d
flight_one_run fn {n} {t} jobs r k c d i j p q ne at_i at_j =
    let inv = Reach-Inv fn jobs r in
    let (found_i, mine) = leads-running t k c t.group.fresh (t.pc i) (inv.listed i p) at_i in
    let (found_j, other) = leads-running t k d t.group.fresh (t.pc j) (inv.listed j q) at_j in
    ground (arith, inv.led k c found_i, le-sum_below_two (λ x. leads c (t.pc x)) n i j p q ne)

-- Why a goroutine cannot take a step: it has nothing left to do, or it follows a call that another
-- goroutine, which can take a step, has still to finish.
abbrev pub Rests : {V : Type 0} → (ℕ → String → V) → ℕ → System V → ℕ → Pc → Type 0
Rests fn n s id outside = s.jobs id ≡ []
Rests fn n s id (following k c) =
    (j : ℕ) × (j < n) × (works c (s.pc j) ≡ 1) × (is_some (act fn j (s.pc j) s) ≡ true)
Rests fn n s id _ = ⊥

module _ {V : Type 0} (fn : ℕ → String → V) (s : System V) where
  worker-steps :
      (j c : ℕ) (p : Pc) → 0 < works c p → (works c p ≡ 1) × (is_some (act fn j p s) ≡ true)
  unfolding act
  worker-steps j c outside h = ground arith
  worker-steps j c (entering k) h = ground arith
  worker-steps j c (following k d) h = ground arith
  worker-steps j c (running k d) h = ground arith
  worker-steps j c (storing k d) h = ground arith
  worker-steps j c (deleting k d) h = ground arith

  idle-Rests :
      (id : ℕ) (jobs : List String) → s.jobs id ≡ jobs → next_do fn id jobs s ≡ none → jobs ≡ []
  unfolding next_do
  idle-Rests id [] at e = refl
  idle-Rests id (key ∷ rest) at e = ground arith

  follower-Rests :
      (n id : ℕ) (k : String) (c : ℕ)
      → Inv n s
      → c < s.group.fresh
      → s.group.finished c ≡ false
      → Rests fn n s id (following k c)
  follower-Rests n id k c inv lt unfinished =
      let (j, p, h) = sum_below_pos (λ i. works c (s.pc i)) n (ground (arith, inv.working c lt)) in
      let (one, step) = worker-steps j c (s.pc j) h in (j, p, one, step)

  stuck-Rests :
      (n id : ℕ) (p : Pc)
      → Inv n s
      → Listed s.group.calls s.group.fresh p
      → act fn id p s ≡ none
      → Rests fn n s id p
  unfolding act
  stuck-Rests n id outside inv h e = idle-Rests id (s.jobs id) refl e
  stuck-Rests n id (entering k) inv h e = ground arith
  stuck-Rests n id (following k c) inv h e = follower-Rests n id k c inv h (ground (arith, e))
  stuck-Rests n id (running k c) inv h e = ground arith
  stuck-Rests n id (storing k c) inv h e = ground arith
  stuck-Rests n id (deleting k c) inv h e = ground arith

-- In every reachable state, a goroutine that cannot take a step has nothing left to do, or waits
-- for a call that another goroutine has still to finish, which can take a step: no follower waits
-- for a call that nobody finishes.
flight_follower_waits_for_leader :
    {V : Type 0} (fn : ℕ → String → V) {n : ℕ} {t : System V} (jobs : ℕ → List String)
    → Reach (Step fn n) (initial jobs) t
    → (id : ℕ) → id < n
    → act fn id (t.pc id) t ≡ none
    → Rests fn n t id (t.pc id)
flight_follower_waits_for_leader fn {n} {t} jobs r id lt e =
    let inv = Reach-Inv fn jobs r in stuck-Rests fn t n id (t.pc id) inv (inv.listed id lt) e
