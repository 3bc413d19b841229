-- ===== src/Barrier/Phases.antt =====
-- What callers of examples/barrier rely on: a phase lets all of its callers pass or none, and
-- nobody waits for anything but the rest of a group.
use go_concurrency_examples.Base.{
  List, Reach, [], ap, arith, false, inl, none, refl, sum_below, sum_below-congr, sum_below-zero, ℕ,
  ◌*◌, ◌+◌, ◌<◌, ◌∷◌, ◌≡◌,
}
use go_concurrency_examples.Barrier.{
  Barrier, Job, Pc, Step, System, act, arriving, closing, initial, new, next_job, outside, waiting,
  waking,
}
use go_concurrency_examples.Barrier.Groups.{Inv, Placed, current, earlier}
use go_concurrency_examples.Barrier.Calls.{Reach-Inv}
use go_concurrency_examples.Base.Int.{pos_part, ℤ}

-- In every state that goroutines with any calls of Wait and Close can reach from a barrier that New
-- returned: the calls that returned nil, with the callers of ended phases that are about to return,
-- are exactly `parties` for each phase that ended; the current phase has fewer than `parties`
-- arrivals; and while the barrier is open these are the callers that wait.
pub barrier_groups :
    {n : ℕ} {t : System} (parties : ℤ) (b : Barrier) (jobs : ℕ → List Job)
    → new parties ≡ inl b
    → Reach (Step n) (initial b jobs) t
    → (t.nils + sum_below (λ i. earlier t.barrier.generation (t.pc i)) n
        ≡ pos_part parties * t.barrier.generation)
      × (t.barrier.arrived < pos_part parties)
      × (t.barrier.closed ≡ false
          → sum_below (λ i. current t.barrier.generation (t.pc i)) n ≡ t.barrier.arrived)
barrier_groups parties b jobs made r =
    let inv = Reach-Inv parties b jobs made r in (inv.groups, inv.few, inv.counted)

-- No call of Wait returns ErrClosed before Close was called; and once all goroutines have returned,
-- closed or not, the calls that returned nil are whole groups: Close makes no caller of a completed
-- phase fail.
pub barrier_close :
    {n : ℕ} {t : System} (parties : ℤ) (b : Barrier) (jobs : ℕ → List Job)
    → new parties ≡ inl b
    → Reach (Step n) (initial b jobs) t
    → (t.barrier.closed ≡ false → t.errs ≡ 0)
      × (((i : ℕ) → i < n → t.pc i ≡ outside) → t.nils ≡ pos_part parties * t.barrier.generation)
barrier_close {n} {t} parties b jobs made r =
    let inv = Reach-Inv parties b jobs made r in
    let gen = t.barrier.generation in
    (
      inv.open_errs,
      λ all_out. omega (
        arith,
        inv.groups,
        sum_below-zero n,
        sum_below-congr (λ i. earlier gen (t.pc i)) (λ _. 0) n
            (λ i p. ground (arith, ap (earlier gen) (all_out i p))),
      ),
    )

-- Why a goroutine cannot take a step: it has no call left, or it waits in an open barrier whose
-- current phase lacks callers, all of its arrivals being there.
abbrev pub Rests : ℕ → ℕ → System → ℕ → Pc → Type 0
Rests parties n s id outside = s.jobs id ≡ []
Rests parties n s id (waiting g) =
    (g ≡ s.barrier.generation)
    × (s.barrier.closed ≡ false)
    × (sum_below (λ i. current g (s.pc i)) n < parties)
Rests parties n s id _ = ⊥

module _ {parties n : ℕ} {s : System} (inv : Inv parties n s) where
  idle-Rests : (id : ℕ) (jobs : List Job) → s.jobs id ≡ jobs → act id outside s ≡ none → jobs ≡ []
  unfolding act next_job
  idle-Rests id [] at e = refl
  idle-Rests id (job ∷ rest) at e = ground (arith, at)

  stuck-Rests :
      (id : ℕ) (p : Pc)
      → Placed s.barrier.generation s.barrier.closed p
      → act id p s ≡ none
      → Rests parties n s id p
  unfolding act
  stuck-Rests id outside h e = idle-Rests id (s.jobs id) refl e
  stuck-Rests id arriving h e = ground arith
  stuck-Rests id (waiting g) h e = (h.0, h.1, rw (h.0) (ground (arith, inv.counted h.1, inv.few)))
  stuck-Rests id (waking g) h e = ground arith
  stuck-Rests id closing h e = ground arith

-- In every reachable state, a goroutine that cannot take a step has no call left, or waits in an
-- open barrier in whose current phase fewer than `parties` callers have arrived: no wake-up of a
-- completed phase or of Close is lost.
pub barrier_no_lost_wakeup :
    {n : ℕ} {t : System} (parties : ℤ) (b : Barrier) (jobs : ℕ → List Job)
    → new parties ≡ inl b
    → Reach (Step n) (initial b jobs) t
    → (id : ℕ) → id < n
    → act id (t.pc id) t ≡ none
    → Rests (pos_part parties) n t id (t.pc id)
barrier_no_lost_wakeup {n} {t} parties b jobs made r id lt e =
    let inv = Reach-Inv parties b jobs made r in stuck-Rests inv id (t.pc id) (inv.placed id lt) e
