-- ===== src/Barrier.antt =====
-- examples/barrier/barrier.go. `arrive` and `recheck` are the parts of `Wait` before and after the
-- wait on the condition variable, each one critical section.
mod Groups
mod Calls
mod Phases
mod Tests
use go_concurrency_examples.Base.Int.{ℤ, pos, leb_ℤ, pos_part}
use go_concurrency_examples.Base.{
  Bool, List, Option, [], false, if◌then◌else◌, inl, inr, leb, none, not, some, suc, true, update,
  ℕ, ◌&&◌, ◌<◌, ◌==◌, ◌∷◌, ◌≡◌, ◌⊎◌,
}

pub data Error : Type 0 where
  uninitialized : Error
  parties_not_positive : ℤ → Error

pub record Barrier : Type 0 where
  pub parties : ℕ
  pub arrived : ℕ
  pub generation : ℕ
  pub closed : Bool

pub new : ℤ → Barrier ⊎ Error
new parties =
    if leb_ℤ parties (pos 0)
    then inr (parties_not_positive parties)
    else inl (record { parties = pos_part parties; arrived = 0; generation = 0; closed = false })

-- `none` is a nil or zero barrier.
pub ready : Option Barrier → Option Error
ready none = some uninitialized
ready (some b) = if leb b.parties 0 then some uninitialized else none

-- What a caller of `Wait` does after a critical section: it returns nil or ErrClosed, or waits for
-- the end of its generation. The last caller of a group wakes the others.
pub data Next : Type 0 where
  passes fails : Next
  last_passes : Next
  waits : ℕ → Next

pub arrive : Barrier → Barrier × Next
arrive b =
    if b.closed
    then (b, fails)
    else (if suc b.arrived == b.parties
        then (record b { arrived = 0; generation = suc b.generation }, last_passes)
        else (record b { arrived = suc b.arrived }, waits b.generation))

pub recheck : ℕ → Barrier → Next
recheck generation b =
    if (generation == b.generation) && not b.closed
    then waits generation
    else (if generation == b.generation then fails else passes)

-- The critical section of `Close`, and whether it wakes the callers that wait.
pub close : Barrier → Barrier × Bool
close b = if b.closed then (b, false) else (record b { closed = true }, true)

pub data Job : Type 0 where
  waits_once closes : Job

-- `waiting` is in the condition variable's queue, `waking` was woken and wants the mutex.
pub data Pc : Type 0 where
  outside : Pc
  arriving : Pc
  waiting : ℕ → Pc
  waking : ℕ → Pc
  closing : Pc

-- `nils` and `errs` count the calls of `Wait` that returned nil and ErrClosed.
pub record System : Type 0 where
  pub barrier : Barrier
  pub pc : ℕ → Pc
  pub jobs : ℕ → List Job
  pub nils : ℕ
  pub errs : ℕ

pub wake : Pc → Pc
wake outside = outside
wake arriving = arriving
wake (waiting g) = waking g
wake (waking g) = waking g
wake closing = closing

abbrev pub start : Option Error → Job → Pc
start (some e) waits_once = outside
start none waits_once = arriving
start err closes = closing

pub next_job : ℕ → List Job → System → Option System
unfolding ready
next_job id [] s = none
next_job id (job ∷ rest) s =
    let p = start (ready (some s.barrier)) job in
    some (record s { pc = update s.pc id p; jobs = update s.jobs id rest })

-- The caller leaves a critical section of `Wait`.
pub leave : ℕ → Next → System → System
unfolding wake
leave id passes s = record s { pc = update s.pc id outside; nils = suc s.nils }
leave id fails s = record s { pc = update s.pc id outside; errs = suc s.errs }
leave id last_passes s = record s { pc = λ i. wake (update s.pc id outside i); nils = suc s.nils }
leave id (waits g) s = record s { pc = update s.pc id (waiting g) }

pub act : ℕ → Pc → System → Option System
unfolding next_job arrive recheck close leave wake
act id outside s = next_job id (s.jobs id) s
act id arriving s =
    let (b, after) = arrive s.barrier in some (leave id after (record s { barrier = b }))
act id (waiting g) s = none
act id (waking g) s = some (leave id (recheck g s.barrier) s)
act id closing s =
    let (b, broadcasts) = close s.barrier in
    let pc = update s.pc id outside in
    some (record s { barrier = b; pc = if broadcasts then (λ i. wake (pc i)) else pc })

pub data Step (n : ℕ) (s t : System) : Type 0 where
  goroutine : (id : ℕ) → id < n → act id (s.pc id) s ≡ some t → Step n s t

pub initial : Barrier → (ℕ → List Job) → System
initial b jobs = record { barrier = b; pc = λ _. outside; jobs = jobs; nils = 0; errs = 0 }
