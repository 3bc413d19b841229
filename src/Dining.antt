-- ===== src/Dining.antt =====
-- examples/diningphilosophers/table.go: `Run`, and the goroutine `dine` of each philosopher as a
-- function from one atomic step to the next. A fork is a mutex, `seats` the length of the buffered
-- channel, `errs` its contents.
pub mod Forks
pub mod Progress
pub mod Termination
pub mod Outcome
mod Tests
use go_concurrency_examples.Base.{
  ℕ, suc, ◌+◌, ◌-◌, ◌%◌, ◌<◌, ◌≡◌, Bool, true, false, Option, none, some, List, [], ◌∷◌, ◌++◌,
  length, ltb, ◌==◌, if◌then◌else◌, update, CtxError, Context, select, first, second, blocked,
  is_some,
}
use go_concurrency_examples.Base.Int.{ℤ, pos, ltb_ℤ, pos_part}

-- Where a philosopher stands; the number is the loop variable `i` of `dine`.
pub data Pc : Type 0 where
  at_loop : ℕ → Pc
  sitting : ℕ → Pc
  lock_left : ℕ → Pc
  lock_right : ℕ → Pc
  counting : ℕ → Pc
  unlock_right : ℕ → Pc
  unlock_left : ℕ → Pc
  leaving : ℕ → Pc
  reporting : Option CtxError → Pc
  finished : Option CtxError → Pc

pub record Table : Type 0 where
  pub forks : ℕ → Bool
  pub seats : ℕ
  pub rounds_done : ℕ → ℕ
  pub errs : List (Option CtxError)
  pub ctx : Context
  pub pc : ℕ → Pc

abbrev pub right_fork : ℕ → ℕ → ℕ
right_fork n id = (id + 1) % n

abbrev pub goto : ℕ → Pc → Table → Table
goto id p s = record s { pc = update s.pc id p }

-- `sync.Mutex.Lock` blocks on a locked mutex.
lock : ℕ → ℕ → Pc → Table → Option Table
lock j id p s =
    if s.forks j then none else some (goto id p (record s { forks = update s.forks j true }))

-- `sync.Mutex.Unlock`; on a mutex that is not locked it is a fatal error, which has no next state.
unlock : ℕ → ℕ → Pc → Table → Option Table
unlock j id p s =
    if s.forks j then some (goto id p (record s { forks = update s.forks j false })) else none

-- The `select` of `sit`: a seat if one is free, or the error of a context that is done.
sit : ℕ → ℕ → ℕ → Bool → Table → Option Table
sit n id i prefer_done s = elim (select (ltb s.seats (n - 1)) (is_some s.ctx) prefer_done) [
  | first ↦ some (goto id (lock_left i) (record s { seats = s.seats + 1 }))
  | second ↦ some (goto id (reporting s.ctx) s)
  | blocked ↦ none
]

-- `leave` receives from `seats`, and blocks if no seat is taken.
leave : ℕ → ℕ → Table → Option Table
leave id i s =
    if s.seats == 0
    then none
    else some (goto id (at_loop (suc i)) (record s { seats = s.seats - 1 }))

-- The next step of philosopher `id`, which stands at the given place; `none` if it is blocked or
-- has finished. Sending on `errs` blocks once `n` errors are buffered.
pub dine : ℕ → ℕ → ℕ → Bool → Pc → Table → Option Table
unfolding lock unlock sit leave
dine n rounds id prefer_done (at_loop i) s =
    some (goto id (if ltb i rounds then sitting i else reporting none) s)
dine n rounds id prefer_done (sitting i) s = sit n id i prefer_done s
dine n rounds id prefer_done (lock_left i) s = lock id id (lock_right i) s
dine n rounds id prefer_done (lock_right i) s = lock (right_fork n id) id (counting i) s
dine n rounds id prefer_done (counting i) s =
    let eaten = record s { rounds_done = update s.rounds_done id (s.rounds_done id + 1) } in
    some (goto id (unlock_right i) eaten)
dine n rounds id prefer_done (unlock_right i) s = unlock (right_fork n id) id (unlock_left i) s
dine n rounds id prefer_done (unlock_left i) s = unlock id id (leaving i) s
dine n rounds id prefer_done (leaving i) s = leave id i s
dine n rounds id prefer_done (reporting e) s =
    if ltb (length s.errs) n
    then some (goto id (finished e) (record s { errs = s.errs ++ e ∷ [] }))
    else none
dine n rounds id prefer_done (finished e) s = none

-- One step of the whole program: of a philosopher that the scheduler picks, or of the caller, who
-- cancels the context.
pub data Step (n rounds : ℕ) (s t : Table) : Type 0 where
  philosopher :
      (id : ℕ) (prefer_done : Bool)
      → id < n
      → dine n rounds id prefer_done (s.pc id) s ≡ some t
      → Step n rounds s t
  cancel : (e : CtxError) → s.ctx ≡ none → t ≡ record s { ctx = some e } → Step n rounds s t

-- The table when all goroutines of `Run` have been started.
pub table : Context → Table
table ctx = record {
  forks = λ _. false;
  seats = 0;
  rounds_done = λ _. 0;
  errs = [];
  ctx = ctx;
  pc = λ _. at_loop 0;
}

pub data Error : Type 0 where
  too_few_philosophers negative_rounds : Error
  ctx_error : CtxError → Error

-- What `Run` does before it waits: it returns (with the rounds of each philosopher all 0), or it
-- seats the given number of philosophers for the given number of rounds.
pub data Started : Type 0 where
  refused : Error → Started
  returned : Option Error → Started
  seated : ℕ → ℕ → Table → Started

pub run : Context → ℤ → ℤ → Started
unfolding table
run ctx philosophers rounds =
    if ltb_ℤ philosophers (pos 2)
    then refused too_few_philosophers
    else (if ltb_ℤ rounds (pos 0) then refused negative_rounds else started ctx)
  where
    started : Context → Started
    started (some e) = returned (some (ctx_error e))
    started none =
        if pos_part rounds == 0
        then returned none
        else seated (pos_part philosophers) (pos_part rounds) (table none)

-- The loop over the closed channel `errs`: the first error in the order of completion.
pub first_error : List (Option CtxError) → Option CtxError
first_error [] = none
first_error (none ∷ rest) = first_error rest
first_error (some e ∷ rest) = some e
