-- ===== src/Bank/Locks.antt =====
-- The locks of examples/bankaccount/account.go. `Transfer` takes two account mutexes in the order
-- of `lockOrder`; every other method takes one. A goroutine makes any number of such calls.
mod Tests
pub mod Progress
use go_concurrency_examples.Base.{
  Bool, List, Option, [], false, if◌then◌else◌, ltb, none, some, true, update, ℕ, ◌<◌, ◌∷◌, ◌≡◌,
}

pub data Pc : Type 0 where
  outside : Pc
  one_wanted : ℕ → Pc
  one_held : ℕ → Pc
  first_wanted : ℕ → ℕ → Pc
  second_wanted : ℕ → ℕ → Pc
  both_held : ℕ → ℕ → Pc
  second_held : ℕ → Pc

-- A call on one account, or a transfer.
pub data Job : Type 0 where
  single : ℕ → Job
  transfers : ℕ → ℕ → Job

pub record System : Type 0 where
  pub locked : ℕ → Bool
  pub pc : ℕ → Pc
  pub jobs : ℕ → List Job

pub lock_order : (ℕ → ℕ) → ℕ → ℕ → ℕ × ℕ
lock_order seq a b = if ltb (seq a) (seq b) then (a, b) else (b, a)

abbrev goto : ℕ → Pc → System → System
goto id p s = record s { pc = update s.pc id p }

lock : ℕ → ℕ → Pc → System → Option System
lock a id p s =
    if s.locked a then none else some (goto id p (record s { locked = update s.locked a true }))

-- Unlocking a mutex that is not locked is a fatal error, which has no next state.
unlock : ℕ → ℕ → Pc → System → Option System
unlock a id p s =
    if s.locked a then some (goto id p (record s { locked = update s.locked a false })) else none

pub call : (ℕ → ℕ) → ℕ → Job → System → System
unfolding lock_order
call seq id (single a) s = goto id (one_wanted a) s
call seq id (transfers from to) s =
    let (low, high) = lock_order seq from to in goto id (first_wanted low high) s

pub next_call : (ℕ → ℕ) → ℕ → List Job → System → Option System
unfolding call
next_call seq id [] s = none
next_call seq id (job ∷ rest) s = some (call seq id job (record s { jobs = update s.jobs id rest }))

-- The next step of goroutine `id`. The deferred unlocks of `Transfer` run last in, first out: the
-- account that was locked first is unlocked first.
pub act : (ℕ → ℕ) → ℕ → Pc → System → Option System
unfolding lock unlock next_call
act seq id outside s = next_call seq id (s.jobs id) s
act seq id (one_wanted a) s = lock a id (one_held a) s
act seq id (one_held a) s = unlock a id outside s
act seq id (first_wanted low high) s = lock low id (second_wanted low high) s
act seq id (second_wanted low high) s = lock high id (both_held low high) s
act seq id (both_held low high) s = unlock low id (second_held high) s
act seq id (second_held high) s = unlock high id outside s

pub data Step (seq : ℕ → ℕ) (n : ℕ) (s t : System) : Type 0 where
  goroutine : (id : ℕ) → id < n → act seq id (s.pc id) s ≡ some t → Step seq n s t

pub initial : (ℕ → List Job) → System
initial jobs = record { locked = λ _. false; pc = λ _. outside; jobs = jobs }
