-- ===== src/Semaphore.antt =====
-- examples/semaphore/semaphore.go. The channel of permits is its capacity and its length; `none` is
-- a nil or zero semaphore, whose channel is nil.
mod Permits
mod Tests
use go_concurrency_examples.Base.Int.{ℤ, pos, leb_ℤ, pos_part}
use go_concurrency_examples.Base.{
  Bool, Branch, Context, CtxError, List, Option, [], blocked, false, first, if◌then◌else◌, inl, inr,
  is_some, ltb, none, second, select, some, suc, to_num, true, update, ℕ, ◌+◌, ◌-◌, ◌<◌, ◌∷◌, ◌≡◌,
  ◌⊎◌,
}

pub data Error : Type 0 where
  uninitialized release_without_acquire : Error
  limit_not_positive : ℤ → Error
  ctx_error : CtxError → Error

pub record Semaphore : Type 0 where
  pub limit : ℕ
  pub permits : ℕ

pub new : ℤ → Semaphore ⊎ Error
new limit =
    if leb_ℤ limit (pos 0)
    then inr (limit_not_positive limit)
    else inl (record { limit = pos_part limit; permits = 0 })

pub data Acquired : Type 0 where
  still_blocked : Acquired
  refused : Error → Acquired
  taken : Semaphore → Acquired

abbrev pub chosen : Branch → Context → Semaphore → Acquired
chosen first ctx s = taken (record s { permits = suc s.permits })
chosen second none s = still_blocked
chosen second (some e) s = refused (ctx_error e)
chosen blocked ctx s = still_blocked

-- `Acquire`. The send is ready if the channel has room, the other case if the context is done; a
-- nil context is one that is never done.
pub acquire : Context → Bool → Option Semaphore → Acquired
acquire ctx prefer_done none = refused uninitialized
acquire ctx prefer_done (some s) =
    chosen (select (ltb s.permits s.limit) (is_some ctx) prefer_done) ctx s

pub try_acquire : Option Semaphore → Option Semaphore × Bool
try_acquire none = (none, false)
try_acquire (some s) =
    if ltb s.permits s.limit
    then (some (record s { permits = suc s.permits }), true)
    else (some s, false)

pub release : Option Semaphore → Option Semaphore × Option Error
release none = (none, some uninitialized)
release (some s) =
    if ltb 0 s.permits
    then (some (record s { permits = s.permits - 1 }), none)
    else (some s, some release_without_acquire)

pub capacity : Option Semaphore → ℕ
capacity none = 0
capacity (some s) = s.limit

pub in_use : Option Semaphore → ℕ
in_use none = 0
in_use (some s) = s.permits

-- Callers take a slot by `Acquire` or `TryAcquire`, and release the slot that they got once.
pub data Job : Type 0 where
  acquires tries : Job

pub data Pc : Type 0 where
  outside acquiring holding : Pc

-- `misreleases` counts the calls of `Release` that returned an error, `ctx` is the context that each
-- goroutine passes.
pub record System : Type 0 where
  pub semaphore : Option Semaphore
  pub pc : ℕ → Pc
  pub jobs : ℕ → List Job
  pub ctx : ℕ → Context
  pub misreleases : ℕ

pub next_job : ℕ → List Job → System → Option System
unfolding try_acquire
next_job id [] s = none
next_job id (acquires ∷ rest) s =
    some (record s { pc = update s.pc id acquiring; jobs = update s.jobs id rest })
next_job id (tries ∷ rest) s =
    let (sem, got) = try_acquire s.semaphore in
    let p = if got then holding else outside in
    some (record s { semaphore = sem; pc = update s.pc id p; jobs = update s.jobs id rest })

pub after_acquire : ℕ → Acquired → System → Option System
after_acquire id still_blocked s = none
after_acquire id (refused err) s = some (record s { pc = update s.pc id outside })
after_acquire id (taken sem) s =
    some (record s { semaphore = some sem; pc = update s.pc id holding })

pub act : ℕ → Bool → Pc → System → Option System
unfolding next_job acquire after_acquire release
act id prefer_done outside s = next_job id (s.jobs id) s
act id prefer_done acquiring s = after_acquire id (acquire (s.ctx id) prefer_done s.semaphore) s
act id prefer_done holding s =
    let (sem, err) = release s.semaphore in
    some (record s {
      semaphore = sem;
      pc = update s.pc id outside;
      misreleases = s.misreleases + to_num (is_some err);
    })

pub data Step (n : ℕ) (s t : System) : Type 0 where
  goroutine :
      (id : ℕ) (prefer_done : Bool) → id < n → act id prefer_done (s.pc id) s ≡ some t → Step n s t
  cancel :
      (id : ℕ) (e : CtxError)
      → s.ctx id ≡ none
      → record s { ctx = update s.ctx id (some e) } ≡ t
      → Step n s t

pub initial : Semaphore → (ℕ → List Job) → System
initial sem jobs = record {
  semaphore = some sem;
  pc = λ _. outside;
  jobs = jobs;
  ctx = λ _. none;
  misreleases = 0;
}
