-- ===== src/Pool.antt =====
-- examples/connectionpool/pool.go and connection.go. A connection is its id; a waiter is the number
-- of the `Acquire` call that made it, and `ready w` the contents of its channel of one slot. A
-- function is one critical section or one channel operation of a method.
mod Invariant
mod Resume
mod Release
pub mod Handover
mod Tests
use go_concurrency_examples.Base.Int.{ℤ, pos, leb_ℤ, ltb_ℤ, pos_part}
use go_concurrency_examples.Base.{
  Bool, CtxError, List, Option, [], count, erase, false, if◌then◌else◌, inl, inr, leb, length, ltb,
  none, some, suc, true, update, zero, ℕ, ◌&&◌, ◌++◌, ◌<◌, ◌==◌, ◌∷◌, ◌≡◌, ◌⊎◌,
}

pub data Error : Type 0 where
  size_not_positive max_waiters_negative too_many_waiters nil_connection pool_full : Error
  ctx_error : CtxError → Error

pub record Pool : Type 0 where
  pub idle : List ℕ
  pub waiters : List ℕ
  pub capacity : ℕ
  pub max_waiters : ℕ

-- `count_up n` holds 0, 1, …, n - 1.
pub count_up : ℕ → List ℕ
count_up zero = []
count_up (suc n) = count_up n ++ n ∷ []

pub new : ℤ → ℤ → Pool ⊎ Error
new size max_waiters =
    if leb_ℤ size (pos 0)
    then inr size_not_positive
    else (if ltb_ℤ max_waiters (pos 0)
        then inr max_waiters_negative
        else inl (record {
          idle = count_up (pos_part size);
          waiters = [];
          capacity = pos_part size;
          max_waiters = pos_part max_waiters;
        }))

-- What the first critical section of `Acquire` decides.
pub data Acquired : Type 0 where
  granted : ℕ → Acquired
  refused : Acquired
  waiting : Acquired

-- `popIdleLocked`; on an empty slice, which its caller rules out, it would panic.
pub pop_idle : List ℕ → Option (ℕ × List ℕ)
pop_idle [] = none
pop_idle (conn ∷ rest) = some (conn, rest)

-- The first critical section of `Acquire`, whose waiter, if it makes one, is `w`.
pub acquire : ℕ → Pool → Option (Pool × Acquired)
unfolding pop_idle
acquire w p =
    if ltb 0 (length p.idle) && (length p.waiters == 0)
    then elim (pop_idle p.idle) [
      | none ↦ none
      | some (conn, rest) ↦ some (record p { idle = rest }, granted conn)
    ]
    else (if leb p.max_waiters (length p.waiters)
        then some (p, refused)
        else some (record p { waiters = p.waiters ++ w ∷ [] }, waiting))

-- `removeWaiterLocked`: the list without the waiter, and whether it was there.
pub remove_waiter : ℕ → List ℕ → List ℕ × Bool
remove_waiter target [] = ([], false)
remove_waiter target (w ∷ ws) =
    let (rest, found) = remove_waiter target ws in
    if w == target then (ws, true) else (w ∷ rest, found)

-- What the critical section of `Release` decides: an error, or whom the connection goes to.
pub data Released : Type 0 where
  failed : Error → Released
  handed : ℕ → Released
  stored : Released

pub release_to : List ℕ → ℕ → Pool → Pool × Released
release_to (w ∷ rest) conn p = (record p { waiters = rest }, handed w)
release_to [] conn p =
    if leb p.capacity (length p.idle)
    then (p, failed pool_full)
    else (record p { idle = p.idle ++ conn ∷ [] }, stored)

pub release : Option ℕ → Pool → Pool × Released
unfolding release_to
release none p = (p, failed nil_connection)
release (some conn) p = release_to p.waiters conn p

pub record Stats : Type 0 where
  pub capacity : ℕ
  pub idle : ℕ
  pub waiting : ℕ
  pub max_waiters : ℕ

pub stats : Pool → Stats
stats p = record {
  capacity = p.capacity;
  idle = length p.idle;
  waiting = length p.waiters;
  max_waiters = p.max_waiters;
}

-- Where an `Acquire` call that made a waiter stands: in its `select`, in the last receive after a
-- cancellation that came too late, or done. `absent` calls have not begun to wait.
pub data Call : Type 0 where
  absent selecting late : Call
  returned : ℕ ⊎ Error → Call

-- The pool with its callers: the channels of the waiters, the calls that wait, how many have, and
-- the connections that callers hold.
pub record System : Type 0 where
  pub pool : Pool
  pub ready : ℕ → Option ℕ
  pub calls : ℕ → Call
  pub fresh : ℕ
  pub borrowed : List ℕ

-- `Acquire` up to its return or its `select`.
pub begin_call : Pool × Acquired → System → System
begin_call (p, granted conn) s = record s { pool = p; borrowed = conn ∷ s.borrowed }
begin_call (p, refused) s = record s { pool = p }
begin_call (p, waiting) s = record s {
  pool = p;
  calls = update s.calls s.fresh selecting;
  fresh = suc s.fresh;
}

pub call_acquire : System → Option System
unfolding acquire begin_call
call_acquire s = elim (acquire s.fresh s.pool) [ none ↦ none | some r ↦ some (begin_call r s) ]

-- The receive from `w.ready` that ends a call; it blocks while the channel is empty.
pub finish_call : ℕ → System → Option System
finish_call w s = elim (s.ready w) [
  | none ↦ none
  | some conn ↦ some (record s {
    ready = update s.ready w none;
    calls = update s.calls w (returned (inl conn));
    borrowed = conn ∷ s.borrowed;
  })
]

-- The case `<-ctx.Done()`, on a context that is done with error `e`.
pub cancel_call : ℕ → CtxError → System → System
unfolding remove_waiter
cancel_call w e s =
    let (rest, removed) = remove_waiter w s.pool.waiters in
    let p = record (s.pool) { waiters = rest } in
    if removed
    then record s { pool = p; calls = update s.calls w (returned (inr (ctx_error e))) }
    else record s { pool = p; calls = update s.calls w late }

-- A step of the waiting call `w`; `select` may take the cancellation whenever the context is done.
pub resume_at : Call → Option CtxError → ℕ → System → Option System
unfolding finish_call cancel_call
resume_at selecting (some e) w s = some (cancel_call w e s)
resume_at selecting none w s = finish_call w s
resume_at late ctx w s = finish_call w s
resume_at absent ctx w s = none
resume_at (returned r) ctx w s = none

pub resume : ℕ → Option CtxError → System → Option System
unfolding resume_at
resume w ctx s = resume_at (s.calls w) ctx w s

-- `Release` by a caller. Sending to a full channel blocks, with the mutex held.
pub give_back : Pool × Released → ℕ → System → Option (System × Option Error)
give_back (p, failed e) conn s = some (record s { pool = p }, some e)
give_back (p, stored) conn s = some (record s { pool = p; borrowed = erase conn s.borrowed }, none)
give_back (p, handed w) conn s = elim (s.ready w) [
  | some _ ↦ none
  | none ↦ some (
    record s { pool = p; ready = update s.ready w (some conn); borrowed = erase conn s.borrowed },
    none,
  )
]

pub call_release : ℕ → System → Option (System × Option Error)
unfolding release give_back
call_release conn s = give_back (release (some conn) s.pool) conn s

-- Callers acquire at any time, and release only a connection that they hold, once.
pub data Step (s t : System) : Type 0 where
  acquires : call_acquire s ≡ some t → Step s t
  resumes : (w : ℕ) (ctx : Option CtxError) → resume w ctx s ≡ some t → Step s t
  releases :
      (conn : ℕ) (e : Option Error)
      → 0 < count conn s.borrowed
      → call_release conn s ≡ some (t, e)
      → Step s t

pub initial : Pool → System
initial p = record { pool = p; ready = λ _. none; calls = λ _. absent; fresh = 0; borrowed = [] }
