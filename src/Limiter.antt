-- ===== src/Limiter.antt =====
-- examples/ratelimiter/limiter.go, for a limiter that New returned, with its goroutine `refill` and any
-- number of goroutines that call Wait, TryAllow and Stop. That the ticker ticks is a step that the
-- scheduler may choose at any time.
mod Supply
mod Rate
mod Waits
mod Tests
use go_concurrency_examples.Base.{
  Bool, Context, CtxError, Option, false, if◌then◌else◌, inl, inr, is_some, ltb, none, some, suc,
  true, update, ℕ, ◌&&◌, ◌-◌, ◌<◌, ◌==◌, ◌≡◌, ◌⊎◌,
}
use go_concurrency_examples.Base.Int.{leb_ℤ, pos, pos_part, ℤ}

-- `refill`: in its select, after a tick and before the inner select, and after its return.
pub data Refill : Type 0 where
  selecting : Refill
  adding : Refill
  ended : Refill

-- A call. Wait: before `isStopped`, in its select, and with a token before the second `isStopped`.
-- TryAllow: the same. Stop: before the close of `stopped`, and before that of `stop`.
pub data Call : Type 0 where
  idle : Call
  wait_check wait_select wait_got : Call
  try_check try_select try_got : Call
  stop_first stop_last : Call

pub data Once : Type 0 where
  fresh : Once
  started : Once
  over : Once

-- `tokens` is the length of that channel, `stop` and `stopped` whether those are closed. For the
-- statements, `granted` counts the calls that returned with a permit, `dropped` the tokens that were
-- taken by calls that returned without one, `added` the tokens of `refill` and `ticks` the ticks that
-- it handled.
pub record Limiter : Type 0 where
  pub tokens : ℕ
  pub stop : Bool
  pub stopped : Bool
  pub once : Once
  pub done : Bool
  pub refiller : Refill
  pub calls : ℕ → Call
  pub ctxs : ℕ → Context
  pub granted : ℕ
  pub dropped : ℕ
  pub added : ℕ
  pub ticks : ℕ

pub data Choice : Type 0 where
  start_wait : ℕ → Context → Choice
  start_try start_stop turn on_ctx on_stopped take : ℕ → Choice
  tick refill halt : Choice

pub data Argument : Type 0 where
  interval_not_positive : ℤ → Argument
  burst_not_positive : ℤ → Argument

pub new_limiter : ℕ → Limiter
new_limiter burst = record {
  tokens = burst;
  stop = false;
  stopped = false;
  once = fresh;
  done = false;
  refiller = selecting;
  calls = λ _. idle;
  ctxs = λ _. none;
  granted = 0;
  dropped = 0;
  added = 0;
  ticks = 0;
}

-- New.
pub new : ℤ → ℤ → Limiter ⊎ Argument
unfolding new_limiter
new interval burst =
    if leb_ℤ interval (pos 0)
    then inr (interval_not_positive interval)
    else if leb_ℤ burst (pos 0)
    then inr (burst_not_positive burst)
    else inl (new_limiter (pos_part burst))

pub go_to : ℕ → Call → Limiter → Limiter
go_to g c l = record l { calls = update l.calls g c }

-- The second `isStopped` of Wait and of TryAllow, and the return.
pub settle : ℕ → Limiter → Limiter
unfolding go_to
settle g l =
    if l.done
    then go_to g idle (record l { dropped = suc l.dropped })
    else go_to g idle (record l { granted = suc l.granted })

-- The next step of a call that has only one.
pub act_turn : ℕ → Call → Limiter → Option Limiter
unfolding go_to settle
act_turn g idle l = none
act_turn g wait_check l = some (go_to g (if l.done then idle else wait_select) l)
act_turn g wait_select l = none
act_turn g wait_got l = some (settle g l)
act_turn g try_check l = some (go_to g (if l.done then idle else try_select) l)
act_turn g try_select l =
    if l.tokens == 0
    then some (go_to g idle l)
    else some (go_to g try_got (record l { tokens = l.tokens - 1 }))
act_turn g try_got l = some (settle g l)
act_turn g stop_first l = some (go_to g stop_last (record l { stopped = true }))
act_turn g stop_last l = some (go_to g idle (record l { stop = true; once = over }))

abbrev pub is_selecting : Call → Bool
is_selecting wait_select = true
is_selecting idle = false
is_selecting wait_check = false
is_selecting wait_got = false
is_selecting try_check = false
is_selecting try_select = false
is_selecting try_got = false
is_selecting stop_first = false
is_selecting stop_last = false

abbrev pub is_idle : Call → Bool
is_idle idle = true
is_idle wait_check = false
is_idle wait_select = false
is_idle wait_got = false
is_idle try_check = false
is_idle try_select = false
is_idle try_got = false
is_idle stop_first = false
is_idle stop_last = false

-- Stop, whose `once.Do` blocks while another call runs its function, which sets `done` first.
pub call_stop : ℕ → Once → Limiter → Option Limiter
unfolding go_to
call_stop g fresh l = some (go_to g stop_first (record l { once = started; done = true }))
call_stop g started l = none
call_stop g over l = some l

-- The inner select of `refill`.
pub add_token : ℕ → Refill → Limiter → Option Limiter
add_token burst adding l =
    if ltb l.tokens burst
    then some (record l {
      refiller = selecting;
      tokens = suc l.tokens;
      added = suc l.added;
      ticks = suc l.ticks;
    })
    else some (record l { refiller = selecting; ticks = suc l.ticks })
add_token burst selecting l = none
add_token burst ended l = none

-- The two cases of the outer one.
pub hear_tick : Refill → Limiter → Option Limiter
hear_tick selecting l = some (record l { refiller = adding })
hear_tick adding l = none
hear_tick ended l = none

pub end_refill : Refill → Limiter → Option Limiter
end_refill selecting l = if l.stop then some (record l { refiller = ended }) else none
end_refill adding l = none
end_refill ended l = none

pub act : ℕ → Choice → Limiter → Option Limiter
unfolding go_to act_turn call_stop add_token hear_tick end_refill
act burst (start_wait g ctx) l =
    if is_idle (l.calls g)
    then some (go_to g wait_check (record l { ctxs = update l.ctxs g ctx }))
    else none
act burst (start_try g) l = if is_idle (l.calls g) then some (go_to g try_check l) else none
act burst (start_stop g) l = if is_idle (l.calls g) then call_stop g l.once l else none
act burst (turn g) l = act_turn g (l.calls g) l
act burst (on_ctx g) l =
    if is_selecting (l.calls g) && is_some (l.ctxs g) then some (go_to g idle l) else none
act burst (on_stopped g) l =
    if is_selecting (l.calls g) && l.stopped then some (go_to g idle l) else none
act burst (take g) l =
    if is_selecting (l.calls g) && ltb 0 l.tokens
    then some (go_to g wait_got (record l { tokens = l.tokens - 1 }))
    else none
act burst tick l = hear_tick l.refiller l
act burst refill l = add_token burst l.refiller l
act burst halt l = end_refill l.refiller l

abbrev pub IsChoice : ℕ → Choice → Type 0
IsChoice n (start_wait g ctx) = g < n
IsChoice n (start_try g) = g < n
IsChoice n (start_stop g) = g < n
IsChoice n (turn g) = g < n
IsChoice n (on_ctx g) = g < n
IsChoice n (on_stopped g) = g < n
IsChoice n (take g) = g < n
IsChoice n tick = Unit {0}
IsChoice n refill = Unit {0}
IsChoice n halt = Unit {0}

pub data Step (n burst : ℕ) (l m : Limiter) : Type 0 where
  goroutine : (x : Choice) → IsChoice n x → act burst x l ≡ some m → Step n burst l m
  cancel :
      (g : ℕ) (e : CtxError)
      → l.ctxs g ≡ none
      → record l { ctxs = update l.ctxs g (some e) } ≡ m
      → Step n burst l m
