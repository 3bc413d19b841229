-- ===== src/Actor.antt =====
-- examples/actor/counter.go, for a counter that NewCounter returned: its goroutine `run` and the calls
-- of Add, Value and Close.
mod Answers
mod Turns
mod Calls
mod Replies
mod Tests
use go_concurrency_examples.Base.{
  Bool, List, Option, [], false, if◌then◌else◌, none, some, true, update, ℕ, ◌<◌, ◌∷◌, ◌≡◌,
}
use go_concurrency_examples.Base.Int.{add64, ℤ}

-- The field `op` of a command, with its delta.
pub data Operation : Type 0 where
  add : ℤ → Operation
  value : Operation

-- `run`: in its select, with the command of a call, before its deferred close of `done`, and after it.
pub data Run : Type 0 where
  receiving : Run
  serving : ℕ → Operation → Run
  stopping : Run
  ended : Run

-- A call: in the first select of `call`, in the second one, with what is in its reply channel, or in
-- Close before the receive from `done`.
pub data Call : Type 0 where
  idle : Call
  offering : Operation → Call
  awaiting : Operation → Option ℤ → Call
  closing : Call

pub data Once : Type 0 where
  fresh : Once
  started : Once
  over : Once

-- An operation that `run` applied: its caller, and the count before it.
pub data Entry : Type 0 where
  entry : ℕ → Operation → ℤ → Entry

-- `current` is the local of `run`, and `stop` whether that channel is closed; `done` is closed when
-- `run` has ended. For the statements, `log` is what `run` applied, the latest first, and `returns`
-- what the calls of each goroutine returned from the second select, the latest first: the value, or
-- `none` for ErrClosed.
pub record Actor : Type 0 where
  pub current : ℤ
  pub run : Run
  pub stop : Bool
  pub once : Once
  pub calls : ℕ → Call
  pub log : List Entry
  pub returns : ℕ → List (Operation × Option ℤ)

pub data Choice : Type 0 where
  call : ℕ → Operation → Choice
  close hand reject take lose end_close : ℕ → Choice
  run_turn halt : Choice

-- NewCounter.
pub new_counter : ℤ → Actor
new_counter initial = record {
  current = initial;
  run = receiving;
  stop = false;
  once = fresh;
  calls = λ _. idle;
  log = [];
  returns = λ _. [];
}

-- The switch of `run`: the count after an operation, which is also the reply.
pub apply : Operation → ℤ → ℤ
apply (add delta) current = add64 current delta
apply value current = current

-- The send to the reply channel of a call.
pub reply_to : ℤ → Call → Call
reply_to v (awaiting op none) = awaiting op (some v)
reply_to v (awaiting op (some w)) = awaiting op (some w)
reply_to v idle = idle
reply_to v (offering op) = offering op
reply_to v closing = closing

-- The goroutine `run` goes on after a receive, or closes `done`.
pub turn : Run → Actor → Option Actor
unfolding apply reply_to
turn receiving a = none
turn (serving g op) a =
    let v = apply op a.current in
    some (record a {
      current = v;
      run = receiving;
      calls = update a.calls g (reply_to v (a.calls g));
      log = entry g op a.current ∷ a.log;
    })
turn stopping a = some (record a { run = ended })
turn ended a = none

-- The case `<-c.stop` of the select of `run`.
pub stop_run : Run → Actor → Option Actor
stop_run receiving a = if a.stop then some (record a { run = stopping }) else none
stop_run (serving g op) a = none
stop_run stopping a = none
stop_run ended a = none

-- Add and Value, up to the first select.
pub call_operation : ℕ → Operation → Call → Actor → Option Actor
call_operation g op idle a = some (record a { calls = update a.calls g (offering op) })
call_operation g op _ a = none

abbrev pub is_receiving : Run → Bool
is_receiving receiving = true
is_receiving (serving g op) = false
is_receiving stopping = false
is_receiving ended = false

abbrev pub is_ended : Run → Bool
is_ended receiving = false
is_ended (serving g op) = false
is_ended stopping = false
is_ended ended = true

-- The case `c.commands <- cmd` of the first select, when `run` is at its receive.
pub hand_command : ℕ → Call → Actor → Option Actor
hand_command g (offering op) a =
    if is_receiving a.run
    then some (record a { run = serving g op; calls = update a.calls g (awaiting op none) })
    else none
hand_command g _ a = none

-- The case `<-c.done` of the first select.
pub reject_call : ℕ → Call → Actor → Option Actor
reject_call g (offering op) a =
    if is_ended a.run then some (record a { calls = update a.calls g idle }) else none
reject_call g _ a = none

-- The cases of the second select.
pub take_reply : ℕ → Call → Actor → Option Actor
take_reply g (awaiting op (some v)) a = some (record a {
  calls = update a.calls g idle;
  returns = update a.returns g ((op, some v) ∷ a.returns g);
})
take_reply g _ a = none

pub lose_reply : ℕ → Call → Actor → Option Actor
lose_reply g (awaiting op r) a =
    if is_ended a.run
    then some (record a {
      calls = update a.calls g idle;
      returns = update a.returns g ((op, none) ∷ a.returns g);
    })
    else none
lose_reply g _ a = none

-- `once.Do` of Close, which blocks while another call runs its function.
pub once_do : ℕ → Once → Actor → Option Actor
once_do g fresh a =
    some (record a { stop = true; once = started; calls = update a.calls g closing })
once_do g started a = none
once_do g over a = some a

pub start_close : ℕ → Call → Actor → Option Actor
unfolding once_do
start_close g idle a = once_do g a.once a
start_close g _ a = none

pub finish_close : ℕ → Call → Actor → Option Actor
finish_close g closing a =
    if is_ended a.run then some (record a { once = over; calls = update a.calls g idle }) else none
finish_close g _ a = none

pub act : Choice → Actor → Option Actor
unfolding turn stop_run call_operation hand_command reject_call take_reply lose_reply start_close
    finish_close
act (call g op) a = call_operation g op (a.calls g) a
act (close g) a = start_close g (a.calls g) a
act (hand g) a = hand_command g (a.calls g) a
act (reject g) a = reject_call g (a.calls g) a
act (take g) a = take_reply g (a.calls g) a
act (lose g) a = lose_reply g (a.calls g) a
act (end_close g) a = finish_close g (a.calls g) a
act run_turn a = turn a.run a
act halt a = stop_run a.run a

abbrev pub IsChoice : ℕ → Choice → Type 0
IsChoice n (call g op) = g < n
IsChoice n (close g) = g < n
IsChoice n (hand g) = g < n
IsChoice n (reject g) = g < n
IsChoice n (take g) = g < n
IsChoice n (lose g) = g < n
IsChoice n (end_close g) = g < n
IsChoice n run_turn = Unit {0}
IsChoice n halt = Unit {0}

pub data Step (n : ℕ) (a b : Actor) : Type 0 where
  goroutine : (x : Choice) → IsChoice n x → act x a ≡ some b → Step n a b
