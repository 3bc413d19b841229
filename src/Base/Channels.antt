-- ===== src/Base/Channels.antt =====
-- What the examples use of `context.Context` and of `select`: a context is done or not, and once
-- it is done it has an error; a `select` chooses among the cases that are ready.
use mathlib.Core.Bool.{Bool, not, ◌&&◌}
use mathlib.Core.Option.{Option}
use go_concurrency_examples.Base.Tests.{if◌then◌else◌}

-- `context.Canceled` and `context.DeadlineExceeded`.
pub data CtxError : Type 0 where
  canceled deadline_exceeded : CtxError

-- `none` is a context that is not done; `some e` one that is done with `ctx.Err() == e`.
abbrev pub Context : Type 0
Context = Option CtxError

pub data Branch : Type 0 where
  first second blocked : Branch

-- A `select` with two cases: which one is taken, given which are ready. Where both are ready Go
-- chooses either, which the scheduler's choice `prefer_second` stands for.
abbrev pub select : Bool → Bool → Bool → Branch
select ready_first ready_second prefer_second =
    if ready_first && not (ready_second && prefer_second)
    then first
    else (if ready_second then second else blocked)
