-- ===== src/Batcher.antt =====
-- examples/batcher/batcher.go. One goroutine turns the input channel into batches. The input is the
-- list of items that the caller is going to send before it closes the channel.
mod Batches
mod Joined
mod Tests
use go_concurrency_examples.Base.Int.{ℤ, pos, leb_ℤ}
use go_concurrency_examples.Base.{
  Bool, Context, CtxError, List, Option, [], false, if◌then◌else◌, is_some, leb, length, none, not,
  some, ℕ, ◌++◌, ◌==◌, ◌||◌, ◌∷◌, ◌≡◌,
}

pub data Error : Type 0 where
  nil_input : Error
  size_not_positive delay_not_positive : ℤ → Error

-- The arguments that `Batch` refuses.
pub check : Bool → ℤ → ℤ → Option Error
check has_input max_size max_delay =
    if not has_input
    then some nil_input
    else if leb_ℤ max_size (pos 0)
    then some (size_not_positive max_size)
    else if leb_ℤ max_delay (pos 0)
    then some (delay_not_positive max_delay)
    else none

-- Where `run` goes on after `flush`: in the loop, or at its end since the input was closed.
pub data Then : Type 0 where
  loops returns : Then

-- `run` is in the select of its loop, in that of `flush` with a copy of the batch, or has returned
-- and closed its output.
pub data Pc (A : Type 0) : Type 0 where
  selecting : Pc A
  flushing : List A → Then → Pc A
  ended : Pc A

-- `timer` is whether `timerC` is not nil, so that the timer runs or has fired. `emitted` are the
-- batches that the consumer has received.
pub record Batcher (A : Type 0) : Type 0 where
  pub input : List A
  pub batch : List A
  pub timer : Bool
  pub pc : Pc A
  pub ctx : Context
  pub emitted : List (List A)

-- The ready case that a select takes.
pub data Choice : Type 0 where
  done receive fire send : Choice

module _ {A : Type 0} where
  -- `flush` up to its select: the batch is copied and emptied, and the timer stopped.
  pub flush : Then → Batcher A → List A → Batcher A
  flush next_step b [] = record b { pc = elim next_step [ loops ↦ selecting | returns ↦ ended ] }
  flush next_step b (x ∷ xs) = record b {
    batch = [];
    timer = false;
    pc = flushing (x ∷ xs) next_step;
  }

  -- The case of a received item, or of the closed input.
  pub take_item : ℕ → List A → Batcher A → Batcher A
  unfolding flush
  take_item max_size [] b = flush returns b b.batch
  take_item max_size (item ∷ rest) b =
      let grown = b.batch ++ item ∷ [] in
      let c = record b { input = rest; batch = grown; timer = b.timer || (length grown == 1) } in
      if leb max_size (length grown) then flush loops c grown else c

  pub act : ℕ → Pc A → Choice → Batcher A → Option (Batcher A)
  unfolding take_item flush
  act max_size selecting done b = if is_some b.ctx then some (record b { pc = ended }) else none
  act max_size selecting receive b = some (take_item max_size b.input b)
  act max_size selecting fire b =
      if b.timer then some (flush loops (record b { timer = false }) b.batch) else none
  act max_size selecting send b = none
  act max_size (flushing items next_step) send b = some (record b {
    pc = elim next_step [ loops ↦ selecting | returns ↦ ended ];
    emitted = b.emitted ++ items ∷ [];
  })
  act max_size (flushing items next_step) done b =
      if is_some b.ctx then some (record b { pc = ended }) else none
  act max_size (flushing items next_step) receive b = none
  act max_size (flushing items next_step) fire b = none
  act max_size ended c b = none

pub data Step {A : Type 0} (max_size : ℕ) (b c : Batcher A) : Type 0 where
  goroutine : (x : Choice) → act max_size b.pc x b ≡ some c → Step max_size b c
  cancel : (e : CtxError) → b.ctx ≡ none → record b { ctx = some e } ≡ c → Step max_size b c

pub initial : {A : Type 0} → List A → Batcher A
initial input = record {
  input = input;
  batch = [];
  timer = false;
  pc = selecting;
  ctx = none;
  emitted = [];
}
