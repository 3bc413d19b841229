-- ===== src/Loader.antt =====
-- examples/lazyinit/loader.go, for a loader that New returned. The load function is a parameter: what
-- its runs return, in the order of the runs.
mod Runs
mod Tests
use go_concurrency_examples.Base.{
  List, Option, [], inl, inr, none, some, suc, update, ℕ, ◌<◌, ◌∷◌, ◌≡◌, ◌⊎◌,
}

pub data Once : Type 0 where
  fresh : Once
  started : Once
  over : Once

-- A call of Get: in the function of `once.Do`, and after `once.Do`.
pub data Call : Type 0 where
  idle : Call
  loading : Call
  returning : Call

-- For the statements, `runs` counts the runs of the load function, and `returned` is what calls of Get
-- returned.
pub record Loader (V E : Type 0) : Type 0 where
  pub once : Once
  pub value : V
  pub err : Option E
  pub calls : ℕ → Call
  pub runs : ℕ
  pub returned : List (V × Option E)

pub data Choice : Type 0 where
  get : ℕ → Choice
  turn : ℕ → Choice

pub data Error : Type 0 where
  nil_load : Error

module _ {V E : Type 0} where
  pub new_loader : V → Loader V E
  new_loader zero_value = record {
    once = fresh;
    value = zero_value;
    err = none;
    calls = λ _. idle;
    runs = 0;
    returned = [];
  }

  -- New, with the zero value of the type of the value.
  pub new : V → Option (ℕ → V × Option E) → Loader V E ⊎ Error
  unfolding new_loader
  new zero_value none = inr nil_load
  new zero_value (some load) = inl (new_loader zero_value)

  -- `once.Do` of a call of Get: it runs its function, blocks while another call runs it, or returns.
  pub once_do : ℕ → Once → Loader V E → Option (Loader V E)
  once_do g fresh l = some (record l { once = started; calls = update l.calls g loading })
  once_do g started l = none
  once_do g over l = some (record l { calls = update l.calls g returning })

  pub call_get : ℕ → Call → Loader V E → Option (Loader V E)
  unfolding once_do
  call_get g idle l = once_do g l.once l
  call_get g loading l = none
  call_get g returning l = none

  -- The load function returns, and the call returns.
  pub go_on : (ℕ → V × Option E) → ℕ → Call → Loader V E → Option (Loader V E)
  go_on load g idle l = none
  go_on load g loading l = some (record l {
    once = over;
    value = (load l.runs).0;
    err = (load l.runs).1;
    calls = update l.calls g returning;
    runs = suc l.runs;
  })
  go_on load g returning l =
      some (record l { calls = update l.calls g idle; returned = (l.value, l.err) ∷ l.returned })

  pub act : (ℕ → V × Option E) → Choice → Loader V E → Option (Loader V E)
  unfolding call_get go_on
  act load (get g) l = call_get g (l.calls g) l
  act load (turn g) l = go_on load g (l.calls g) l

abbrev pub caller : Choice → ℕ
caller (get g) = g
caller (turn g) = g

pub data Step {V E : Type 0} (load : ℕ → V × Option E) (n : ℕ) (l m : Loader V E) : Type 0 where
  goroutine : (x : Choice) → caller x < n → act load x l ≡ some m → Step load n l m
