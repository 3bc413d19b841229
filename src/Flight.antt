-- ===== src/Flight.antt =====
-- examples/singleflight/group.go. A call is an address with its result, and its wait group is the
-- flag `finished`. The function that a caller passes is a parameter: what its run by a goroutine
-- returns, a value or an error.
mod Calls
mod Moves
mod Sharing
mod Tests
use go_concurrency_examples.Base.Dict.{lookup, insert, delete}
use go_concurrency_examples.Base.{
  Bool, List, Option, String, [], false, if◌then◌else◌, is_empty, is_some, none, not, some, suc,
  true, update, ℕ, ◌<◌, ◌∷◌, ◌≡◌,
}

pub data Error : Type 0 where
  uninitialized empty_key nil_func : Error

pub record Group (V : Type 0) : Type 0 where
  pub calls : List (String × ℕ)
  pub results : ℕ → Option V
  pub finished : ℕ → Bool
  pub waiters : ℕ → ℕ
  pub fresh : ℕ

-- Where a goroutine stands in `Do`: waiting for a call of another, running its function, about to
-- call `wg.Done` with the result stored, and about to delete the call.
pub data Pc : Type 0 where
  outside : Pc
  entering : String → Pc
  following : String → ℕ → Pc
  running : String → ℕ → Pc
  storing : String → ℕ → Pc
  deleting : String → ℕ → Pc

-- `none` is a nil or zero group, and `has_fn` whether a function is passed.
pub check : Bool → String → Bool → Option Error
check made key has_fn =
    if not made
    then some uninitialized
    else if is_empty key
    then some empty_key
    else if not has_fn
    then some nil_func
    else none

module _ {V : Type 0} where
  -- The first critical section of `Do`.
  pub join : Option ℕ → String → Group V → Pc × Group V
  join (some c) key g =
      (following key c, record g { waiters = update g.waiters c (suc (g.waiters c)) })
  join none key g = (
    running key g.fresh,
    record g {
      calls = insert key g.fresh g.calls;
      results = update g.results g.fresh none;
      finished = update g.finished g.fresh false;
      waiters = update g.waiters g.fresh 0;
      fresh = suc g.fresh;
    },
  )

-- `returned` is the last result that each goroutine's `Do` returned, and whether it was shared.
pub record System (V : Type 0) : Type 0 where
  pub group : Group V
  pub pc : ℕ → Pc
  pub jobs : ℕ → List String
  pub returned : ℕ → Option (Option V × Bool)

module _ {V : Type 0} (fn : ℕ → String → V) where
  pub next_do : ℕ → List String → System V → Option (System V)
  unfolding check
  next_do id [] s = none
  next_do id (key ∷ rest) s =
      let p = if is_some (check true key true) then outside else entering key in
      some (record s { pc = update s.pc id p; jobs = update s.jobs id rest })

  pub act : ℕ → Pc → System V → Option (System V)
  unfolding next_do join
  act id outside s = next_do id (s.jobs id) s
  act id (entering key) s =
      let (p, g) = join (lookup key s.group.calls) key s.group in
      some (record s { group = g; pc = update s.pc id p })
  act id (following key c) s =
      if s.group.finished c
      then some (record s {
        pc = update s.pc id outside;
        returned = update s.returned id (some (s.group.results c, true));
      })
      else none
  act id (running key c) s =
      let g = record (s.group) { results = update s.group.results c (some (fn id key)) } in
      some (record s { group = g; pc = update s.pc id (storing key c) })
  act id (storing key c) s =
      let g = record (s.group) { finished = update s.group.finished c true } in
      some (record s { group = g; pc = update s.pc id (deleting key c) })
  act id (deleting key c) s =
      let g = record (s.group) { calls = delete key s.group.calls } in
      some (record s {
        group = g;
        pc = update s.pc id outside;
        returned = update s.returned id (some (s.group.results c, false));
      })

pub data Step {V : Type 0} (fn : ℕ → String → V) (n : ℕ) (s t : System V) : Type 0 where
  goroutine : (id : ℕ) → id < n → act fn id (s.pc id) s ≡ some t → Step fn n s t

pub initial : {V : Type 0} → (ℕ → List String) → System V
initial jobs = record {
  group = record {
    calls = [];
    results = λ _. none;
    finished = λ _. false;
    waiters = λ _. 0;
    fresh = 0;
  };
  pc = λ _. outside;
  jobs = jobs;
  returned = λ _. none;
}
