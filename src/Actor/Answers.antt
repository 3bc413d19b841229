-- ===== src/Actor/Answers.antt =====
-- The invariant of examples/actor/counter.go: how the count, the calls under way and the answers follow
-- from the operations that `run` applied.
use go_concurrency_examples.Base.{
  Bool, List, [], none, some, true, ℕ, ◌<◌, ◌∷◌, ◌≡◌, ◌⊎◌, Option, if◌then◌else◌, inl, inr, refl,
  ◌++◌, ◌==◌,
}
use go_concurrency_examples.Actor.{
  Actor, Call, Entry, Operation, Run, apply, awaiting, closing, entry, idle, offering, serving,
  is_ended,
}
use go_concurrency_examples.Base.Int.{ℤ}

-- The count that the operations of a log, the latest first, lead to, each from the count before it.
abbrev pub IsHistory : ℤ → List Entry → ℤ → Type 0
IsHistory initial [] current = current ≡ initial
IsHistory initial (entry g op before ∷ log) current =
    (current ≡ apply op before) × IsHistory initial log before

-- The log has the operation, with that result.
abbrev pub IsLogged : Operation → ℤ → List Entry → Type 0
IsLogged op v [] = ⊥
IsLogged op v (entry g done before ∷ log) =
    ((done ≡ op) × (v ≡ apply op before)) ⊎ IsLogged op v log

-- What holds of a call under way.
abbrev pub IsFine : Run → Bool → List Entry → ℕ → Call → Type 0
IsFine r stop log g idle = Unit {0}
IsFine r stop log g (offering op) = Unit {0}
IsFine r stop log g (awaiting op none) = r ≡ serving g op
IsFine r stop log g (awaiting op (some v)) = IsLogged op v log
IsFine r stop log g closing = stop ≡ true

-- The operations of one caller in the log, each with the count after it.
abbrev pub applied_for : ℕ → List Entry → List (Operation × ℤ)
applied_for g [] = []
applied_for g (entry k op before ∷ log) =
    if k == g then (op, apply op before) ∷ applied_for g log else applied_for g log

-- The returns of calls answer the operations one by one: each is the count after its operation, or
-- ErrClosed once `run` has ended.
abbrev pub Matches : Bool → List (Operation × Option ℤ) → List (Operation × ℤ) → Type 0
Matches over_now [] [] = Unit {0}
Matches over_now [] (done ∷ rest) = ⊥
Matches over_now (r ∷ rs) [] = ⊥
Matches over_now ((op, r) ∷ rs) ((done, v) ∷ rest) =
    (op ≡ done) × ((r ≡ some v) ⊎ ((r ≡ none) × (over_now ≡ true))) × Matches over_now rs rest

-- The reply that a call has and has not returned yet, as its return.
abbrev pub pending : Call → List (Operation × Option ℤ)
pending (awaiting op (some v)) = (op, some v) ∷ []
pending (awaiting op none) = []
pending idle = []
pending (offering op) = []
pending closing = []

pub record Inv (initial : ℤ) (n : ℕ) (a : Actor) : Type 0 where
  pub history : IsHistory initial a.log a.current
  pub fine : (g : ℕ) → IsFine a.run a.stop a.log g (a.calls g)
  pub served :
      (g : ℕ) (op : Operation) → a.run ≡ serving g op → (g < n) × (a.calls g ≡ awaiting op none)
  pub answered :
      (g : ℕ) → Matches (is_ended a.run) (pending (a.calls g) ++ a.returns g) (applied_for g a.log)

-- ErrClosed stays an answer.
pub Matches-mono :
    (b c : Bool) (rs : List (Operation × Option ℤ)) (xs : List (Operation × ℤ))
    → (b ≡ true → c ≡ true)
    → Matches b rs xs
    → Matches c rs xs
Matches-mono b c [] [] keeps h = tt
Matches-mono b c [] (x ∷ xs) keeps h = h
Matches-mono b c (r ∷ rs) [] keeps h = h
Matches-mono b c ((op, r) ∷ rs) ((done, v) ∷ xs) keeps (same, inl is, more) =
    (same, inl is, Matches-mono b c rs xs keeps more)
Matches-mono b c ((op, r) ∷ rs) ((done, v) ∷ xs) keeps (same, inr (lost, over_now), more) =
    (same, inr (lost, keeps over_now), Matches-mono b c rs xs keeps more)

-- ErrClosed in place of the latest value, once `run` has ended.
pub Matches-lose :
    (b : Bool) (op : Operation) (r : Option ℤ) (rs : List (Operation × Option ℤ))
    (xs : List (Operation × ℤ))
    → b ≡ true
    → Matches b ((op, r) ∷ rs) xs
    → Matches b ((op, none) ∷ rs) xs
Matches-lose b op r rs [] over_now h = h
Matches-lose b op r rs ((done, v) ∷ xs) over_now (same, old, more) =
    (same, inr (refl, over_now), more)

-- A call stays fine when `run` is still with its command, and `stop` and the log only grow.
pub IsFine-mono :
    (r r_then : Run) (stop stop_then : Bool) (log log_then : List Entry) (g : ℕ) (c : Call)
    → ((op : Operation) → r ≡ serving g op → r_then ≡ serving g op)
    → (stop ≡ true → stop_then ≡ true)
    → ((op : Operation) (v : ℤ) → IsLogged op v log → IsLogged op v log_then)
    → IsFine r stop log g c
    → IsFine r_then stop_then log_then g c
IsFine-mono r r_then stop stop_then log log_then g idle keeps stays grows h = tt
IsFine-mono r r_then stop stop_then log log_then g (offering op) keeps stays grows h = tt
IsFine-mono r r_then stop stop_then log log_then g (awaiting op none) keeps stays grows h =
    keeps op h
IsFine-mono r r_then stop stop_then log log_then g (awaiting op (some v)) keeps stays grows h =
    grows op v h
IsFine-mono r r_then stop stop_then log log_then g closing keeps stays grows h = stays h
