-- ===== src/Base/Steps.antt =====
-- Executions: finite sequences of steps of a relation, and invariants along them.
use Prim.Native.Nat.{ℕ, suc, ◌+◌, ◌≤◌, ◌<◌}
use mathlib.Core.Path.{◌≡◌, refl}
use mathlib.Core.Option.{Option, none, some}
use mathlib.Core.List.{List, [], ◌∷◌}
use native.Mathlib.Omega.{arith}

pub data Reach {S : Type 0} (Step : S → S → Type 0) (s : S) : S → Type 0 where
  here : Reach Step s s
  next : {t u : S} → Reach Step s t → Step t u → Reach Step s u

-- Where a schedule has led.
pub record Ran {S : Type 0} (Step : S → S → Type 0) (s : S) : Type 0 where
  pub last : S
  pub reach : Reach Step s last

module _ {S : Type 0} {Step : S → S → Type 0} where
  -- The number of steps.
  pub steps : {s t : S} → Reach Step s t → ℕ
  steps here = 0
  steps (next r st) = suc (steps r)

  -- What holds at the start and is kept by every step holds after any execution.
  pub Reach-inv {ℓ} :
      (P : S → Type ℓ) → ((t u : S) → Step t u → P t → P u) → {s t : S} → P s → Reach Step s t → P t
  Reach-inv P keep h here = h
  Reach-inv P keep h (next r st) = keep _ _ st (Reach-inv P keep h r)

  -- If every step lowers a measure, under an invariant, an execution is no longer than the
  -- measure at its start.
  pub steps-le {ℓ} :
      (P : S → Type ℓ) (m : S → ℕ)
      → ((t u : S) → Step t u → P t → P u)
      → ((t u : S) → Step t u → P t → m u < m t)
      → {s t : S} → P s
      → (r : Reach Step s t) → steps r + m t ≤ m s
  unfolding steps
  steps-le P m keep falls h here = omega arith
  steps-le P m keep falls h (next r st) =
      omega (arith, steps-le P m keep falls h r, falls _ _ st (Reach-inv P keep h r))

  -- A step that is blocked is passed over.
  abbrev pub extend :
      {s t : S} → Reach Step s t → (o : Option S) → ((u : S) → o ≡ some u → Step t u) → Ran Step s
  extend {s} {t} r none sound = record { last = t; reach = r }
  extend r (some u) sound = record { last = u; reach = next r (sound u refl) }

  -- Runs an executable step function on a list of the scheduler's choices.
  unfoldable pub execute :
      {C : Type 0} (step : C → S → Option S)
      → ((c : C) (t u : S) → step c t ≡ some u → Step t u)
      → {s : S} → Ran Step s
      → List C
      → Ran Step s
  execute step sound r [] = r
  execute step sound r (c ∷ cs) =
      execute step sound (extend r.reach (step c r.last) (λ u. sound c r.last u)) cs
