-- ===== src/Loader/Runs.antt =====
-- How often examples/lazyinit/loader.go loads, and what it returns.
use mathlib.Core.Path.{subst}
use go_concurrency_examples.Base.{
  All, Option, arith, some, sum_below, sum_below-update, update, ℕ, ◌+◌, ◌<◌, ◌≡◌, Reach, Reach-inv,
  ap, le-sum_below, refl, suc, sym, ◌∷◌, ◌≤◌, sum_below-zero,
}
use go_concurrency_examples.Loader.{
  Call, Loader, Once, fresh, idle, loading, once_do, over, returning, started, Step, act, call_get,
  get, go_on, goroutine, turn, new_loader,
}

abbrev pub is_loading : Call → ℕ
is_loading loading = 1
is_loading idle = 0
is_loading returning = 0

abbrev pub is_returning : Call → ℕ
is_returning returning = 1
is_returning idle = 0
is_returning loading = 0

module _ {V E : Type 0} (load : ℕ → V × Option E) where
  -- What holds when `once` is fresh, started or over.
  abbrev pub IsPhase : ℕ → Loader V E → Once → Type 0
  IsPhase n l fresh =
      (l.runs ≡ 0)
      × (sum_below (λ k. is_loading (l.calls k)) n ≡ 0)
      × (sum_below (λ k. is_returning (l.calls k)) n ≡ 0)
  IsPhase n l started =
      (l.runs ≡ 0)
      × (sum_below (λ k. is_loading (l.calls k)) n ≡ 1)
      × (sum_below (λ k. is_returning (l.calls k)) n ≡ 0)
  IsPhase n l over =
      (l.runs ≡ 1)
      × (sum_below (λ k. is_loading (l.calls k)) n ≡ 0)
      × (l.value ≡ (load 0).0)
      × (l.err ≡ (load 0).1)

  pub record Inv (n : ℕ) (l : Loader V E) : Type 0 where
    pub phase : IsPhase n l l.once
    pub same : All (λ x. x ≡ load 0) l.returned

  module _ {n g : ℕ} {l : Loader V E} (inv : Inv n l) (lt : g < n) where
    loads :
        (c : Call)
        → sum_below (λ k. is_loading (update l.calls g c k)) n + is_loading (l.calls g)
          ≡ sum_below (λ k. is_loading (l.calls k)) n + is_loading c
    loads c = sum_below-update (λ k. is_loading) n l.calls g c lt

    returns :
        (c : Call)
        → sum_below (λ k. is_returning (update l.calls g c k)) n + is_returning (l.calls g)
          ≡ sum_below (λ k. is_returning (l.calls k)) n + is_returning c
    returns c = sum_below-update (λ k. is_returning) n l.calls g c lt

    fresh-Inv :
        l.runs ≡ 0
        → sum_below (λ k. is_loading (l.calls k)) n ≡ 0
        → sum_below (λ k. is_returning (l.calls k)) n ≡ 0
        → l.calls g ≡ idle
        → Inv n (record l { once = started; calls = update l.calls g loading })
    fresh-Inv zero_runs none_loads none_returns is = record {
      phase = (
        zero_runs,
        omega (arith, loads loading, none_loads, ap is_loading is),
        omega (arith, returns loading, none_returns, ap is_returning is),
      );
      same = inv.same;
    }

    over-Inv :
        l.once ≡ over
        → IsPhase n l over
        → l.calls g ≡ idle
        → Inv n (record l { calls = update l.calls g returning })
    over-Inv at (one, none_loads, is_value, is_err) is = record {
      phase =
          subst (IsPhase n (record l { calls = update l.calls g returning })) (sym at)
            (one, omega (arith, loads returning, none_loads, ap is_loading is), is_value, is_err);
      same = inv.same;
    }

    once_do-Inv :
        {m : Loader V E} (o : Once)
        → l.once ≡ o
        → IsPhase n l o
        → l.calls g ≡ idle
        → once_do g o l ≡ some m
        → Inv n m
    unfolding once_do
    once_do-Inv fresh at (zero_runs, none_loads, none_returns) is e =
        subst (Inv n) (ground (arith, e)) (fresh-Inv zero_runs none_loads none_returns is)
    once_do-Inv started at h is e = ground (arith, e)
    once_do-Inv over at h is e = subst (Inv n) (ground (arith, e)) (over-Inv at h is)

    loaded-Inv :
        (o : Once)
        → IsPhase n l o
        → l.calls g ≡ loading
        → Inv n (record l {
          once = over;
          value = (load l.runs).0;
          err = (load l.runs).1;
          calls = update l.calls g returning;
          runs = suc l.runs;
        })
    loaded-Inv fresh (zero_runs, none_loads, none_returns) is = absurd (
        omega
          (arith, none_loads, le-sum_below (λ k. is_loading (l.calls k)) n g lt, ap is_loading is))
    loaded-Inv started (zero_runs, one_loads, none_returns) is = record {
      phase = (
        omega (arith, zero_runs),
        omega (arith, loads returning, one_loads, ap is_loading is),
        ap (λ k. (load k).0) zero_runs,
        ap (λ k. (load k).1) zero_runs,
      );
      same = inv.same;
    }
    loaded-Inv over (one, none_loads, is_value, is_err) is = absurd (
        omega
          (arith, none_loads, le-sum_below (λ k. is_loading (l.calls k)) n g lt, ap is_loading is))

    -- `once` is over while a call is after it, and the value is that of the first run.
    returning_over :
        (o : Once)
        → IsPhase n l o
        → l.once ≡ o
        → l.calls g ≡ returning
        → (l.once ≡ over) × (l.value ≡ (load 0).0) × (l.err ≡ (load 0).1)
    returning_over fresh (zero_runs, none_loads, none_returns) at is = absurd (
        omega (
          arith,
          none_returns,
          le-sum_below (λ k. is_returning (l.calls k)) n g lt,
          ap is_returning is,
        ))
    returning_over started (zero_runs, one_loads, none_returns) at is = absurd (
        omega (
          arith,
          none_returns,
          le-sum_below (λ k. is_returning (l.calls k)) n g lt,
          ap is_returning is,
        ))
    returning_over over (one, none_loads, is_value, is_err) at is = (at, is_value, is_err)

    returned-Inv :
        l.calls g ≡ returning
        → Inv n
            (record l { calls = update l.calls g idle; returned = (l.value, l.err) ∷ l.returned })
    returned-Inv is =
        let (at, same_value, same_err) = returning_over l.once inv.phase refl is in
        let (one, none_loads, is_value, is_err) : IsPhase n l over =
          subst (IsPhase n l) at inv.phase in
        record {
          phase =
              subst
                (IsPhase n (record l {
                  calls = update l.calls g idle;
                  returned = (l.value, l.err) ∷ l.returned;
                }))
                (sym at)
                (one, omega (arith, loads idle, none_loads, ap is_loading is), is_value, is_err);
          same = (cc, inv.same);
        }

    turn-Inv : {m : Loader V E} (c : Call) → l.calls g ≡ c → go_on load g c l ≡ some m → Inv n m
    unfolding go_on
    turn-Inv idle is e = ground (arith, e)
    turn-Inv loading is e = subst (Inv n) (ground (arith, e)) (loaded-Inv l.once inv.phase is)
    turn-Inv returning is e = subst (Inv n) (ground (arith, e)) (returned-Inv is)

    get-Inv : {m : Loader V E} (c : Call) → l.calls g ≡ c → call_get g c l ≡ some m → Inv n m
    unfolding call_get
    get-Inv idle is e = once_do-Inv l.once refl inv.phase is e
    get-Inv loading is e = ground (arith, e)
    get-Inv returning is e = ground (arith, e)

  runs_bound : (n : ℕ) (l : Loader V E) (o : Once) → IsPhase n l o → l.runs ≤ 1
  runs_bound n l fresh h = omega (arith, h.0)
  runs_bound n l started h = omega (arith, h.0)
  runs_bound n l over h = omega (arith, h.0)

  module _ {n : ℕ} where
    Step-Inv : (l m : Loader V E) → Step load n l m → Inv n l → Inv n m
    unfolding act
    Step-Inv l m (goroutine (get g) lt e) inv = get-Inv inv lt (l.calls g) refl e
    Step-Inv l m (goroutine (turn g) lt e) inv = turn-Inv inv lt (l.calls g) refl e

    new-Inv : (zero_value : V) → Inv n (new_loader zero_value)
    unfolding new_loader
    new-Inv zero_value = record { phase = (refl, sum_below-zero n, sum_below-zero n); same = tt }

    -- In every execution of a loader that New returned, with any number of concurrent calls of Get,
    -- the load function runs at most once, and every call that returned got the value and the error
    -- of its first run.
    pub loader_once :
        (zero_value : V) {l : Loader V E}
        → Reach (Step load n) (new_loader zero_value) l
        → (l.runs ≤ 1) × All (λ x. x ≡ load 0) l.returned
    loader_once zero_value {l} r =
        let inv = Reach-inv (Inv n) (λ a b st. Step-Inv a b st) (new-Inv zero_value) r in
        (runs_bound n l l.once inv.phase, inv.same)
