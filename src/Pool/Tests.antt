-- ===== src/Pool/Tests.antt =====
-- Schedules of a pool with one connection, and the theorems about examples/connectionpool at the
-- states that they lead to.
use go_concurrency_examples.Pool.Handover.{pool_cancel, pool_one_place, owners}
use go_concurrency_examples.Base.{
  CtxError, List, Option, Ran, [], arith, canceled, count, erase, execute, here, if◌then◌else◌, inl,
  inr, length, ltb, none, refl, some, to_num, ℕ, ◌++◌, ◌<◌, ◌∷◌, ◌≡◌, ◌≤◌, ◌⊎◌,
}
use go_concurrency_examples.Pool.{
  Error, Pool, Step, System, acquires, call_acquire, call_release, count_up, ctx_error, initial,
  late, new, releases, resume, resumes, returned, selecting,
}
use go_concurrency_examples.Base.Int.{pos}

data Turn : Type 0 where
  arrive : Turn
  wake : ℕ → Option CtxError → Turn
  done_with : ℕ → Turn

abbrev after : Option (System × Option Error) → Option System
after none = none
after (some (s, e)) = some s

abbrev turn : Turn → System → Option System
turn arrive s = call_acquire s
turn (wake w ctx) s = resume w ctx s
turn (done_with c) s = if ltb 0 (count c s.borrowed) then after (call_release c s) else none

after-eq-some :
    (r : Option (System × Option Error)) (t : System)
    → after r ≡ some t
    → (e : Option Error) × (r ≡ some (t, e))
after-eq-some none t h = cc
after-eq-some (some (s, e)) t h = (e, ground arith)

turn-Step : (c : Turn) (s t : System) → turn c s ≡ some t → Step s t
turn-Step arrive s t h = acquires h
turn-Step (wake w ctx) s t h = resumes w ctx h
turn-Step (done_with c) s t h =
    let (e, r) = after-eq-some (call_release c s) t (ground arith) in releases c e (ground arith) r

abbrev single : Pool
single = record { idle = 0 ∷ []; waiters = []; capacity = 1; max_waiters = 2 }

made_single : new (pos 1) (pos 2) ≡ inl single
unfolding new count_up
made_single = refl

abbrev play : List Turn → Ran Step (initial single)
play turns = execute turn turn-Step (record { last = initial single; reach = here }) turns

-- One caller holds the connection, and two wait.
abbrev crowded : Ran Step (initial single)
crowded = play (arrive ∷ arrive ∷ arrive ∷ [])

-- The connection went to the first of them just before it was canceled.
abbrev crossed : Ran Step (initial single)
crossed = play (arrive ∷ arrive ∷ arrive ∷ done_with 0 ∷ wake 0 (some canceled) ∷ [])

pool_one_place_example : owners 0 crossed.last ≡ to_num (ltb 0 1)
pool_one_place_example = pool_one_place (pos 1) (pos 2) made_single crossed.reach 0

crowded_borrowed : crowded.last.borrowed ≡ 0 ∷ []
unfolding execute call_acquire initial
crowded_borrowed = refl

abbrev Arrived : System → Type 0
Arrived s =
    (t : System) × (call_acquire s ≡ some t)
    × ((conn : ℕ) (rest : List ℕ)
        → s.pool.idle ≡ conn ∷ rest
        → (t.borrowed ≡ conn ∷ s.borrowed) × (t.pool.idle ≡ rest) × (t.calls ≡ s.calls))
    × (s.pool.idle ≡ []
        → length s.pool.waiters < 2
        → (t.pool.waiters ≡ s.pool.waiters ++ s.fresh ∷ [])
          × (t.calls s.fresh ≡ selecting)
          × (t.borrowed ≡ s.borrowed))
    × (s.pool.idle ≡ [] → 2 ≤ length s.pool.waiters → t ≡ s)

crowded_calls : crowded.last.calls 0 ≡ selecting
unfolding execute call_acquire initial
crowded_calls = refl

pool_cancel_example :
    (t : System) × (resume 0 (some canceled) crowded.last ≡ some t)
    × (t.borrowed ≡ crowded.last.borrowed)
    × (((t.calls 0 ≡ returned (inr (ctx_error canceled)))
          × (t.ready 0 ≡ none)
          × (t.pool.waiters ≡ erase 0 crowded.last.pool.waiters)
          × (count 0 t.pool.waiters ≡ 0))
        ⊎ ((t.calls 0 ≡ late)
            × ((conn : ℕ) × (t.ready 0 ≡ some conn))
            × (t.pool ≡ crowded.last.pool)))
pool_cancel_example = pool_cancel (pos 1) (pos 2) made_single crowded.reach 0 canceled crowded_calls

crossed_calls : crossed.last.calls 0 ≡ late
unfolding execute call_acquire initial call_release resume
crossed_calls = refl
