-- ===== src/Pool/Handover.antt =====
-- What callers of examples/connectionpool can rely on, in every state that a new pool can reach.
use go_concurrency_examples.Pool.Invariant.{Inv, acquire-Inv, Waits, holds}
use go_concurrency_examples.Base.{
  List, Reach, Reach-inv, [], arith, count, count-append, erase, inl, length, length-append,
  length-erase, ltb, none, refl, some, suc, sum_below-zero, to_num, update, zero, ℕ, ◌++◌, ◌<◌, ◌∷◌,
  ◌≡◌, Bool-cases, CtxError, Option, inr, leb, ◌≤◌, ◌⊎◌, Option-cases, count-erase, ap, sum_below,
  sum_below-congr, ◌+◌,
}
use go_concurrency_examples.Pool.{
  Pool, Step, System, acquires, call_release, count_up, give_back, initial, new, release,
  release_to, releases, resumes, acquire, call_acquire, ctx_error, finish_call, late, resume,
  returned, selecting, begin_call, cancel_call, pop_idle, remove_waiter, resume_at, Call, absent,
}
use go_concurrency_examples.Pool.Release.{first_waits, release-Inv}
use go_concurrency_examples.Base.Int.{pos_part, ℤ}
use go_concurrency_examples.Pool.Resume.{resume-Inv, remove_waiter_lem}

count-count_up : (c n : ℕ) → count c (count_up n) ≡ to_num (ltb c n)
unfolding count_up
count-count_up c zero = ground arith
count-count_up c (suc n) = ground (arith, count-append c (count_up n) (n ∷ []), count-count_up c n)

length-count_up : (n : ℕ) → length (count_up n) ≡ n
unfolding count_up
length-count_up zero = refl
length-count_up (suc n) = omega (arith, length-append (count_up n) (n ∷ []), length-count_up n)

initial-Inv :
    (size max_waiters : ℤ) (p : Pool)
    → new size max_waiters ≡ inl p
    → Inv (pos_part size) (pos_part max_waiters) (initial p)
unfolding new initial
initial-Inv size max_waiters p e = record {
  capacity_kept = ground arith;
  limit_kept = ground arith;
  one_place = λ c. ground (arith, count-count_up c (pos_part size), sum_below-zero 0);
  all_there = ground (arith, length-count_up (pos_part size), sum_below-zero 0);
  fair = ground arith;
  limited = ground arith;
  calls_wait = λ w. ground arith;
  unused = λ w h. ground arith;
}

Step-Inv : {cap most : ℕ} (s t : System) → Step s t → Inv cap most s → Inv cap most t
Step-Inv s t (acquires e) inv = acquire-Inv inv e
Step-Inv s t (resumes w ctx e) inv = resume-Inv inv w ctx e
Step-Inv s t (releases conn x held e) inv = release-Inv inv conn x held e

module _ {cap most : ℕ} {s : System} (inv : Inv cap most s) where
  release_at :
      (conn : ℕ)
      → 0 < count conn s.borrowed
      → (us : List ℕ) → s.pool.waiters ≡ us
      → (t : System) × (call_release conn s ≡ some (t, none))
        × (t.borrowed ≡ erase conn s.borrowed)
        × ((w : ℕ) (ws : List ℕ)
            → s.pool.waiters ≡ w ∷ ws
            → (t.ready w ≡ some conn) × (t.pool.waiters ≡ ws) × (t.pool.idle ≡ s.pool.idle))
        × (s.pool.waiters ≡ [] → t.pool.idle ≡ s.pool.idle ++ conn ∷ [])
  unfolding call_release release release_to give_back
  release_at conn held [] at =
      let p = record (s.pool) { idle = s.pool.idle ++ conn ∷ [] } in
      (
        record s { pool = p; borrowed = erase conn s.borrowed },
        ground (arith, inv, length-erase conn s.borrowed held),
        refl,
        λ w ws e. ground arith,
        λ e. refl,
      )
  release_at conn held (v ∷ vs) at =
      let (empty, selects, lt) = first_waits inv v vs at in
      let p = record (s.pool) { waiters = vs } in
      (
        record s {
          pool = p;
          ready = update s.ready v (some conn);
          borrowed = erase conn s.borrowed;
        },
        ground arith,
        refl,
        λ w ws e. ground arith,
        λ e. ground arith,
      )

  acquire_at :
      (idle : List ℕ)
      → s.pool.idle ≡ idle
      → (t : System) × (call_acquire s ≡ some t)
        × ((conn : ℕ) (rest : List ℕ)
            → idle ≡ conn ∷ rest
            → (t.borrowed ≡ conn ∷ s.borrowed) × (t.pool.idle ≡ rest) × (t.calls ≡ s.calls))
        × (idle ≡ []
            → length s.pool.waiters < most
            → (t.pool.waiters ≡ s.pool.waiters ++ s.fresh ∷ [])
              × (t.calls s.fresh ≡ selecting)
              × (t.borrowed ≡ s.borrowed))
        × (idle ≡ [] → most ≤ length s.pool.waiters → t ≡ s)
  unfolding call_acquire acquire begin_call pop_idle
  acquire_at (c ∷ cs) at =
      let p = record (s.pool) { idle = cs } in
      (
        record s { pool = p; borrowed = c ∷ s.borrowed },
        ground (arith, inv),
        λ conn rest e. ground arith,
        λ e. ground arith,
        λ e. ground arith,
      )
  acquire_at [] at = elim (Bool-cases (leb s.pool.max_waiters (length s.pool.waiters))) [
    | inl full ↦ (
      s,
      ground arith,
      λ conn rest e. ground arith,
      λ e lt. ground (arith, inv.limit_kept),
      λ e le. refl,
    )
    | inr room ↦
        let p = record (s.pool) { waiters = s.pool.waiters ++ s.fresh ∷ [] } in
        (
          record s { pool = p; calls = update s.calls s.fresh selecting; fresh = suc s.fresh },
          ground arith,
          λ conn rest e. ground arith,
          λ e lt. ground arith,
          λ e le. ground (arith, inv.limit_kept),
        )
  ]

  ready_finishes :
      (w : ℕ) (conn : ℕ)
      → s.ready w ≡ some conn
      → (u : System) × (finish_call w s ≡ some u)
        × (u.calls w ≡ returned (inl conn))
        × (u.borrowed ≡ conn ∷ s.borrowed)
  unfolding finish_call
  ready_finishes w conn e = (
    record s {
      ready = update s.ready w none;
      calls = update s.calls w (returned (inl conn));
      borrowed = conn ∷ s.borrowed;
    },
    ground arith,
    ground arith,
    refl,
  )

  cancel_at :
      (w : ℕ) (e : CtxError)
      → s.calls w ≡ selecting
      → (t : System) × (resume w (some e) s ≡ some t)
        × (t.borrowed ≡ s.borrowed)
        × (((t.calls w ≡ returned (inr (ctx_error e)))
              × (t.ready w ≡ none)
              × (t.pool.waiters ≡ erase w s.pool.waiters)
              × (count w t.pool.waiters ≡ 0))
            ⊎ ((t.calls w ≡ late) × ((conn : ℕ) × (t.ready w ≡ some conn)) × (t.pool ≡ s.pool)))
  unfolding resume resume_at cancel_call
  cancel_at w e selects =
      let lem = remove_waiter_lem w s.pool.waiters in
      let waits = inv.calls_wait w in
      let fewer = count-erase w w s.pool.waiters in
      elim (Bool-cases (remove_waiter w s.pool.waiters).1) [
        | inl found ↦ (
          cancel_call w e s,
          ground arith,
          ground arith,
          inl (ground arith, ground arith, ground arith, ground arith),
        )
        | inr missing ↦ elim (Option-cases (s.ready w)) [
          | inl empty ↦ absurd (ground arith)
          | inr (conn, full) ↦ (
            cancel_call w e s,
            ground arith,
            ground arith,
            inr (ground arith, (conn, ground arith), ground arith),
          )
        ]
      ]

  late_at :
      (w : ℕ) (ctx : Option CtxError)
      → s.calls w ≡ late
      → (t : System) × (conn : ℕ) × (resume w ctx s ≡ some t)
        × (t.calls w ≡ returned (inl conn))
        × (t.borrowed ≡ conn ∷ s.borrowed)
  unfolding resume resume_at
  late_at w ctx is_late = elim (Option-cases (s.ready w)) [
    | inl empty ↦ absurd (ground (arith, inv.calls_wait w))
    | inr (conn, e) ↦
        let (u, run, over, more) = ready_finishes w conn e in (u, conn, rw is_late run, over, more)
  ]

-- The connection in the channel of a call, if the call is still to receive it.
abbrev pub receives : Call → Option ℕ → Option ℕ
receives selecting ready = ready
receives late ready = ready
receives absent ready = none
receives (returned r) ready = none

-- The copies of connection `c` in the pool's list, with callers, and in the channels of the calls that
-- have not returned.
abbrev pub owners : ℕ → System → ℕ
owners c s =
    count c s.pool.idle
    + count c s.borrowed
    + sum_below (λ w. holds c (receives (s.calls w) (s.ready w))) s.fresh

-- A channel with a connection is that of a call that is still to receive it.
Waits-receives :
    (c : ℕ) (call : Call) (queued : ℕ) (ready : Option ℕ)
    → Waits call queued ready
    → holds c ready ≡ holds c (receives call ready)
Waits-receives c selecting queued ready h = refl
Waits-receives c late queued ready h = refl
Waits-receives c absent queued ready (out, empty) = ap (holds c) empty
Waits-receives c (returned r) queued ready (out, empty) = ap (holds c) empty

module _ (size max_waiters : ℤ) {p : Pool} {s : System} (made : new size max_waiters ≡ inl p)
    (r : Reach Step (initial p) s) where
  reached : Inv (pos_part size) (pos_part max_waiters) s
  reached =
      Reach-inv (Inv (pos_part size) (pos_part max_waiters)) Step-Inv
        (initial-Inv size max_waiters p made) r

  -- No connection is lost, made up or lent twice: in every reachable state each of the connections
  -- 0, …, size - 1 is in exactly one place, idle in the pool, with one caller, or in the channel of
  -- one call of Acquire that has not returned and is still to receive it, and no other connection is
  -- anywhere.
  pub pool_one_place : (conn : ℕ) → owners conn s ≡ to_num (ltb conn (pos_part size))
  pool_one_place conn = omega (
    arith,
    reached.one_place conn,
    sum_below-congr (λ w. holds conn (s.ready w))
        (λ w. holds conn (receives (s.calls w) (s.ready w))) s.fresh
        (λ w lt.
          Waits-receives conn (s.calls w) (count w s.pool.waiters) (s.ready w)
            (reached.calls_wait w)),
  )

  -- A caller that releases a connection which it holds is never blocked and gets no error: the
  -- connection goes to the caller that has waited longest, or back to the pool if none waits.
  pool_release :
      (conn : ℕ)
      → 0 < count conn s.borrowed
      → (t : System) × (call_release conn s ≡ some (t, none))
        × (t.borrowed ≡ erase conn s.borrowed)
        × ((w : ℕ) (ws : List ℕ)
            → s.pool.waiters ≡ w ∷ ws
            → (t.ready w ≡ some conn) × (t.pool.waiters ≡ ws) × (t.pool.idle ≡ s.pool.idle))
        × (s.pool.waiters ≡ [] → t.pool.idle ≡ s.pool.idle ++ conn ∷ [])
  pool_release conn held = release_at reached conn held s.pool.waiters refl

  -- A call of `Acquire` never waits for its turn while a connection is idle, and never overtakes:
  -- with an idle connection it takes the first one; with none it joins the end of the wait list if
  -- that is not full, and else changes nothing.
  pool_acquire :
      (t : System) × (call_acquire s ≡ some t)
      × ((conn : ℕ) (rest : List ℕ)
          → s.pool.idle ≡ conn ∷ rest
          → (t.borrowed ≡ conn ∷ s.borrowed) × (t.pool.idle ≡ rest) × (t.calls ≡ s.calls))
      × (s.pool.idle ≡ []
          → length s.pool.waiters < pos_part max_waiters
          → (t.pool.waiters ≡ s.pool.waiters ++ s.fresh ∷ [])
            × (t.calls s.fresh ≡ selecting)
            × (t.borrowed ≡ s.borrowed))
      × (s.pool.idle ≡ [] → pos_part max_waiters ≤ length s.pool.waiters → t ≡ s)
  pool_acquire = acquire_at reached s.pool.idle refl

  -- A waiting call whose context is canceled either leaves the wait list with the error of the
  -- context and no connection in its channel, or its connection was handed over before and is in its channel.
  pub pool_cancel :
      (w : ℕ) (e : CtxError)
      → s.calls w ≡ selecting
      → (t : System) × (resume w (some e) s ≡ some t)
        × (t.borrowed ≡ s.borrowed)
        × (((t.calls w ≡ returned (inr (ctx_error e)))
              × (t.ready w ≡ none)
              × (t.pool.waiters ≡ erase w s.pool.waiters)
              × (count w t.pool.waiters ≡ 0))
            ⊎ ((t.calls w ≡ late) × ((conn : ℕ) × (t.ready w ≡ some conn)) × (t.pool ≡ s.pool)))
  pool_cancel w e selects = cancel_at reached w e selects

  -- A call that was canceled too late never hangs: its connection is there, and it returns it.
  pool_late :
      (w : ℕ) (ctx : Option CtxError)
      → s.calls w ≡ late
      → (t : System) × (conn : ℕ) × (resume w ctx s ≡ some t)
        × (t.calls w ≡ returned (inl conn))
        × (t.borrowed ≡ conn ∷ s.borrowed)
  pool_late w ctx e = late_at reached w ctx e
