-- ===== src/Crawler/Ends.antt =====
-- When Crawl of examples/webcrawler returns, and what it has fetched by then.
use go_concurrency_examples.Base.{
  List, Reach, String, [], ap, arith, false, get_elem?, inl, inr, is_empty, is_some, length, none,
  refl, some, sum_below, sum_below_mono, to_num-le_one, true, ℕ, ◌<◌, ◌∷◌, ◌≡◌, ◌≤◌, ◌⊎◌, dec_lt,
  sum_below_pos,
}
use go_concurrency_examples.Crawler.{
  Choice, Crawler, IsChoice, Job, Step, Worker, act, contains, fetching, finishing, following,
  initial, is_closed, receive, starting, stopped, waiting, work, worker, Main, enqueueing,
  main_step, main_turn, pending_wait, returned, worker_wait,
}
use go_concurrency_examples.Crawler.Waits.{Follows, alive, busy, owes}
use go_concurrency_examples.Crawler.Complete.{Good}
use go_concurrency_examples.Crawler.Crawl.{Reach-Good}
use go_concurrency_examples.Crawler.Visits.{held}
use go_concurrency_examples.Crawler.Links.{jobs_of, times}

held-le-busy : (u : String) (w : Worker) → held u w ≤ busy w
held-le-busy u waiting = omega arith
held-le-busy u (starting j) = to_num-le_one _
held-le-busy u (fetching j) = omega arith
held-le-busy u (following links depth) = omega arith
held-le-busy u finishing = omega arith
held-le-busy u stopped = omega arith

owes-le-busy : (j : Job) (l : String) (w : Worker) → owes j l w ≤ busy w
owes-le-busy j l waiting = omega arith
owes-le-busy j l (starting i) = omega arith
owes-le-busy j l (fetching i) = to_num-le_one _
owes-le-busy j l (following links depth) = to_num-le_one _
owes-le-busy j l finishing = omega arith
owes-le-busy j l stopped = omega arith

jobs_of-le-length : (u : String) (js : List Job) → jobs_of u js ≤ length js
jobs_of-le-length u [] = omega arith
jobs_of-le-length u (j ∷ js) = omega (arith, jobs_of-le-length u js, to_num-le_one _)

some-first : (js : List Job) → 0 < length js → is_some (get_elem? js 0) ≡ true
some-first [] h = absurd (omega arith)
some-first (j ∷ js) h = refl

module _ {E : Type 0} (fetch : String → List String ⊎ E) (max_depth : ℕ) (start : String) where
  -- What holds of a crawl whose channel of jobs is closed: no goroutine is left that could send to
  -- it, and what was scheduled has been fetched.
  module _ {n : ℕ} {c : Crawler E} (inv : Good fetch max_depth start n c)
      (over : is_closed c.main ≡ true) where
    no-busy : (length c.senders ≡ 0) × (sum_below (λ i. busy (c.workers i)) n ≡ 0)
    no-busy = omega (arith, inv.closed_idle over, inv.pending_counted)

    scheduled-fetched :
        (u : String) → c.ctx ≡ none → contains u c.scheduled ≡ true → 0 < times u c.fetched
    scheduled-fetched u free there = ground (
      arith,
      there,
      no-busy,
      inv.accounted u free,
      jobs_of-le-length u c.senders,
      sum_below_mono (λ i. held u (c.workers i)) (λ i. busy (c.workers i)) n
          (λ i p. held-le-busy u (c.workers i)),
    )

    links-scheduled :
        (i : ℕ) (j : Job) (l : String)
        → c.ctx ≡ none
        → get_elem? c.visits i ≡ some j
        → Follows fetch max_depth start j l
        → contains l c.scheduled ≡ true
    links-scheduled i j l free at follows = elim (inv.covered i j l free at follows) [
      | inl there ↦ there
      | inr owed ↦ absurd (
          omega (
            arith,
            no-busy,
            owed,
            sum_below_mono (λ k. owes j l (c.workers k)) (λ k. busy (c.workers k)) n
                (λ k p. owes-le-busy j l (c.workers k)),
          ))
    ]

  -- When Crawl has closed the channel of jobs, in any reachable state, no goroutine is left that
  -- sends to it or has work for a worker, which would panic or be lost. And if the context has not
  -- been canceled by then, the start has been fetched, and so has every link of every page that was
  -- fetched at a depth below the maximal one.
  pub crawl_completes :
      {n : ℕ} {c : Crawler E}
      → Reach (Step fetch max_depth start n) (initial n) c
      → is_closed c.main ≡ true
      → (length c.senders ≡ 0)
        × (sum_below (λ i. busy (c.workers i)) n ≡ 0)
        × (c.ctx ≡ none → is_empty start ≡ false → 0 < times start c.fetched)
        × ((i : ℕ) (j : Job) (l : String)
            → c.ctx ≡ none
            → get_elem? c.visits i ≡ some j
            → Follows fetch max_depth start j l
            → 0 < times l c.fetched)
  unfolding is_closed
  crawl_completes {n} {c} r over =
      let inv = Reach-Good fetch max_depth start r in
      (
        (no-busy inv over).0,
        (no-busy inv over).1,
        λ free full.
            scheduled-fetched inv over start free
              (inv.begun (λ e. ground (arith, over, ap is_closed e)) full),
        λ i j l free at follows.
            scheduled-fetched inv over l free (links-scheduled inv over i j l free at follows),
      )

  -- A worker with a job, and a worker that waits when a job is there or the channel is closed, can
  -- take a step.
  busy-steps :
      (id k : ℕ) (w : Worker) (c : Crawler E)
      → 0 < busy w
      → is_some (work fetch max_depth start id k w c) ≡ true
  unfolding work
  busy-steps id k waiting c h = ground arith
  busy-steps id k (starting j) c h = ground arith
  busy-steps id k (fetching j) c h = ground arith
  busy-steps id k (following [] depth) c h = ground arith
  busy-steps id k (following (link ∷ links) depth) c h = ground arith
  busy-steps id k finishing c h = ground arith
  busy-steps id k stopped c h = ground arith

  abbrev pub CanStep : ℕ → Crawler E → Type 0
  CanStep n c = (x : Choice) × IsChoice n x × (is_some (act fetch max_depth start x c) ≡ true)

  alive-steps :
      (n id : ℕ) (w : Worker) (c : Crawler E)
      → id < n
      → c.workers id ≡ w
      → 0 < alive w
      → (0 < length c.senders) ⊎ (is_closed c.main ≡ true) ⊎ (0 < busy w)
      → CanStep n c
  unfolding act work receive
  alive-steps n id waiting c lt is live (inl more) =
      (worker id 0, lt, ground (arith, is, some-first c.senders more))
  alive-steps n id waiting c lt is live (inr (inl over)) =
      (worker id 0, lt, ground (arith, is, over))
  alive-steps n id waiting c lt is live (inr (inr h)) = absurd (omega (arith, h))
  alive-steps n id (starting j) c lt is live why =
      (worker id 0, lt, rw is (busy-steps id 0 (starting j) c (omega arith)))
  alive-steps n id (fetching j) c lt is live why =
      (worker id 0, lt, rw is (busy-steps id 0 (fetching j) c (omega arith)))
  alive-steps n id (following links depth) c lt is live why =
      (worker id 0, lt, rw is (busy-steps id 0 (following links depth) c (omega arith)))
  alive-steps n id finishing c lt is live why =
      (worker id 0, lt, rw is (busy-steps id 0 finishing c (omega arith)))
  alive-steps n id stopped c lt is live why = absurd (omega arith)

  module _ {n : ℕ} {c : Crawler E} (inv : Good fetch max_depth start n c) where
    alive-CanStep : 0 < c.running → (0 < length c.senders) ⊎ (is_closed c.main ≡ true) → CanStep n c
    alive-CanStep h why =
        let (i, lt, live) =
          sum_below_pos (λ i. alive (c.workers i)) n (omega (arith, inv.running_counted)) in
        alive-steps n i (c.workers i) c lt refl live
          (elim why [ inl more ↦ inl more | inr over ↦ inr (inl over) ])

    pending-CanStep : 0 < n → is_closed c.main ≡ false → 0 < c.pending → CanStep n c
    pending-CanStep some_workers on h = elim (dec_lt 0 (sum_below (λ i. busy (c.workers i)) n)) [
      | yes p ↦
          let (i, lt, h) = sum_below_pos (λ i. busy (c.workers i)) n p in
          (worker i 0, lt, unfold act in busy-steps i 0 (c.workers i) c h)
      | no p ↦
          alive-CanStep (omega (arith, inv.open_alive on))
            (inl (omega (arith, inv.pending_counted)))
    ]

    main-CanStep : 0 < n → (m : Main) → c.main ≡ m → (m ≡ returned) ⊎ CanStep n c
    unfolding act main_step is_closed
    main-CanStep some_workers enqueueing is = inr (main_turn, tt, ground (arith, is))
    main-CanStep some_workers pending_wait is = elim (dec_lt 0 c.pending) [
      | yes h ↦ inr (pending-CanStep some_workers (ap is_closed is) h)
      | no h ↦ inr (main_turn, tt, ground (arith, is))
    ]
    main-CanStep some_workers worker_wait is = elim (dec_lt 0 c.running) [
      | yes h ↦ inr (alive-CanStep h (inr (ap is_closed is)))
      | no h ↦ inr (main_turn, tt, ground (arith, is))
    ]
    main-CanStep some_workers returned is = inl refl

  -- In every state that a crawl with at least one worker can reach, Crawl has returned, or a
  -- worker, a goroutine of enqueue or Crawl itself can take a step: a crawl never deadlocks.
  pub crawl_progress :
      {n : ℕ} {c : Crawler E}
      → 0 < n
      → Reach (Step fetch max_depth start n) (initial n) c
      → (c.main ≡ returned) ⊎ CanStep n c
  crawl_progress {n} {c} some_workers r =
      main-CanStep (Reach-Good fetch max_depth start r) some_workers c.main refl
