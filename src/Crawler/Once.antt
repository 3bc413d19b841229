-- ===== src/Crawler/Once.antt =====
-- What a crawl of examples/webcrawler fetches, in every state that it can reach.
use mathlib.Core.Path.{subst}
use go_concurrency_examples.Base.{
  All, Context, List, Option, String, arith, get_elem?, none, some, sym, ℕ, ◌-◌, ◌<◌, ◌≡◌, ◌⊎◌,
  Reach, Reach-inv, refl, sum_below-zero, to_num-le_one, ◌≤◌,
}
use go_concurrency_examples.Crawler.Links.{
  All-remove_at, at_start, enqueue-All, enqueue-Same, enqueue-jobs_of, jobs_of-remove_at, times,
}
use go_concurrency_examples.Crawler.{
  Crawler, Job, Worker, enqueue, give_up, remove_at, work, Main, Step, act, cancel, contains,
  enqueueing, goroutine, initial, main_step, main_turn, pending_wait, returned, sender_done, worker,
  worker_wait,
}
use go_concurrency_examples.Crawler.Visits.{Inv, IsPage, Moved, Moved-Inv, Within, WorksWithin}
use go_concurrency_examples.Crawler.Workers.{work-Moved}

module _ {E : Type 0} (fetch : String → List String ⊎ E) (max_depth : ℕ) (start : String) where
  module _ {n : ℕ} {c : Crawler E} (inv : Inv fetch max_depth start n c) where
    enqueue-Inv : Inv fetch max_depth start n (enqueue max_depth start 0 c)
    enqueue-Inv =
        let same = enqueue-Same max_depth start 0 c in
        record {
          once = λ u.
              rw (same.fetched, same.workers)
                (omega (arith, inv.once u, enqueue-jobs_of max_depth start 0 c u));
          jobs_within =
              enqueue-All (Within fetch max_depth start) max_depth start 0 c inv.jobs_within
                (λ le. (at_start, le));
          workers_within = λ i. rw same.workers (inv.workers_within i);
          pages = subst (All (IsPage fetch max_depth start)) (sym same.fetched) inv.pages;
        }

  module _ {n : ℕ} {c d : Crawler E} (inv : Inv fetch max_depth start n c) where
    worker-Inv :
        (id k : ℕ) (w : Worker)
        → id < n
        → c.workers id ≡ w
        → WorksWithin fetch max_depth start w
        → work fetch max_depth start id k w c ≡ some d
        → Inv fetch max_depth start n d
    worker-Inv id k w lt is h e =
        let (w', m) = work-Moved fetch max_depth start inv k w h e in
        Moved-Inv fetch max_depth start inv lt
          (subst (λ x. Moved fetch max_depth start id c d x w') (sym is) m)

    give_up-Inv :
        (k : ℕ) (ctx : Context) (job : Option Job)
        → get_elem? c.senders k ≡ job
        → give_up k ctx job c ≡ some d
        → Inv fetch max_depth start n d
    unfolding give_up
    give_up-Inv k none job at e = ground arith
    give_up-Inv k (some err) none at e = ground arith
    give_up-Inv k (some err) (some j) at e =
        let is : record c { senders = remove_at k c.senders; pending = c.pending - 1 } ≡ d =
          ground arith in
        let (gone, rest) =
          All-remove_at (Within fetch max_depth start) k j c.senders at inv.jobs_within in
        subst (Inv fetch max_depth start n) is (record {
          once = λ u. omega (arith, inv.once u, jobs_of-remove_at u k j c.senders at);
          jobs_within = rest;
          workers_within = inv.workers_within;
          pages = inv.pages;
        })

    moved_on-Inv : (m : Main) → record c { main = m } ≡ d → Inv fetch max_depth start n d
    moved_on-Inv m is = subst (Inv fetch max_depth start n) is (record {
      once = inv.once;
      jobs_within = inv.jobs_within;
      workers_within = inv.workers_within;
      pages = inv.pages;
    })

    main_step-Inv :
        (m : Main) → main_step max_depth start m c ≡ some d → Inv fetch max_depth start n d
    unfolding main_step
    main_step-Inv enqueueing e =
        let started = enqueue-Inv inv in
        let is : record (enqueue max_depth start 0 c) { main = pending_wait } ≡ d =
          ground (arith, e) in
        subst (Inv fetch max_depth start n) is (record {
          once = started.once;
          jobs_within = started.jobs_within;
          workers_within = started.workers_within;
          pages = started.pages;
        })
    main_step-Inv pending_wait e = moved_on-Inv worker_wait (ground (arith, e))
    main_step-Inv worker_wait e = moved_on-Inv returned (ground (arith, e))
    main_step-Inv returned e = ground (arith, e)

  Step-Inv :
      {n : ℕ} (c d : Crawler E)
      → Step fetch max_depth start n c d
      → Inv fetch max_depth start n c
      → Inv fetch max_depth start n d
  unfolding act
  Step-Inv c d (goroutine (worker id k) lt e) inv =
      worker-Inv inv id k (c.workers id) lt refl (inv.workers_within id) e
  Step-Inv c d (goroutine (sender_done k) ok e) inv =
      give_up-Inv inv k c.ctx (get_elem? c.senders k) refl e
  Step-Inv c d (goroutine main_turn ok e) inv = main_step-Inv inv c.main e
  Step-Inv {n} c d (cancel err free e) inv = subst (Inv fetch max_depth start n) e (record {
    once = inv.once;
    jobs_within = inv.jobs_within;
    workers_within = inv.workers_within;
    pages = inv.pages;
  })

  initial-Inv : (n : ℕ) → Inv fetch max_depth start n (initial n)
  unfolding initial contains
  initial-Inv n = record {
    once = λ u. omega (arith, sum_below-zero n);
    jobs_within = tt;
    workers_within = λ i. tt;
    pages = tt;
  }

  -- In every state that a crawl with any number of workers can reach, whatever the pages link to
  -- and whenever the context is canceled: no URL was fetched twice, and every URL that was fetched
  -- is linked from the start by a path of at most the maximal depth.
  pub crawl_fetches :
      {n : ℕ} {c : Crawler E}
      → Reach (Step fetch max_depth start n) (initial n) c
      → ((u : String) → times u c.fetched ≤ 1) × All (IsPage fetch max_depth start) c.fetched
  crawl_fetches {n} {c} r =
      let inv =
        Reach-inv (Inv fetch max_depth start n) (λ c d st. Step-Inv c d st) (initial-Inv n) r in
      (λ u. omega (arith, inv.once u, to_num-le_one (contains u c.scheduled)), inv.pages)
