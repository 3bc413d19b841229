-- ===== src/Crawler/Crawl.antt =====
-- The end of a crawl of examples/webcrawler: what has been fetched by then, and that it comes.
use mathlib.Core.Path.{subst}
use go_concurrency_examples.Base.{
  Context, List, Option, Reach, Reach-inv, String, ap, arith, get_elem?, inl, inr, none, refl, some,
  sum_below-const, sum_below-zero, sym, ℕ, ◌-◌, ◌∙◌, ◌≡◌, ◌⊎◌,
}
use go_concurrency_examples.Crawler.{
  Crawler, Job, Main, Step, act, cancel, contains, enqueue, enqueueing, give_up, goroutine, initial,
  is_closed, main_step, main_turn, pending_wait, remove_at, returned, sender_done, worker,
  worker_wait,
}
use go_concurrency_examples.Crawler.Complete.{Good, work-Kept}
use go_concurrency_examples.Crawler.Waits.{Kept-Counted}
use go_concurrency_examples.Crawler.Links.{enqueue-Same, enqueue-jobs_of, length-remove_at}
use go_concurrency_examples.Crawler.Turns.{enqueue-adds, enqueue-grows, enqueue-pending}

module _ {E : Type 0} (fetch : String → List String ⊎ E) (max_depth : ℕ) (start : String) where
  module _ {n : ℕ} {c : Crawler E} (inv : Good fetch max_depth start n c) where
    begin-Good :
        c.main ≡ enqueueing
        → Good fetch max_depth start n
            (record (enqueue max_depth start 0 c) { main = pending_wait })
    unfolding is_closed
    begin-Good is =
        let same = enqueue-Same max_depth start 0 c in
        record {
          pending_counted =
              rw same.workers
                (omega (arith, inv.pending_counted, enqueue-pending max_depth start 0 c));
          running_counted = rw (same.running, same.workers) inv.running_counted;
          closed_idle = λ over. cc;
          open_alive = λ on. same.running ∙ inv.open_alive (ap is_closed is);
          visited = λ u. rw (same.fetched, same.visits) (inv.visited u);
          accounted = λ u free.
              rw (same.fetched, same.workers)
                (omega (
                  arith,
                  inv.accounted u (sym same.ctx ∙ free),
                  enqueue-jobs_of max_depth start 0 c u,
                ));
          covered = λ i j l free at follows.
              rw same.workers
                (elim (inv.covered i j l (sym same.ctx ∙ free)
                  (ap (λ vs. get_elem? vs i) (sym same.visits) ∙ at) follows) [
                    | inl there ↦ inl (enqueue-grows max_depth start 0 c l there)
                    | inr owed ↦ inr owed
                  ]);
          begun = λ ne full. enqueue-adds max_depth start 0 c full (omega arith);
        }

  module _ {n : ℕ} {c d : Crawler E} (inv : Good fetch max_depth start n c) where
    give_up-Good :
        (k : ℕ) (ctx : Context) (job : Option Job)
        → c.ctx ≡ ctx
        → get_elem? c.senders k ≡ job
        → give_up k ctx job c ≡ some d
        → Good fetch max_depth start n d
    unfolding give_up
    give_up-Good k none job is at e = ground arith
    give_up-Good k (some err) none is at e = ground arith
    give_up-Good k (some err) (some j) is at e =
        let next_state : record c { senders = remove_at k c.senders; pending = c.pending - 1 } ≡ d =
          ground (arith, e) in
        subst (Good fetch max_depth start n) next_state (record {
          pending_counted = omega (arith, inv.pending_counted, length-remove_at k j c.senders at);
          running_counted = inv.running_counted;
          closed_idle = λ over. omega (arith, inv.closed_idle over);
          open_alive = inv.open_alive;
          visited = inv.visited;
          accounted = λ u free. cc;
          covered = λ i v l free at_i follows. cc;
          begun = inv.begun;
        })

    main_step-Good :
        (m : Main)
        → c.main ≡ m
        → main_step max_depth start m c ≡ some d
        → Good fetch max_depth start n d
    unfolding main_step is_closed
    main_step-Good enqueueing is e =
        subst (Good fetch max_depth start n) (ground (arith, e)) (begin-Good inv is)
    main_step-Good pending_wait is e =
        let next_state : record c { main = worker_wait } ≡ d = ground (arith, e) in
        subst (Good fetch max_depth start n) next_state (record {
          pending_counted = inv.pending_counted;
          running_counted = inv.running_counted;
          closed_idle = λ over. ground (arith, e);
          open_alive = λ on. cc;
          visited = inv.visited;
          accounted = inv.accounted;
          covered = inv.covered;
          begun = λ ne. inv.begun (λ was. cc);
        })
    main_step-Good worker_wait is e =
        let next_state : record c { main = returned } ≡ d = ground (arith, e) in
        subst (Good fetch max_depth start n) next_state (record {
          pending_counted = inv.pending_counted;
          running_counted = inv.running_counted;
          closed_idle = λ over. inv.closed_idle (ap is_closed is);
          open_alive = λ on. cc;
          visited = inv.visited;
          accounted = inv.accounted;
          covered = inv.covered;
          begun = λ ne. inv.begun (λ was. cc);
        })
    main_step-Good returned is e = ground arith

  Step-Good :
      {n : ℕ} (c d : Crawler E)
      → Step fetch max_depth start n c d
      → Good fetch max_depth start n c
      → Good fetch max_depth start n d
  unfolding act
  Step-Good c d (goroutine (worker id k) lt e) inv =
      let (w', m) = work-Kept fetch max_depth start inv lt k (c.workers id) refl e in
      Kept-Counted fetch max_depth start inv lt m
  Step-Good c d (goroutine (sender_done k) ok e) inv =
      give_up-Good inv k c.ctx (get_elem? c.senders k) refl refl e
  Step-Good c d (goroutine main_turn ok e) inv = main_step-Good inv c.main refl e
  Step-Good {n} c d (cancel err free e) inv = subst (Good fetch max_depth start n) e (record {
    pending_counted = inv.pending_counted;
    running_counted = inv.running_counted;
    closed_idle = inv.closed_idle;
    open_alive = inv.open_alive;
    visited = inv.visited;
    accounted = λ u h. cc;
    covered = λ i j l h at follows. cc;
    begun = inv.begun;
  })

  initial-Good : (n : ℕ) → Good fetch max_depth start n (initial n)
  unfolding initial is_closed contains
  initial-Good n = record {
    pending_counted = omega (arith, sum_below-zero n);
    running_counted = omega (arith, sum_below-const 1 n);
    closed_idle = λ over. refl;
    open_alive = λ on. refl;
    visited = λ u. refl;
    accounted = λ u free. omega arith;
    covered = λ i j l free at follows. ground arith;
    begun = λ ne. absurd (ne refl);
  }

  pub Reach-Good :
      {n : ℕ} {c : Crawler E}
      → Reach (Step fetch max_depth start n) (initial n) c
      → Good fetch max_depth start n c
  Reach-Good {n} r =
      Reach-inv (Good fetch max_depth start n) (λ c d st. Step-Good c d st) (initial-Good n) r
