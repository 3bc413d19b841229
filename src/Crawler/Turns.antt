-- ===== src/Crawler/Turns.antt =====
-- The steps of a worker of examples/webcrawler keep its wait groups, and lose no link.
use mathlib.Core.Path.{subst}
use text.Mathlib.TextEquality.{eq_iff}
use text.Mathlib.Text.{◌==◌ as str_eq}
use go_concurrency_examples.Base.{
  Bool-cases, List, String, [], ap, arith, false, get_elem?, inl, inr, is_empty, le-sum_below,
  length, none, refl, some, suc, sym, true, update, zero, ℕ, ◌&&◌, ◌++◌, ◌+◌, ◌-◌, ◌<◌, ◌==◌, ◌∙◌,
  ◌∷◌, ◌≡◌, ◌≤◌, ◌⊎◌,
}
use go_concurrency_examples.Crawler.Waits.{Counted, Follows, Kept, alive, busy, owes}
use go_concurrency_examples.Crawler.{
  Crawler, Job, Worker, contains, enqueue, fetching, finishing, following, go_to, is_closed,
  remove_at, starting, stopped, waiting,
}
use go_concurrency_examples.Crawler.Links.{
  enqueue-Same, enqueue-jobs_of, jobs_of-remove_at, length-remove_at, times-snoc,
}
use go_concurrency_examples.Crawler.Visits.{held}

-- Two crawlers that differ in their wait groups and errors at most.
pub record Alike {E : Type 0} (c b : Crawler E) : Type 0 where
  pub ctx : b.ctx ≡ c.ctx
  pub senders : b.senders ≡ c.senders
  pub scheduled : b.scheduled ≡ c.scheduled
  pub fetched : b.fetched ≡ c.fetched
  pub visits : b.visits ≡ c.visits
  pub workers : b.workers ≡ c.workers
  pub main : b.main ≡ c.main

pub itself : {E : Type 0} (c : Crawler E) → Alike c c
itself c = record {
  ctx = refl;
  senders = refl;
  scheduled = refl;
  fetched = refl;
  visits = refl;
  workers = refl;
  main = refl;
}

pub enqueue-grows :
    {E : Type 0} (max_depth : ℕ) (url : String) (depth : ℕ) (c : Crawler E) (u : String)
    → contains u c.scheduled ≡ true
    → contains u (enqueue max_depth url depth c).scheduled ≡ true
unfolding enqueue contains
enqueue-grows max_depth url depth c u h = ground (arith, h)

pub enqueue-adds :
    {E : Type 0} (max_depth : ℕ) (url : String) (depth : ℕ) (c : Crawler E)
    → is_empty url ≡ false
    → depth ≤ max_depth
    → contains url (enqueue max_depth url depth c).scheduled ≡ true
unfolding enqueue contains
enqueue-adds max_depth url depth c full le = ground (arith, full, eq_iff url url)

pub enqueue-pending :
    {E : Type 0} (max_depth : ℕ) (url : String) (depth : ℕ) (c : Crawler E)
    → (enqueue max_depth url depth c).pending + length c.senders
      ≡ c.pending + length (enqueue max_depth url depth c).senders
unfolding enqueue
enqueue-pending max_depth url depth c = ground arith

module _ {E : Type 0} (fetch : String → List String ⊎ E) (max_depth : ℕ) (start : String) where
  module _ {n id : ℕ} {c : Crawler E} (inv : Counted fetch max_depth start n c) where
    pub Alike-Kept :
        {w w' : Worker} (b : Crawler E)
        → Alike c b
        → b.pending + busy w ≡ c.pending + busy w'
        → b.running + alive w ≡ c.running + alive w'
        → (is_closed c.main ≡ false → alive w' ≡ alive w)
        → (is_closed c.main ≡ true → c.pending ≡ 0 → b.pending ≡ 0)
        → ((u : String) → c.ctx ≡ none → held u w ≤ held u w')
        → ((j : Job) (l : String) → Follows fetch max_depth start j l → owes j l w ≤ owes j l w')
        → Kept fetch max_depth start id c (go_to id w' b) w w'
    unfolding go_to
    Alike-Kept {w} {w'} b a pending running on idle holds owed = record {
      places = ap (λ ws. update ws id w') a.workers;
      same_main = a.main;
      same_ctx = a.ctx;
      pending_moved = rw a.senders (omega (arith, pending));
      running_moved = running;
      stays_alive = on;
      idle_stays = idle;
      visits_moved = λ u. rw (a.fetched, a.visits) (inv.visited u);
      schedule_grows = λ u h. rw a.scheduled h;
      jobs_moved = λ u free. rw (a.fetched, a.senders, a.scheduled) (omega (arith, holds u free));
      covers = λ i j l at follows.
          inr (inr (i, ap (λ vs. get_elem? vs i) (sym a.visits) ∙ at, owed j l follows));
    }

    -- A worker that returns, and one whose job is done.
    pub stop-Kept :
        id < n
        → c.workers id ≡ waiting
        → is_closed c.main ≡ true
        → Kept fetch max_depth start id c
            (go_to id stopped (record c { running = c.running - 1 }))
            waiting
            stopped
    stop-Kept lt is over =
        let mine = le-sum_below (λ i. alive (c.workers i)) n id lt in
        let one = ap alive is in
        Alike-Kept (record c { running = c.running - 1 })
          (record {
            ctx = refl;
            senders = refl;
            scheduled = refl;
            fetched = refl;
            visits = refl;
            workers = refl;
            main = refl;
          })
          (omega arith) (omega (arith, inv.running_counted, mine, one)) (λ on. cc) (λ o idle. idle)
          (λ u free. omega arith) (λ j l follows. omega arith)

    pub finish-Kept :
        id < n
        → c.workers id ≡ finishing
        → Kept fetch max_depth start id c
            (go_to id waiting (record c { pending = c.pending - 1 }))
            finishing
            waiting
    finish-Kept lt is =
        let mine = le-sum_below (λ i. busy (c.workers i)) n id lt in
        let one = ap busy is in
        Alike-Kept (record c { pending = c.pending - 1 })
          (record {
            ctx = refl;
            senders = refl;
            scheduled = refl;
            fetched = refl;
            visits = refl;
            workers = refl;
            main = refl;
          })
          (omega (arith, inv.pending_counted, mine, one)) (omega arith) (λ on. refl)
          (λ o idle. omega (arith, idle)) (λ u free. omega arith) (λ j l follows. omega arith)

    pub receive-Kept :
        (k : ℕ) (j : Job)
        → get_elem? c.senders k ≡ some j
        → Kept fetch max_depth start id c
            (go_to id (starting j) (record c { senders = remove_at k c.senders }))
            waiting
            (starting j)
    unfolding go_to
    receive-Kept k j at = record {
      places = refl;
      same_main = refl;
      same_ctx = refl;
      pending_moved = omega (arith, length-remove_at k j c.senders at);
      running_moved = omega arith;
      stays_alive = λ on. refl;
      idle_stays = λ o idle. idle;
      visits_moved = inv.visited;
      schedule_grows = λ u h. h;
      jobs_moved = λ u free. omega (arith, jobs_of-remove_at u k j c.senders at);
      covers = λ i v l at_i follows. inr (inr (i, at_i, omega arith));
    }

    pub visit-Kept :
        (j : Job)
        → Kept fetch max_depth start id c
            (go_to id
              (fetching j)
              (record c { fetched = c.fetched ++ j.url ∷ []; visits = j ∷ c.visits }))
            (starting j)
            (fetching j)
    unfolding go_to
    visit-Kept j = record {
      places = refl;
      same_main = refl;
      same_ctx = refl;
      pending_moved = omega arith;
      running_moved = omega arith;
      stays_alive = λ on. refl;
      idle_stays = λ o idle. idle;
      visits_moved = λ u. omega (arith, inv.visited u, times-snoc u c.fetched j.url);
      schedule_grows = λ u h. h;
      jobs_moved = λ u free. omega (arith, times-snoc u c.fetched j.url);
      covers = visit-covers j;
    }
      where
        visit-covers :
            (j : Job) (i : ℕ) (v : Job) (l : String)
            → get_elem? (j ∷ c.visits) i ≡ some v
            → Follows fetch max_depth start v l
            → (contains l c.scheduled ≡ true)
              ⊎ (0 < owes v l (fetching j))
              ⊎ ((k : ℕ) × (get_elem? c.visits k ≡ some v)
                  × (owes v l (starting j) ≤ owes v l (fetching j)))
        visit-covers j zero v l at follows = inr (inl (ground (arith, at, eq_iff j.url v.url)))
        visit-covers j (suc i) v l at follows = inr (inr (i, at, omega arith))

    pub follow-Kept :
        (x : String) (links : List String) (depth : ℕ)
        → is_closed c.main ≡ false
        → Kept fetch max_depth start id c
            (go_to id (following links depth) (enqueue max_depth x depth c))
            (following (x ∷ links) depth)
            (following links depth)
    unfolding go_to contains
    follow-Kept x links depth on =
        let same = enqueue-Same max_depth x depth c in
        record {
          places = ap (λ ws. update ws id (following links depth)) same.workers;
          same_main = same.main;
          same_ctx = same.ctx;
          pending_moved = omega (arith, enqueue-pending max_depth x depth c);
          running_moved = rw same.running (omega arith);
          stays_alive = λ on. refl;
          idle_stays = λ o idle. cc;
          visits_moved = λ u. rw (same.fetched, same.visits) (inv.visited u);
          schedule_grows = enqueue-grows max_depth x depth c;
          jobs_moved =
              λ u free. rw same.fetched (omega (arith, enqueue-jobs_of max_depth x depth c u));
          covers = λ i v l at follows. elim (Bool-cases (str_eq x l && (depth == suc v.depth))) [
            | inl now ↦
                let e : x ≡ l = ground (arith, now, eq_iff x l) in
                inl (
                  subst (λ y. contains y (enqueue max_depth x depth c).scheduled ≡ true) e
                    (enqueue-adds max_depth x depth c (ap is_empty e ∙ follows.not_empty)
                      (ground (arith, now, follows.above))))
            | inr later ↦
                inr
                  (inr (i, ap (λ vs. get_elem? vs i) (sym same.visits) ∙ at, ground (arith, later)))
          ];
        }
