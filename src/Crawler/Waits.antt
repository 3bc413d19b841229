-- ===== src/Crawler/Waits.antt =====
-- The wait groups of examples/webcrawler count what they should, and every link of a page that was
-- fetched above the maximal depth is scheduled.
use text.Mathlib.Text.{◌==◌ as str_eq}
use go_concurrency_examples.Base.{
  List, String, ap, arith, false, get_elem?, inl, inr, is_empty, le-sum_below, length, none, some,
  suc, sum_below, sum_below-update, sym, to_num, true, update, ℕ, ◌&&◌, ◌+◌, ◌<◌, ◌==◌, ◌∙◌, ◌≡◌,
  ◌≢◌, ◌≤◌, ◌⊎◌,
}
use go_concurrency_examples.Crawler.{
  Crawler, Job, Worker, contains, enqueueing, fetching, finishing, following, is_closed, starting,
  stopped, waiting,
}
use go_concurrency_examples.Crawler.Visits.{held}
use go_concurrency_examples.Crawler.Links.{jobs_of, times}

-- 1 for a worker with a job that is pending, and for one that has not returned.
abbrev pub busy : Worker → ℕ
busy waiting = 0
busy (starting j) = 1
busy (fetching j) = 1
busy (following links depth) = 1
busy finishing = 1
busy stopped = 0

abbrev pub alive : Worker → ℕ
alive stopped = 0
alive _ = 1

-- 1 if the worker has still to enqueue the link `l` of the page that it visited as job `j`.
abbrev pub owes : Job → String → Worker → ℕ
owes j l (fetching i) = to_num (str_eq i.url j.url && (i.depth == j.depth))
owes j l (following links depth) = to_num (contains l links && (depth == suc j.depth))
owes j l _ = 0

module _ {E : Type 0} (fetch : String → List String ⊎ E) (max_depth : ℕ) (start : String) where
  -- The job `j` is above the maximal depth, and its page has the link `l`.
  pub record Follows (j : Job) (l : String) : Type 0 where
    pub links : List String
    pub fetched : fetch j.url ≡ inl links
    pub among : contains l links ≡ true
    pub not_empty : is_empty l ≡ false
    pub above : j.depth < max_depth

  pub record Counted (n : ℕ) (c : Crawler E) : Type 0 where
    pub pending_counted : c.pending ≡ length c.senders + sum_below (λ i. busy (c.workers i)) n
    pub running_counted : c.running ≡ sum_below (λ i. alive (c.workers i)) n
    pub closed_idle : is_closed c.main ≡ true → c.pending ≡ 0
    pub open_alive : is_closed c.main ≡ false → c.running ≡ n
    pub visited : (u : String) → times u c.fetched ≡ jobs_of u c.visits
    pub accounted :
        (u : String)
        → c.ctx ≡ none
        → to_num (contains u c.scheduled)
          ≤ times u c.fetched + sum_below (λ i. held u (c.workers i)) n + jobs_of u c.senders
    pub covered :
        (i : ℕ) (j : Job) (l : String)
        → c.ctx ≡ none
        → get_elem? c.visits i ≡ some j
        → Follows j l
        → (contains l c.scheduled ≡ true) ⊎ (0 < sum_below (λ i. owes j l (c.workers i)) n)
    pub begun : c.main ≢ enqueueing → is_empty start ≡ false → contains start c.scheduled ≡ true

  -- What a step of worker `id` from `w` to `w'` does.
  pub record Kept (id : ℕ) (c d : Crawler E) (w w' : Worker) : Type 0 where
    pub places : d.workers ≡ update c.workers id w'
    pub same_main : d.main ≡ c.main
    pub same_ctx : d.ctx ≡ c.ctx
    pub pending_moved :
        d.pending + length c.senders + busy w ≡ c.pending + length d.senders + busy w'
    pub running_moved : d.running + alive w ≡ c.running + alive w'
    pub stays_alive : is_closed c.main ≡ false → alive w' ≡ alive w
    pub idle_stays : is_closed c.main ≡ true → c.pending ≡ 0 → d.pending ≡ 0
    pub visits_moved : (u : String) → times u d.fetched ≡ jobs_of u d.visits
    pub schedule_grows :
        (u : String) → contains u c.scheduled ≡ true → contains u d.scheduled ≡ true
    pub jobs_moved :
        (u : String)
        → c.ctx ≡ none
        → times u c.fetched + held u w + jobs_of u c.senders + to_num (contains u d.scheduled)
          ≤ times u d.fetched + held u w' + jobs_of u d.senders + to_num (contains u c.scheduled)
    pub covers :
        (i : ℕ) (j : Job) (l : String)
        → get_elem? d.visits i ≡ some j
        → Follows j l
        → (contains l d.scheduled ≡ true)
          ⊎ (0 < owes j l w')
          ⊎ ((k : ℕ) × (get_elem? c.visits k ≡ some j) × (owes j l w ≤ owes j l w'))

  module _ {n id : ℕ} {c d : Crawler E} {w' : Worker} (inv : Counted n c) (lt : id < n)
      (m : Kept id c d (c.workers id) w') where
    covered-moved :
        (i : ℕ) (j : Job) (l : String)
        → c.ctx ≡ none
        → get_elem? d.visits i ≡ some j
        → Follows j l
        → (contains l d.scheduled ≡ true)
          ⊎ (0 < sum_below (λ k. owes j l (update c.workers id w' k)) n)
    covered-moved i j l free at follows =
        let sums = sum_below-update (λ _. owes j l) n c.workers id w' lt in
        let before = le-sum_below (λ k. owes j l (c.workers k)) n id lt in
        elim (m.covers i j l at follows) [
          | inl there ↦ inl there
          | inr (inl mine) ↦ inr (omega (arith, sums, before))
          | inr (inr (k, was, more)) ↦ elim (inv.covered k j l free was follows) [
            | inl there ↦ inl (m.schedule_grows l there)
            | inr owed ↦ inr (omega (arith, sums, before))
          ]
        ]

    pub Kept-Counted : Counted n d
    Kept-Counted = record {
      pending_counted = rw m.places (
          omega (
            arith,
            inv.pending_counted,
            m.pending_moved,
            sum_below-update (λ _. busy) n c.workers id w' lt,
          ));
      running_counted = rw m.places (
          omega (
            arith,
            inv.running_counted,
            m.running_moved,
            sum_below-update (λ _. alive) n c.workers id w' lt,
          ));
      closed_idle = λ over.
          let was = ap is_closed (sym m.same_main) ∙ over in m.idle_stays was (inv.closed_idle was);
      open_alive = λ on.
          let was = ap is_closed (sym m.same_main) ∙ on in
          omega (arith, inv.open_alive was, m.running_moved, m.stays_alive was);
      visited = m.visits_moved;
      accounted = λ u free.
          let was = sym m.same_ctx ∙ free in
          rw m.places (
            omega (
              arith,
              inv.accounted u was,
              m.jobs_moved u was,
              sum_below-update (λ _. held u) n c.workers id w' lt,
            ));
      covered = λ i j l free at follows.
          rw m.places (covered-moved i j l (sym m.same_ctx ∙ free) at follows);
      begun = λ ne full. m.schedule_grows start (inv.begun (λ e. ne (m.same_main ∙ e)) full);
    }
