-- ===== src/Crawler/Visits.antt =====
-- Which pages workers of examples/webcrawler fetch: each at most once, and none that is not linked
-- from the start within the depth.
use mathlib.Core.Path.{subst}
use text.Mathlib.Text.{◌==◌ as str_eq}
use go_concurrency_examples.Base.{
  All, List, String, arith, sum_below, sum_below-update, to_num, update, ℕ, ℕ_discrete, ◌+◌, ◌<◌,
  ◌≡◌, ◌≤◌, ◌⊎◌,
}
use go_concurrency_examples.Crawler.Links.{Linked, jobs_of, times}
use go_concurrency_examples.Crawler.{Crawler, Job, Worker, contains, fetching, following, starting}

-- 1 if the worker has a job for this URL that it has not looked at.
abbrev pub held : String → Worker → ℕ
held u (starting j) = to_num (str_eq j.url u)
held u _ = 0

module _ {E : Type 0} (fetch : String → List String ⊎ E) (max_depth : ℕ) (start : String) where
  -- A job that the crawl may make, a page that it may fetch, and a worker with such jobs.
  abbrev pub Within : Job → Type 0
  Within j = Linked fetch start j.url j.depth × (j.depth ≤ max_depth)

  abbrev pub IsPage : String → Type 0
  IsPage u = (depth : ℕ) × Linked fetch start u depth × (depth ≤ max_depth)

  abbrev pub WorksWithin : Worker → Type 0
  WorksWithin (starting j) = Within j
  WorksWithin (fetching j) = Within j
  WorksWithin (following links depth) = All (λ u. Linked fetch start u depth) links
  WorksWithin _ = Unit {0}

  pub record Inv (n : ℕ) (c : Crawler E) : Type 0 where
    pub once :
        (u : String)
        → times u c.fetched + sum_below (λ i. held u (c.workers i)) n + jobs_of u c.senders
          ≤ to_num (contains u c.scheduled)
    pub jobs_within : All Within c.senders
    pub workers_within : (i : ℕ) → WorksWithin (c.workers i)
    pub pages : All IsPage c.fetched

  -- What a step of worker `id` from `w` to `w'` does.
  pub record Moved (id : ℕ) (c d : Crawler E) (w w' : Worker) : Type 0 where
    pub places : d.workers ≡ update c.workers id w'
    pub counts :
        (u : String)
        → times u d.fetched + jobs_of u d.senders + held u w' + to_num (contains u c.scheduled)
          ≤ times u c.fetched + jobs_of u c.senders + held u w + to_num (contains u d.scheduled)
    pub jobs_stay : All Within d.senders
    pub works : WorksWithin w'
    pub pages_stay : All IsPage d.fetched

  module _ {n id : ℕ} {c d : Crawler E} {w' : Worker} (inv : Inv n c) (lt : id < n)
      (m : Moved id c d (c.workers id) w') where
    Works-moved : (i : ℕ) → WorksWithin (d.workers i)
    Works-moved i = rw m.places (elim (ℕ_discrete i id) [
      | yes e ↦ subst WorksWithin (ground (arith, e)) m.works
      | no ne ↦ subst WorksWithin (ground (arith, ne)) (inv.workers_within i)
    ])

    pub Moved-Inv : Inv n d
    Moved-Inv = record {
      once = λ u. rw m.places (
          omega
            (arith, inv.once u, m.counts u, sum_below-update (λ _. held u) n c.workers id w' lt));
      jobs_within = m.jobs_stay;
      workers_within = Works-moved;
      pages = m.pages_stay;
    }
