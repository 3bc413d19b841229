-- ===== src/Crawler/Workers.antt =====
-- The steps of a worker of examples/webcrawler keep what its visits promise.
use mathlib.Core.Path.{subst}
use go_concurrency_examples.Base.{
  All, Bool-cases, List, Option, String, [], ap, arith, get_elem?, inl, inr, is_some, leb, none,
  refl, some, suc, sym, update, ℕ, ◌++◌, ◌-◌, ◌∷◌, ◌≡◌, ◌⊎◌, All-snoc,
}
use go_concurrency_examples.Crawler.Links.{
  All-of_get, All-remove_at, Linked, by_link, enqueue-All, enqueue-Same, enqueue-jobs_of,
  jobs_of-remove_at, times-snoc,
}
use go_concurrency_examples.Crawler.{
  Crawler, Job, Worker, enqueue, fetching, finishing, following, go_to, is_closed, receive,
  remove_at, respond, starting, stopped, waiting, work,
}
use go_concurrency_examples.Crawler.Visits.{Inv, IsPage, Moved, Within, WorksWithin}

module _ {E : Type 0} (fetch : String → List String ⊎ E) (max_depth : ℕ) (start : String) where
  module _ {n id : ℕ} {c d : Crawler E} (inv : Inv fetch max_depth start n c) where
    receive-Moved :
        (k : ℕ) (job : Option Job)
        → get_elem? c.senders k ≡ job
        → receive id k job c ≡ some d
        → (w' : Worker) × Moved fetch max_depth start id c d waiting w'
    unfolding receive go_to
    receive-Moved k none at e = ground arith
    receive-Moved k (some j) at e =
        let (mine, rest) =
          All-remove_at (Within fetch max_depth start) k j c.senders at inv.jobs_within in
        let is : go_to id (starting j) (record c { senders = remove_at k c.senders }) ≡ d =
          ground arith in
        (
          starting j,
          subst (λ x. Moved fetch max_depth start id c x waiting (starting j)) is
              (record {
                places = refl;
                counts = λ u. omega (arith, jobs_of-remove_at u k j c.senders at);
                jobs_stay = rest;
                works = mine;
                pages_stay = inv.pages;
              }),
        )

    starting-Moved :
        (k : ℕ) (j : Job)
        → Within fetch max_depth start j
        → work fetch max_depth start id k (starting j) c ≡ some d
        → (w' : Worker) × Moved fetch max_depth start id c d (starting j) w'
    unfolding work go_to
    starting-Moved k j within e = elim (Bool-cases (is_some c.ctx)) [
      | inl over ↦
          let is : go_to id finishing c ≡ d = ground arith in
          (
            finishing,
            subst (λ x. Moved fetch max_depth start id c x (starting j) finishing) is
                (record {
                  places = refl;
                  counts = λ u. omega arith;
                  jobs_stay = inv.jobs_within;
                  works = tt;
                  pages_stay = inv.pages;
                }),
          )
      | inr on ↦
          let is : go_to id (fetching j)
                (record c { fetched = c.fetched ++ j.url ∷ []; visits = j ∷ c.visits })
              ≡ d =
            ground arith in
          (
            fetching j,
            subst (λ x. Moved fetch max_depth start id c x (starting j) (fetching j)) is
                (record {
                  places = refl;
                  counts = λ u. omega (arith, times-snoc u c.fetched j.url);
                  jobs_stay = inv.jobs_within;
                  works = within;
                  pages_stay =
                      All-snoc (IsPage fetch max_depth start) c.fetched j.url inv.pages
                        (j.depth, within.0, within.1);
                }),
          )
    ]

    -- After `Fetch` the worker goes through the links, one link further from the start, or ends.
    fetching-Moved :
        (k : ℕ) (j : Job) (response : List String ⊎ E)
        → fetch j.url ≡ response
        → Within fetch max_depth start j
        → respond max_depth id j response c ≡ d
        → (w' : Worker) × Moved fetch max_depth start id c d (fetching j) w'
    unfolding respond go_to
    fetching-Moved k j (inr err) at within e = (
      finishing,
      subst (λ x. Moved fetch max_depth start id c x (fetching j) finishing) e
          (elim (Bool-cases (is_some c.ctx)) [
            | inl over ↦ rw over (record {
              places = refl;
              counts = λ u. omega arith;
              jobs_stay = inv.jobs_within;
              works = tt;
              pages_stay = inv.pages;
            })
            | inr on ↦ rw on (record {
              places = refl;
              counts = λ u. omega arith;
              jobs_stay = inv.jobs_within;
              works = tt;
              pages_stay = inv.pages;
            })
          ]),
    )
    fetching-Moved k j (inl links) at within e = elim (Bool-cases (leb max_depth j.depth)) [
      | inl deep ↦
          let is : go_to id finishing c ≡ d = ground (arith, deep, e) in
          (
            finishing,
            subst (λ x. Moved fetch max_depth start id c x (fetching j) finishing) is
                (record {
                  places = refl;
                  counts = λ u. omega arith;
                  jobs_stay = inv.jobs_within;
                  works = tt;
                  pages_stay = inv.pages;
                }),
          )
      | inr more ↦
          let is : go_to id (following links (suc j.depth)) c ≡ d = ground (arith, more, e) in
          (
            following links (suc j.depth),
            subst
                (λ x.
                  Moved fetch max_depth start id c x (fetching j) (following links (suc j.depth)))
                is
                (record {
                  places = refl;
                  counts = λ u. omega arith;
                  jobs_stay = inv.jobs_within;
                  works =
                      All-of_get (λ u. Linked fetch start u (suc j.depth)) links
                        (λ i u get. by_link links i within.0 at get);
                  pages_stay = inv.pages;
                }),
          )
    ]

  module _ {n id : ℕ} {c : Crawler E} (inv : Inv fetch max_depth start n c) where
    following-Moved :
        (link : String) (links : List String) (depth : ℕ)
        → WorksWithin fetch max_depth start (following (link ∷ links) depth)
        → Moved fetch max_depth start id c
            (go_to id (following links depth) (enqueue max_depth link depth c))
            (following (link ∷ links) depth)
            (following links depth)
    unfolding go_to
    following-Moved link links depth h =
        let same = enqueue-Same max_depth link depth c in
        record {
          places = ap (λ ws. update ws id (following links depth)) same.workers;
          counts = λ u. rw same.fetched (omega (arith, enqueue-jobs_of max_depth link depth c u));
          jobs_stay =
              enqueue-All (Within fetch max_depth start) max_depth link depth c inv.jobs_within
                (λ le. (h.0, le));
          works = h.1;
          pages_stay = subst (All (IsPage fetch max_depth start)) (sym same.fetched) inv.pages;
        }

  module _ {n id : ℕ} {c d : Crawler E} (inv : Inv fetch max_depth start n c) where
    pub work-Moved :
        (k : ℕ) (w : Worker)
        → WorksWithin fetch max_depth start w
        → work fetch max_depth start id k w c ≡ some d
        → (w' : Worker) × Moved fetch max_depth start id c d w w'
    unfolding work go_to
    work-Moved k waiting h e = elim (Bool-cases (is_closed c.main)) [
      | inl over ↦
          let is : go_to id stopped (record c { running = c.running - 1 }) ≡ d =
            ground (arith, over, e) in
          (
            stopped,
            subst (λ x. Moved fetch max_depth start id c x waiting stopped) is
                (record {
                  places = refl;
                  counts = λ u. omega arith;
                  jobs_stay = inv.jobs_within;
                  works = tt;
                  pages_stay = inv.pages;
                }),
          )
      | inr on ↦ receive-Moved inv k (get_elem? c.senders k) refl (ground (arith, on, e))
    ]
    work-Moved k (starting j) h e = starting-Moved inv k j h e
    work-Moved k (fetching j) h e = fetching-Moved inv k j (fetch j.url) refl h (ground (arith, e))
    work-Moved k (following [] depth) h e =
        let is : go_to id finishing c ≡ d = ground (arith, e) in
        (
          finishing,
          subst (λ x. Moved fetch max_depth start id c x (following [] depth) finishing) is
              (record {
                places = refl;
                counts = λ u. omega arith;
                jobs_stay = inv.jobs_within;
                works = tt;
                pages_stay = inv.pages;
              }),
        )
    work-Moved k (following (link ∷ links) depth) h e =
        let is : go_to id (following links depth) (enqueue max_depth link depth c) ≡ d =
          ground (arith, e) in
        (
          following links depth,
          subst
              (λ x.
                Moved fetch max_depth start id c x (following (link ∷ links) depth)
                  (following links depth))
              is (following-Moved inv link links depth h),
        )
    work-Moved k finishing h e =
        let is : go_to id waiting (record c { pending = c.pending - 1 }) ≡ d = ground (arith, e) in
        (
          waiting,
          subst (λ x. Moved fetch max_depth start id c x finishing waiting) is
              (record {
                places = refl;
                counts = λ u. omega arith;
                jobs_stay = inv.jobs_within;
                works = tt;
                pages_stay = inv.pages;
              }),
        )
    work-Moved k stopped h e = ground (arith, e)
