-- ===== src/Crawler/Complete.antt =====
-- Crawl of examples/webcrawler stops when all work is done, not before, and never deadlocks.
use mathlib.Core.Path.{subst}
use go_concurrency_examples.Base.Dict.{insert}
use text.Mathlib.TextEquality.{eq_iff}
use go_concurrency_examples.Base.{
  Bool-cases, List, String, ap, arith, false, inl, inr, is_some, le-sum_below, leb, none, refl, suc,
  sym, ℕ, ◌<◌, ◌∙◌, ◌≡◌, ◌≤◌, ◌⊎◌, Option, [], get_elem?, some, ◌∷◌,
}
use go_concurrency_examples.Crawler.Turns.{
  Alike, Alike-Kept, itself, finish-Kept, follow-Kept, receive-Kept, stop-Kept, visit-Kept,
}
use go_concurrency_examples.Crawler.Waits.{Counted, Follows, Kept, alive, busy, owes}
use go_concurrency_examples.Crawler.{
  Crawler, Job, Worker, fetching, finishing, following, go_to, is_closed, respond, contains,
  receive, starting, stopped, waiting, work,
}
use go_concurrency_examples.Crawler.Visits.{held}

module _ {E : Type 0} (fetch : String → List String ⊎ E) (max_depth : ℕ) (start : String) where
  abbrev pub Good : ℕ → Crawler E → Type 0
  Good n c = Counted fetch max_depth start n c

  abbrev KeptBy : ℕ → Crawler E → Crawler E → Worker → Worker → Type 0
  KeptBy id c d w w' = Kept fetch max_depth start id c d w w'

  module _ {n id : ℕ} {c : Crawler E} (inv : Good n c) (lt : id < n) where
    open_busy : (w : Worker) → c.workers id ≡ w → busy w ≡ 1 → is_closed c.main ≡ false
    open_busy w is one = ground (
      arith,
      inv.pending_counted,
      inv.closed_idle,
      le-sum_below (λ i. busy (c.workers i)) n id lt,
      ap busy is,
    )

  module _ {n id : ℕ} {c d : Crawler E} (inv : Good n c) (lt : id < n) where
    -- A step that changes the worker alone.
    turn-Kept :
        (w w' : Worker) (b : Crawler E)
        → Alike c b
        → b.pending ≡ c.pending
        → b.running ≡ c.running
        → busy w ≡ 1
        → busy w' ≡ 1
        → alive w ≡ 1
        → alive w' ≡ 1
        → ((u : String) → c.ctx ≡ none → held u w ≤ held u w')
        → ((j : Job) (l : String) → Follows fetch max_depth start j l → owes j l w ≤ owes j l w')
        → go_to id w' b ≡ d
        → KeptBy id c d w w'
    turn-Kept w w' b a pending running one two three four holds owed is =
        subst (λ x. KeptBy id c x w w') is
          (Alike-Kept fetch max_depth start inv b a (omega (arith, pending, one, two))
            (omega (arith, running, three, four)) (λ on. three_eq) (λ o idle. pending ∙ idle) holds
            owed)
      where
        three_eq : alive w' ≡ alive w
        three_eq = four ∙ sym three

    respond-Kept :
        (j : Job) (response : List String ⊎ E)
        → fetch j.url ≡ response
        → respond max_depth id j response c ≡ d
        → (w' : Worker) × KeptBy id c d (fetching j) w'
    unfolding respond
    respond-Kept j (inr err) at e =
        let owed : (v : Job) (l : String)
            → Follows fetch max_depth start v l
            → owes v l (fetching j) ≤ owes v l finishing =
          λ v l f. ground (arith, at, f.fetched, eq_iff j.url v.url, ap fetch) in
        elim (Bool-cases (is_some c.ctx)) [
          | inl over ↦ (
            finishing,
            turn-Kept (fetching j) finishing c (itself c) refl refl refl refl refl refl
                (λ u free. omega arith) owed (ground (arith, over, e)),
          )
          | inr on ↦ (
            finishing,
            turn-Kept (fetching j) finishing (record c { errors = insert j.url err c.errors })
                (record {
                  ctx = refl;
                  senders = refl;
                  scheduled = refl;
                  fetched = refl;
                  visits = refl;
                  workers = refl;
                  main = refl;
                })
                refl refl refl refl refl refl (λ u free. omega arith) owed (ground (arith, on, e)),
          )
        ]
    respond-Kept j (inl links) at e = elim (Bool-cases (leb max_depth j.depth)) [
      | inl deep ↦ (
        finishing,
        turn-Kept (fetching j) finishing c (itself c) refl refl refl refl refl refl
            (λ u free. omega arith) (λ v l f. ground (arith, deep, f.above))
            (ground (arith, deep, e)),
      )
      | inr more ↦ (
        following links (suc j.depth),
        turn-Kept (fetching j) (following links (suc j.depth)) c (itself c) refl refl refl refl refl
            refl (λ u free. omega arith)
            (λ v l f. ground (arith, at, f.fetched, f.among, eq_iff j.url v.url, ap fetch))
            (ground (arith, more, e)),
      )
    ]

    receive-by :
        (k : ℕ) (job : Option Job)
        → get_elem? c.senders k ≡ job
        → receive id k job c ≡ some d
        → (w' : Worker) × KeptBy id c d waiting w'
    unfolding receive
    receive-by k none at e = ground arith
    receive-by k (some j) at e = (
      starting j,
      subst (λ x. KeptBy id c x waiting (starting j)) (ground (arith, e))
          (receive-Kept fetch max_depth start inv k j at),
    )

    pub work-Kept :
        (k : ℕ) (w : Worker)
        → c.workers id ≡ w
        → work fetch max_depth start id k w c ≡ some d
        → (w' : Worker) × KeptBy id c d w w'
    unfolding work
    work-Kept k waiting is e = elim (Bool-cases (is_closed c.main)) [
      | inl over ↦ (
        stopped,
        subst (λ x. KeptBy id c x waiting stopped) (ground (arith, over, e))
            (stop-Kept fetch max_depth start inv lt is over),
      )
      | inr on ↦ receive-by k (get_elem? c.senders k) refl (ground (arith, on, e))
    ]
    work-Kept k (starting j) is e = elim (Bool-cases (is_some c.ctx)) [
      | inl over ↦ (
        finishing,
        turn-Kept (starting j) finishing c (itself c) refl refl refl refl refl refl
            (λ u free. ground (arith, over, free)) (λ v l f. omega arith) (ground (arith, over, e)),
      )
      | inr on ↦ (
        fetching j,
        subst (λ x. KeptBy id c x (starting j) (fetching j)) (ground (arith, on, e))
            (visit-Kept fetch max_depth start inv j),
      )
    ]
    work-Kept k (fetching j) is e = respond-Kept j (fetch j.url) refl (ground (arith, e))
    work-Kept k (following [] depth) is e = (
      finishing,
      turn-Kept (following [] depth) finishing c (itself c) refl refl refl refl refl refl
          (λ u free. omega arith) (λ v l f. unfold contains in ground arith) (ground (arith, e)),
    )
    work-Kept k (following (link ∷ links) depth) is e = (
      following links depth,
      subst (λ x. KeptBy id c x (following (link ∷ links) depth) (following links depth))
          (ground (arith, e))
          (follow-Kept fetch max_depth start inv link links depth
            (open_busy inv lt (following (link ∷ links) depth) is refl)),
    )
    work-Kept k finishing is e = (
      waiting,
      subst (λ x. KeptBy id c x finishing waiting) (ground (arith, e))
          (finish-Kept fetch max_depth start inv lt is),
    )
    work-Kept k stopped is e = ground (arith, e)
