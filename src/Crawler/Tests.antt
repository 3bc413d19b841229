-- ===== src/Crawler/Tests.antt =====
-- A page that is two links from the start and first scheduled at depth three.
use text.Mathlib.Text.{◌==◌ as str_eq}
use go_concurrency_examples.Base.{
  List, Option, Ran, String, [], arith, execute, here, if◌then◌else◌, inl, inr, ltb, none, refl,
  some, ℕ, ◌++◌, ◌∷◌, ◌≡◌, ◌⊎◌, All, false, get_elem?, is_empty, length, sum_below, true, ◌<◌, ◌≤◌,
}
use go_concurrency_examples.Crawler.{
  Choice, Crawler, Step, act, contains, enqueue, give_up, go_to, goroutine, initial, is_closed,
  main_step, main_turn, receive, remove_at, respond, returned, sender_done, work, worker, Job,
}
use go_concurrency_examples.Crawler.Ends.{CanStep, crawl_completes, crawl_progress}
use go_concurrency_examples.Crawler.Waits.{Follows, busy}
use go_concurrency_examples.Crawler.Visits.{IsPage}
use go_concurrency_examples.Crawler.Once.{crawl_fetches}
use go_concurrency_examples.Crawler.Links.{times}

-- s links to a and b, a to c, b and c to q, q to r: r is three links from s.
abbrev web : String → List String ⊎ ℕ
web u =
    if str_eq u "s"
    then inl ("a" ∷ "b" ∷ [])
    else if str_eq u "a"
    then inl ("c" ∷ [])
    else if str_eq u "b"
    then inl ("q" ∷ [])
    else if str_eq u "c"
    then inl ("q" ∷ [])
    else if str_eq u "q"
    then inl ("r" ∷ [])
    else inr 404

abbrev can : (x : Choice) (c : Crawler ℕ) → Option (Crawler ℕ)
can (worker id k) c = if ltb id 2 then act web 3 "s" (worker id k) c else none
can (sender_done k) c = act web 3 "s" (sender_done k) c
can main_turn c = act web 3 "s" main_turn c

can-Step : (x : Choice) (c d : Crawler ℕ) → can x c ≡ some d → Step web 3 "s" 2 c d
can-Step (worker id k) c d e = goroutine (worker id k) (ground arith) (ground arith)
can-Step (sender_done k) c d e = goroutine (sender_done k) tt e
can-Step main_turn c d e = goroutine main_turn tt e

abbrev play : List Choice → Ran (Step web 3 "s" 2) (initial 2)
play xs = execute can can-Step (record { last = initial 2; reach = here }) xs

-- A worker fetches a page with one link from start to end.
abbrev one_page : ℕ → List Choice
one_page id = worker id 0 ∷ worker id 0 ∷ worker id 0 ∷ worker id 0 ∷ worker id 0 ∷ worker id 0 ∷ []

-- Worker 0 fetches s, a, c and q while worker 1 is in the fetch of b, and so q has depth 3.
abbrev slow_b : Ran (Step web 3 "s" 2) (initial 2)
slow_b = play (
    main_turn
      ∷ worker 0 0
      ∷ worker 0 0
      ∷ worker 0 0
      ∷ worker 0 0
      ∷ worker 0 0
      ∷ worker 0 0
      ∷ worker 0 0
      ∷ worker 1 0
      ∷ worker 1 0
      ∷ one_page 0
    ++ one_page 0
    ++ (worker 0 0
        ∷ worker 0 0
        ∷ worker 0 0
        ∷ worker 0 0
        ∷ worker 1 0
        ∷ worker 1 0
        ∷ worker 1 0
        ∷ worker 1 0
        ∷ main_turn
        ∷ worker 0 0
        ∷ worker 1 0
        ∷ main_turn
        ∷ []))

slow_b_ends :
    (slow_b.last.main ≡ returned) × (slow_b.last.fetched ≡ "s" ∷ "b" ∷ "a" ∷ "c" ∷ "q" ∷ [])
unfolding execute act initial work receive go_to respond enqueue contains remove_at give_up
    main_step is_closed
slow_b_ends = (refl, refl)

slow_b_over : is_closed slow_b.last.main ≡ true
unfolding execute act initial work receive go_to respond enqueue contains remove_at give_up
    main_step is_closed
slow_b_over = refl

crawl_fetches_example :
    ((u : String) → times u slow_b.last.fetched ≤ 1) × All (IsPage web 3 "s") slow_b.last.fetched
crawl_fetches_example = crawl_fetches web 3 "s" slow_b.reach

crawl_completes_example :
    let c = slow_b.last in
    (length c.senders ≡ 0)
    × (sum_below (λ i. busy (c.workers i)) 2 ≡ 0)
    × (c.ctx ≡ none → is_empty "s" ≡ false → 0 < times "s" c.fetched)
    × ((i : ℕ) (j : Job) (l : String)
        → c.ctx ≡ none
        → get_elem? c.visits i ≡ some j
        → Follows web 3 "s" j l
        → 0 < times l c.fetched)
crawl_completes_example = crawl_completes web 3 "s" slow_b.reach slow_b_over

-- While worker 1 is in the fetch of b and worker 0 waits for its second page.
abbrev midway : Ran (Step web 3 "s" 2) (initial 2)
midway = play (main_turn ∷ worker 0 0 ∷ worker 0 0 ∷ worker 0 0 ∷ worker 0 0 ∷ worker 0 0 ∷ [])

crawl_progress_example : (midway.last.main ≡ returned) ⊎ CanStep web 3 "s" 2 midway.last
crawl_progress_example = crawl_progress web 3 "s" (omega arith) midway.reach
