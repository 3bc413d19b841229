-- ===== src/Crawler/Links.antt =====
-- Which pages a crawl of examples/webcrawler may visit, and what `enqueue` and the removal of a job
-- change.
use mathlib.Core.Path.{subst}
use text.Mathlib.TextEquality.{eq_iff}
use text.Mathlib.Text.{◌==◌ as str_eq}
use go_concurrency_examples.Base.{
  All, Bool-cases, List, String, [], arith, get_elem?, inl, inr, is_empty, length, ltb, refl, some,
  suc, to_num, zero, ℕ, ◌++◌, ◌+◌, ◌||◌, ◌∷◌, ◌≡◌, ◌≤◌, ◌⊎◌,
}
use go_concurrency_examples.Crawler.{Crawler, Job, contains, enqueue, remove_at}

-- A page at the end of a path of so many links from the start.
pub data Linked {E : Type 0} (fetch : String → List String ⊎ E) (start : String)
    : String → ℕ → Type 0 where
  at_start : Linked fetch start start 0
  by_link :
      {u v : String} {depth : ℕ} (links : List String) (i : ℕ)
      → Linked fetch start u depth
      → fetch u ≡ inl links
      → get_elem? links i ≡ some v
      → Linked fetch start v (suc depth)

-- How often a URL occurs among jobs, and in a list of URLs.
abbrev pub jobs_of : String → List Job → ℕ
jobs_of u [] = 0
jobs_of u (j ∷ js) = to_num (str_eq j.url u) + jobs_of u js

abbrev pub times : String → List String → ℕ
times u [] = 0
times u (x ∷ xs) = to_num (str_eq x u) + times u xs

pub times-snoc :
    (u : String) (xs : List String) (x : String)
    → times u (xs ++ x ∷ []) ≡ times u xs + to_num (str_eq x u)
times-snoc u [] x = omega arith
times-snoc u (y ∷ xs) x = omega (arith, times-snoc u xs x)

-- Every element of a list passes what all its indices pass.
pub All-of_get {κ} :
    {A : Type 0} (P : A → Type κ) (xs : List A)
    → ((i : ℕ) (x : A) → get_elem? xs i ≡ some x → P x)
    → All P xs
All-of_get P [] h = tt
All-of_get P (x ∷ xs) h = (h 0 x refl, All-of_get P xs (λ i y at. h (suc i) y at))

pub jobs_of-remove_at :
    (u : String) (k : ℕ) (j : Job) (js : List Job)
    → get_elem? js k ≡ some j
    → jobs_of u (remove_at k js) + to_num (str_eq j.url u) ≡ jobs_of u js
unfolding remove_at
jobs_of-remove_at u k j [] at = ground arith
jobs_of-remove_at u zero j (x ∷ js) at = ground arith
jobs_of-remove_at u (suc k) j (x ∷ js) at = omega (arith, jobs_of-remove_at u k j js at)

pub length-remove_at :
    (k : ℕ) (j : Job) (js : List Job)
    → get_elem? js k ≡ some j
    → suc (length (remove_at k js)) ≡ length js
unfolding remove_at
length-remove_at k j [] at = ground arith
length-remove_at zero j (x ∷ js) at = refl
length-remove_at (suc k) j (x ∷ js) at = omega (arith, length-remove_at k j js at)

pub All-remove_at {κ} :
    (P : Job → Type κ) (k : ℕ) (j : Job) (js : List Job)
    → get_elem? js k ≡ some j
    → All P js
    → P j × All P (remove_at k js)
unfolding remove_at
All-remove_at P k j [] at h = ground arith
All-remove_at P zero j (x ∷ js) at h = let e : x ≡ j = ground arith in (subst P e h.0, h.1)
All-remove_at P (suc k) j (x ∷ js) at h =
    let (p, rest) = All-remove_at P k j js at h.1 in (p, (h.0, rest))

-- `enqueue` adds a job for each URL that it marks as scheduled.
pub enqueue-jobs_of :
    {E : Type 0} (max_depth : ℕ) (url : String) (depth : ℕ) (c : Crawler E) (u : String)
    → jobs_of u (enqueue max_depth url depth c).senders + to_num (contains u c.scheduled)
      ≡ jobs_of u c.senders + to_num (contains u (enqueue max_depth url depth c).scheduled)
unfolding enqueue contains
enqueue-jobs_of max_depth url depth c u = ground (arith, eq_iff url u)

pub enqueue-All {κ} :
    {E : Type 0} (P : Job → Type κ) (max_depth : ℕ) (url : String) (depth : ℕ) (c : Crawler E)
    → All P c.senders
    → (depth ≤ max_depth → P (record { url = url; depth = depth }))
    → All P (enqueue max_depth url depth c).senders
unfolding enqueue
enqueue-All P max_depth url depth c h p =
    elim (Bool-cases (is_empty url || ltb max_depth depth || contains url c.scheduled)) [
      | inl e ↦ rw e h
      | inr e ↦ rw e (p (ground (arith, e)), h)
    ]

-- What `enqueue` leaves alone.
pub record Same {E : Type 0} (c d : Crawler E) : Type 0 where
  pub ctx : d.ctx ≡ c.ctx
  pub fetched : d.fetched ≡ c.fetched
  pub workers : d.workers ≡ c.workers
  pub visits : d.visits ≡ c.visits
  pub running : d.running ≡ c.running
  pub main : d.main ≡ c.main

pub enqueue-Same :
    {E : Type 0} (max_depth : ℕ) (url : String) (depth : ℕ) (c : Crawler E)
    → Same c (enqueue max_depth url depth c)
unfolding enqueue
enqueue-Same max_depth url depth c = ground arith
