-- ===== src/Crawler.antt =====
-- examples/webcrawler/crawler.go. The fetcher is a parameter: the links of a page, or an error. A
-- critical section, a channel operation or a change of a wait group is one step; so is `enqueue`,
-- whose caller has a pending job of its own all the while.
mod Links
mod Visits
mod Workers
mod Once
mod Waits
mod Turns
mod Complete
mod Crawl
mod Ends
mod Tests
use go_concurrency_examples.Base.Dict.{insert}
use go_concurrency_examples.Base.Int.{ℤ, pos, leb_ℤ, ltb_ℤ}
use text.Mathlib.Text.{◌==◌ as str_eq}
use go_concurrency_examples.Base.{
  Bool, Context, CtxError, List, Option, String, [], false, get_elem?, if◌then◌else◌, inl, inr,
  is_empty, is_some, leb, ltb, none, not, some, suc, true, update, zero, ℕ, ◌++◌, ◌-◌, ◌<◌, ◌==◌,
  ◌||◌, ◌∷◌, ◌≡◌, ◌⊎◌,
}

pub data Error : Type 0 where
  empty_start nil_fetcher : Error
  depth_negative workers_not_positive : ℤ → Error
  ctx_error : CtxError → Error

pub record Job : Type 0 where
  pub url : String
  pub depth : ℕ

-- A worker: waiting for a job, with a job, in `Fetch`, in the loop over the links that it returned,
-- before `pending.Done`, and after its return.
pub data Worker : Type 0 where
  waiting : Worker
  starting : Job → Worker
  fetching : Job → Worker
  following : List String → ℕ → Worker
  finishing : Worker
  stopped : Worker

-- `Crawl`: before its call of `enqueue`, in `pending.Wait`, in `workerWG.Wait` after the close of
-- the channel of jobs, and after that.
pub data Main : Type 0 where
  enqueueing pending_wait worker_wait returned : Main

-- `senders` are the goroutines that `enqueue` started and that wait to send their job. `visits`
-- records, for the statements, the jobs whose URLs are in `fetched`.
pub record Crawler (E : Type 0) : Type 0 where
  pub ctx : Context
  pub senders : List Job
  pub pending : ℕ
  pub scheduled : List String
  pub fetched : List String
  pub errors : List (String × E)
  pub workers : ℕ → Worker
  pub running : ℕ
  pub main : Main
  pub visits : List Job

-- The arguments that `Crawl` refuses, in its order.
pub check : String → ℤ → ℤ → Bool → Context → Option Error
check start max_depth workers has_fetcher ctx =
    if is_empty start
    then some empty_start
    else if ltb_ℤ max_depth (pos 0)
    then some (depth_negative max_depth)
    else if leb_ℤ workers (pos 0)
    then some (workers_not_positive workers)
    else if not has_fetcher
    then some nil_fetcher
    else elim ctx [ none ↦ none | some e ↦ some (ctx_error e) ]

pub contains : String → List String → Bool
contains url [] = false
contains url (u ∷ us) = str_eq u url || contains url us

-- The list without its element at an index.
pub remove_at : ℕ → List Job → List Job
remove_at i [] = []
remove_at zero (j ∷ js) = js
remove_at (suc i) (j ∷ js) = j ∷ remove_at i js

pub is_closed : Main → Bool
is_closed enqueueing = false
is_closed pending_wait = false
is_closed worker_wait = true
is_closed returned = true

module _ {E : Type 0} where
  pub enqueue : ℕ → String → ℕ → Crawler E → Crawler E
  unfolding contains
  enqueue max_depth url depth c =
      if is_empty url || ltb max_depth depth || contains url c.scheduled then c else record c {
        scheduled = url ∷ c.scheduled;
        pending = suc c.pending;
        senders = record { url = url; depth = depth } ∷ c.senders;
      }

  pub go_to : ℕ → Worker → Crawler E → Crawler E
  go_to id w c = record c { workers = update c.workers id w }

  -- The rest of `fetch`, after `Fetch` returned.
  pub respond : ℕ → ℕ → Job → List String ⊎ E → Crawler E → Crawler E
  unfolding go_to
  respond max_depth id j (inr err) c =
      if is_some c.ctx
      then go_to id finishing c
      else go_to id finishing (record c { errors = insert j.url err c.errors })
  respond max_depth id j (inl links) c =
      if leb max_depth j.depth
      then go_to id finishing c
      else go_to id (following links (suc j.depth)) c

  pub receive : ℕ → ℕ → Option Job → Crawler E → Option (Crawler E)
  unfolding go_to remove_at
  receive id k none c = none
  receive id k (some j) c =
      some (go_to id (starting j) (record c { senders = remove_at k c.senders }))

  -- A goroutine of `enqueue` whose context is done.
  pub give_up : ℕ → Context → Option Job → Crawler E → Option (Crawler E)
  unfolding remove_at
  give_up k none job c = none
  give_up k (some e) none c = none
  give_up k (some e) (some j) c =
      some (record c { senders = remove_at k c.senders; pending = c.pending - 1 })

  pub main_step : ℕ → String → Main → Crawler E → Option (Crawler E)
  unfolding enqueue
  main_step max_depth start enqueueing c =
      some (record (enqueue max_depth start 0 c) { main = pending_wait })
  main_step max_depth start pending_wait c =
      if c.pending == 0 then some (record c { main = worker_wait }) else none
  main_step max_depth start worker_wait c =
      if c.running == 0 then some (record c { main = returned }) else none
  main_step max_depth start returned c = none

-- The scheduler's choices: a worker, which takes the job of the goroutine at an index if it waits
-- for one; such a goroutine, giving up; the goroutine of `Crawl`.
pub data Choice : Type 0 where
  worker : ℕ → ℕ → Choice
  sender_done : ℕ → Choice
  main_turn : Choice

module _ {E : Type 0} (fetch : String → List String ⊎ E) (max_depth : ℕ) (start : String) where
  pub work : ℕ → ℕ → Worker → Crawler E → Option (Crawler E)
  unfolding go_to receive respond enqueue is_closed
  work id k waiting c =
      if is_closed c.main
      then some (go_to id stopped (record c { running = c.running - 1 }))
      else receive id k (get_elem? c.senders k) c
  work id k (starting j) c =
      if is_some c.ctx
      then some (go_to id finishing c)
      else some (
          go_to id (fetching j)
            (record c { fetched = c.fetched ++ j.url ∷ []; visits = j ∷ c.visits }))
  work id k (fetching j) c = some (respond max_depth id j (fetch j.url) c)
  work id k (following [] depth) c = some (go_to id finishing c)
  work id k (following (link ∷ links) depth) c =
      some (go_to id (following links depth) (enqueue max_depth link depth c))
  work id k finishing c = some (go_to id waiting (record c { pending = c.pending - 1 }))
  work id k stopped c = none

  pub act : Choice → Crawler E → Option (Crawler E)
  unfolding work give_up main_step
  act (worker id k) c = work id k (c.workers id) c
  act (sender_done k) c = give_up k c.ctx (get_elem? c.senders k) c
  act main_turn c = main_step max_depth start c.main c

-- The choices among `n` workers.
abbrev pub IsChoice : ℕ → Choice → Type 0
IsChoice n (worker id k) = id < n
IsChoice n (sender_done k) = Unit {0}
IsChoice n main_turn = Unit {0}

pub data Step {E : Type 0} (fetch : String → List String ⊎ E) (max_depth : ℕ) (start : String)
    (n : ℕ) (c d : Crawler E) : Type 0 where
  goroutine :
      (x : Choice)
      → IsChoice n x
      → act fetch max_depth start x c ≡ some d
      → Step fetch max_depth start n c d
  cancel :
      (e : CtxError)
      → c.ctx ≡ none
      → record c { ctx = some e } ≡ d
      → Step fetch max_depth start n c d

pub initial : {E : Type 0} → ℕ → Crawler E
initial n = record {
  ctx = none;
  senders = [];
  pending = 0;
  scheduled = [];
  fetched = [];
  errors = [];
  workers = λ _. waiting;
  running = n;
  main = enqueueing;
  visits = [];
}
