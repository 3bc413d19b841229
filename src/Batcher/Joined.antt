-- ===== src/Batcher/Joined.antt =====
-- What a consumer of examples/batcher gets.
use mathlib.Core.Path.{subst}
use go_concurrency_examples.Base.{
  Bool-cases, CtxError, List, Reach, Reach-inv, [], ap, arith, false, if◌then◌else◌, inl, inr,
  is_some, none, refl, some, ℕ, ◌++◌, ◌<◌, ◌∷◌, ◌≡◌, All, length, ltb, steps, steps-le, ◌*◌, ◌+◌,
  ◌≤◌,
}
use go_concurrency_examples.Batcher.{
  Batcher, Choice, Pc, Step, Then, act, cancel, done, ended, fire, flush, flushing, goroutine,
  initial, loops, receive, returns, selecting, send, take_item,
}
use go_concurrency_examples.Batcher.Batches.{
  Holds, Inv, IsPrefix, Timed, close-Inv, concat, fire-Inv, grow-Inv, over-Inv, pc_work, send-Inv,
  work, Fits,
}

left_over :
    {A : Type 0} (items : List A) (b : Batcher A) (xs : List A) (after : Then)
    → Holds items b (flushing xs after)
    → IsPrefix (concat b.emitted) items
left_over items b xs loops h = (xs ++ b.input, h.0)
left_over items b xs returns h = (xs, h.0)

joined-IsPrefix :
    {A : Type 0} (items : List A) (b : Batcher A) (p : Pc A)
    → Holds items b p
    → IsPrefix (concat b.emitted) items
joined-IsPrefix items b selecting h = (b.batch ++ b.input, h)
joined-IsPrefix items b (flushing xs after) h = left_over items b xs after h
joined-IsPrefix items b ended h = h.0

cancel-Holds :
    {A : Type 0} (items : List A) (b : Batcher A) (p : Pc A) (e : CtxError)
    → Holds items b p
    → Holds items (record b { ctx = some e }) p
cancel-Holds items b selecting e h = h
cancel-Holds items b (flushing xs loops) e h = h
cancel-Holds items b (flushing xs returns) e h = h
cancel-Holds items b ended e h = (h.0, λ free. cc)

cancel-Timed :
    {A : Type 0} (max_size : ℕ) (b : Batcher A) (p : Pc A) (e : CtxError)
    → Timed max_size b p
    → Timed max_size (record b { ctx = some e }) p
cancel-Timed max_size b selecting e t = t
cancel-Timed max_size b (flushing xs after) e t = t
cancel-Timed max_size b ended e t = t

module _ {A : Type 0} (items : List A) (max_size : ℕ) where
  abbrev Kept : Batcher A → Batcher A → Type 0
  Kept b c = Inv items max_size c × (work c < work b)

  receive-Kept :
      (b c : Batcher A) (input : List A)
      → Inv items max_size b
      → b.pc ≡ selecting
      → Holds items b selecting
      → Timed max_size b selecting
      → b.input ≡ input
      → take_item max_size input b ≡ c
      → Kept b c
  unfolding take_item
  receive-Kept b c [] inv is h t at e = subst (Kept b) e (close-Inv inv is h t b.batch refl at)
  receive-Kept b c (item ∷ rest) inv is h t at e =
      subst (Kept b) e (grow-Inv inv is h t item rest at)

  over-Kept :
      (b c : Batcher A) (rest : List A)
      → Inv items max_size b
      → concat b.emitted ++ rest ≡ items
      → 0 < pc_work b.pc
      → (if is_some b.ctx then some (record b { pc = ended }) else none) ≡ some c
      → Kept b c
  over-Kept b c rest inv h w e = elim (Bool-cases (is_some b.ctx)) [
    | inl over ↦
        let moved : record b { pc = ended } ≡ c = ground (arith, over, e) in
        subst (Kept b) moved (over-Inv b rest over h inv.sizes w)
    | inr on ↦ ground (arith, on, e)
  ]

  act-Kept :
      (b c : Batcher A) (p : Pc A) (x : Choice)
      → b.pc ≡ p
      → Inv items max_size b
      → Holds items b p
      → Timed max_size b p
      → act max_size p x b ≡ some c
      → Kept b c
  unfolding act
  act-Kept b c selecting done is inv h t e =
      over-Kept b c (b.batch ++ b.input) inv h (omega (arith, ap pc_work is)) e
  act-Kept b c selecting receive is inv h t e =
      receive-Kept b c b.input inv is h t refl (ground (arith, e))
  act-Kept b c selecting fire is inv h t e = elim (Bool-cases b.timer) [
    | inl fired ↦
        let moved : flush loops (record b { timer = false }) b.batch ≡ c =
          ground (arith, fired, e) in
        subst (Kept b) moved (fire-Inv inv is h t fired)
    | inr quiet ↦ ground (arith, quiet, e)
  ]
  act-Kept b c selecting send is inv h t e = ground (arith, e)
  act-Kept b c (flushing xs after) done is inv h t e =
      let (rest, joined) = left_over items b xs after h in
      over-Kept b c rest inv joined (omega (arith, ap pc_work is)) e
  act-Kept b c (flushing xs after) receive is inv h t e = ground (arith, e)
  act-Kept b c (flushing xs after) fire is inv h t e = ground (arith, e)
  act-Kept b c (flushing xs after) send is inv h t e = send-Inv b c xs after is h t inv.sizes e
  act-Kept b c ended x is inv h t e = ground (arith, e)

  Step-Kept : (b c : Batcher A) → Step max_size b c → Inv items max_size b → Kept b c
  Step-Kept b c (goroutine x e) inv = act-Kept b c b.pc x refl inv inv.holds inv.timed e
  Step-Kept b c (cancel err free e) inv = subst (Kept b) e (
    record {
      holds = cancel-Holds items b b.pc err inv.holds;
      timed = cancel-Timed max_size b b.pc err inv.timed;
      sizes = inv.sizes;
    },
    ground (arith, free),
  )

  initial-Inv : 0 < max_size → Inv items max_size (initial items)
  unfolding initial
  initial-Inv h = record { holds = refl; timed = (h, refl); sizes = tt }

  Reach-Inv :
      0 < max_size
      → {c : Batcher A} → Reach (Step max_size) (initial items) c
      → Inv items max_size c
  Reach-Inv h r =
      Reach-inv (Inv items max_size) (λ b c st inv. (Step-Kept b c st inv).0) (initial-Inv h) r

-- From a start with any input and a positive maximal size, where the goroutine has ended and the
-- context is not done, the batches that were emitted, joined, are the whole input.
pub batches_join :
    {A : Type 0} (items : List A) (max_size : ℕ) {b : Batcher A}
    → 0 < max_size
    → Reach (Step max_size) (initial items) b
    → b.pc ≡ ended
    → b.ctx ≡ none
    → concat b.emitted ≡ items
batches_join items max_size {b} h r is free =
    (subst (Holds items b) is (Reach-Inv items max_size h r).holds).1 free

-- In every reachable state: the schedule so far has at most three steps for each item and two more,
-- so that every schedule ends; the batches that were emitted, joined, are the input up to some
-- point; and each of them has at least one item and at most the maximal size.
pub batches_bounded :
    {A : Type 0} (items : List A) (max_size : ℕ) {b : Batcher A}
    → 0 < max_size
    → (r : Reach (Step max_size) (initial items) b)
    → (steps r ≤ 3 * length items + 2)
      × IsPrefix (concat b.emitted) items
      × All (Fits max_size) b.emitted
unfolding initial
batches_bounded items max_size {b} h r =
    let inv = Reach-Inv items max_size h r in
    (
      omega (
        arith,
        steps-le (Inv items max_size) work (λ b c st inv. (Step-Kept items max_size b c st inv).0)
            (λ b c st inv. (Step-Kept items max_size b c st inv).1) (initial-Inv items max_size h)
            r,
      ),
      joined-IsPrefix items b b.pc inv.holds,
      inv.sizes,
    )

-- In the loop the pending batch is smaller than the maximal size, and the timer is set exactly if a
-- pending batch waits, so that none waits for ever.
timer_set :
    {A : Type 0} (items : List A) (max_size : ℕ) {b : Batcher A}
    → 0 < max_size
    → Reach (Step max_size) (initial items) b
    → b.pc ≡ selecting
    → (length b.batch < max_size) × (b.timer ≡ ltb 0 (length b.batch))
timer_set items max_size {b} h r is =
    subst (Timed max_size b) is (Reach-Inv items max_size h r).timed
