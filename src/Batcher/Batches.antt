-- ===== src/Batcher/Batches.antt =====
-- The batches of examples/batcher, joined, are the input; none is empty or too large; and a pending
-- batch is always on the clock.
use mathlib.Core.Path.{subst}
use mathlib.Core.List.{append_assoc, append-nil}
use go_concurrency_examples.Base.{
  All, List, [], ap, false, is_some, length, ltb, none, not, sym, to_num, ℕ, ◌*◌, ◌++◌, ◌+◌, ◌<◌,
  ◌∙◌, ◌∷◌, ◌≡◌, ◌≤◌, arith, refl, Bool-cases, inl, inr, leb, length-append, ◌==◌, ◌||◌, All-snoc,
  some, true,
}
use go_concurrency_examples.Batcher.{
  Batcher, Pc, ended, flush, flushing, loops, returns, selecting, Then, take_item, act, send,
}

module _ {A : Type 0} where
  abbrev pub concat : List (List A) → List A
  concat [] = []
  concat (xs ∷ xss) = xs ++ concat xss

  concat-snoc : (xss : List (List A)) (xs : List A) → concat (xss ++ xs ∷ []) ≡ concat xss ++ xs
  concat-snoc [] xs = append-nil xs
  concat-snoc (ys ∷ xss) xs =
      ap (λ zs. ys ++ zs) (concat-snoc xss xs) ∙ sym (append_assoc ys (concat xss) xs)

  abbrev pub IsPrefix : List A → List A → Type 0
  IsPrefix xs ys = (rest : List A) × (xs ++ rest ≡ ys)

  -- A batch that is sent.
  abbrev pub Fits : ℕ → List A → Type 0
  Fits max_size xs = (0 < length xs) × (length xs ≤ max_size)

  -- What has been emitted, with what is on its way, is the input, up to a cancellation.
  abbrev pub Holds : List A → Batcher A → Pc A → Type 0
  Holds items b selecting = concat b.emitted ++ (b.batch ++ b.input) ≡ items
  Holds items b (flushing xs loops) = (concat b.emitted ++ (xs ++ b.input) ≡ items) × (b.batch ≡ [])
  Holds items b (flushing xs returns) = (concat b.emitted ++ xs ≡ items) × (b.batch ≡ [])
  Holds items b ended =
      IsPrefix (concat b.emitted) items × (b.ctx ≡ none → concat b.emitted ≡ items)

  -- The batch in each place, and its timer.
  abbrev pub Timed : ℕ → Batcher A → Pc A → Type 0
  Timed max_size b selecting = (length b.batch < max_size) × (b.timer ≡ ltb 0 (length b.batch))
  Timed max_size b (flushing xs after) = Fits max_size xs × (b.timer ≡ false) × (b.batch ≡ [])
  Timed max_size b ended = Unit {0}

  pub record Inv (items : List A) (max_size : ℕ) (b : Batcher A) : Type 0 where
    pub holds : Holds items b b.pc
    pub timed : Timed max_size b b.pc
    pub sizes : All (Fits max_size) b.emitted

  abbrev pub pc_work : Pc A → ℕ
  pc_work selecting = 1
  pc_work (flushing xs after) = 2
  pc_work ended = 0

  -- The steps that are left.
  abbrev pub work : Batcher A → ℕ
  work b =
      3 * length b.input
      + 2 * to_num (ltb 0 (length b.batch))
      + pc_work b.pc
      + to_num (not (is_some b.ctx))

  -- What `flush` leaves to be sent, before the input that has not been read.
  abbrev left_of : Then → List A → List A
  left_of loops input = input
  left_of returns input = []

  flush-Inv :
      {items : List A} {max_size : ℕ} (after : Then) (batch : List A) (d : Batcher A)
      → Fits max_size batch
      → All (Fits max_size) d.emitted
      → concat d.emitted ++ (batch ++ left_of after d.input) ≡ items
      → Inv items max_size (flush after d batch)
        × (work (flush after d batch) ≡ 3 * length d.input + 2 + to_num (not (is_some d.ctx)))
  unfolding flush
  flush-Inv after [] d fits sizes h = absurd (omega (arith, fits))
  flush-Inv loops (x ∷ xs) d fits sizes h =
      (record { holds = (h, refl); timed = (fits, refl, refl); sizes = sizes }, omega arith)
  flush-Inv returns (x ∷ xs) d fits sizes h = (
    record {
      holds = (ap (λ zs. concat d.emitted ++ x ∷ zs) (sym (append-nil xs)) ∙ h, refl);
      timed = (fits, refl, refl);
      sizes = sizes;
    },
    omega arith,
  )

  module _ {items : List A} {max_size : ℕ} {b : Batcher A} (inv : Inv items max_size b)
      (is : b.pc ≡ selecting) (h : Holds items b selecting) (t : Timed max_size b selecting) where
    drained : b.batch ≡ [] → b.input ≡ [] → concat b.emitted ≡ items
    drained at at_input =
        sym (append-nil (concat b.emitted))
        ∙ ap (λ zs. concat b.emitted ++ zs) (sym (rw (at, at_input) refl))
        ∙ h

    -- The input is closed.
    pub close-Inv :
        (batch : List A)
        → b.batch ≡ batch
        → b.input ≡ []
        → Inv items max_size (flush returns b batch) × (work (flush returns b batch) < work b)
    unfolding flush
    close-Inv [] at at_input = (
      record {
        holds = (([], append-nil _ ∙ drained at at_input), λ free. drained at at_input);
        timed = tt;
        sizes = inv.sizes;
      },
      omega (arith, ap pc_work is),
    )
    close-Inv (x ∷ xs) at at_input =
        let (good, w) =
          flush-Inv {items = items} {max_size = max_size} returns (x ∷ xs) b (ground (arith, t, at))
            inv.sizes
            (ap (λ zs. concat b.emitted ++ (zs ++ [])) (sym at)
              ∙ ap (λ zs. concat b.emitted ++ (b.batch ++ zs)) (sym at_input)
              ∙ h) in
        (good, ground (arith, w, at, ap pc_work is))

    -- An item is received.
    pub grow-Inv :
        (item : A) (rest : List A)
        → b.input ≡ item ∷ rest
        → Inv items max_size (take_item max_size (item ∷ rest) b)
          × (work (take_item max_size (item ∷ rest) b) < work b)
    unfolding take_item
    grow-Inv item rest at =
        let grown = b.batch ++ item ∷ [] in
        let longer = length-append b.batch (item ∷ []) in
        let d = record b { input = rest; batch = grown; timer = b.timer || (length grown == 1) } in
        let joined : concat b.emitted ++ (grown ++ rest) ≡ items =
          ap (λ zs. concat b.emitted ++ zs) (append_assoc b.batch (item ∷ []) rest)
          ∙ ap (λ zs. concat b.emitted ++ (b.batch ++ zs)) (sym at)
          ∙ h in
        elim (Bool-cases (leb max_size (length grown))) [
          | inl full ↦
              let (good, w) =
                flush-Inv {items = items} {max_size = max_size} loops grown d
                  (ground (arith, t, longer)) inv.sizes joined in
              rw full (good, ground (arith, w, at, ap pc_work is))
          | inr small ↦ rw small (
            record {
              holds = subst (Holds items d) (sym is) joined;
              timed =
                  subst (Timed max_size d) (sym is)
                    (ground (arith, small), ground (arith, t, longer));
              sizes = inv.sizes;
            },
            ground (arith, at, longer),
          )
        ]

    -- The timer fires.
    pub fire-Inv :
        b.timer ≡ true
        → let c = flush loops (record b { timer = false }) b.batch in
          Inv items max_size c × (work c < work b)
    fire-Inv fired =
        let (good, w) =
          flush-Inv {items = items} {max_size = max_size} loops b.batch (record b { timer = false })
            (ground (arith, t, fired)) inv.sizes h in
        (good, ground (arith, w, t, fired, ap pc_work is))

  -- A done context ends the goroutine in either select.
  pub over-Inv :
      {items : List A} {max_size : ℕ} (b : Batcher A) (rest : List A)
      → is_some b.ctx ≡ true
      → concat b.emitted ++ rest ≡ items
      → All (Fits max_size) b.emitted
      → 0 < pc_work b.pc
      → Inv items max_size (record b { pc = ended }) × (work (record b { pc = ended }) < work b)
  over-Inv b rest over h sizes w = (
    record { holds = ((rest, h), λ free. ground (arith, over, free)); timed = tt; sizes = sizes },
    ground (arith, w),
  )

  pub send-Inv :
      {items : List A} {max_size : ℕ} (b c : Batcher A) (xs : List A) (after : Then)
      → b.pc ≡ flushing xs after
      → Holds items b (flushing xs after)
      → Timed max_size b (flushing xs after)
      → All (Fits max_size) b.emitted
      → act max_size (flushing xs after) send b ≡ some c
      → Inv items max_size c × (work c < work b)
  unfolding act
  send-Inv {items} {max_size} b c xs loops is h t sizes e =
      let d = record b { pc = selecting; emitted = b.emitted ++ xs ∷ [] } in
      let moved : d ≡ c = ground (arith, e) in
      subst (λ x. Inv items max_size x × (work x < work b)) moved
        (
          record {
            holds =
                ap (λ zs. zs ++ (b.batch ++ b.input)) (concat-snoc b.emitted xs)
                ∙ append_assoc (concat b.emitted) xs (b.batch ++ b.input)
                ∙ ap (λ zs. concat b.emitted ++ (xs ++ (zs ++ b.input))) h.1
                ∙ h.0;
            timed = (ground (arith, t), ground (arith, t));
            sizes = All-snoc (Fits max_size) b.emitted xs sizes t.0;
          },
          ground (arith, t, ap pc_work is),
        )
  send-Inv {items} {max_size} b c xs returns is h t sizes e =
      let whole = concat-snoc b.emitted xs ∙ h.0 in
      let moved : record b { pc = ended; emitted = b.emitted ++ xs ∷ [] } ≡ c = ground (arith, e) in
      subst (λ x. Inv items max_size x × (work x < work b)) moved
        (
          record {
            holds = (([], append-nil _ ∙ whole), λ free. whole);
            timed = tt;
            sizes = All-snoc (Fits max_size) b.emitted xs sizes t.0;
          },
          ground (arith, t, ap pc_work is),
        )
