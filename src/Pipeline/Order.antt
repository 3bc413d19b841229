-- ===== src/Pipeline/Order.antt =====
-- The values of examples/pipeline arrive in order: Collect returns what a filter and a map of the
-- input give, or a prefix of it with an error.
use mathlib.Core.Path.{subst}
use mathlib.Core.List.{append_assoc, append-nil}
use go_concurrency_examples.Base.Int.{ℤ}
use go_concurrency_examples.Base.{
  Bool, CtxError, List, Option, Reach, Reach-inv, [], ap, arith, inl, inr, none, refl, some, sym,
  ◌++◌, ◌∙◌, ◌≡◌, ◌⊎◌,
}
use go_concurrency_examples.Pipeline.{
  Choice, Step, System, act, cancel, collect_done, collect_end, end_source, end_stage, filter_done,
  filter_end, filter_send, goroutine, initial, is_closed, map_done, map_end, map_send, send_filter,
  send_map, send_source, source_done, source_end, source_send, when_done,
}
use go_concurrency_examples.Pipeline.Flow.{IsPrefix, expected, flow, through, to_map, act-Moved}

module _ (keep : Option (ℤ → Bool)) (mapper : Option (ℤ → ℤ)) where
  record Inv (spec : List ℤ) (s : System) : Type 0 where
    in_order : IsPrefix (flow keep mapper s) spec
    whole : s.ctx ≡ none → flow keep mapper s ≡ spec
    returned :
        (vs : List ℤ) (c : Option CtxError)
        → s.result ≡ some (vs, c)
        → IsPrefix vs spec × (c ≡ none → vs ≡ spec)

  -- Only Collect sets the result, to what it has.
  act-result :
      (c : Choice) (s t : System)
      → act keep mapper c s ≡ some t
      → (t.result ≡ s.result)
        ⊎ ((t.result ≡ some (s.collected, s.ctx))
            × (s.ctx ≡ none → flow keep mapper s ≡ s.collected))
  unfolding act when_done is_closed end_source end_stage send_source send_filter send_map
  act-result source_done s t e = inl (ground arith)
  act-result source_end s t e = inl (ground arith)
  act-result source_send s t e = inl (ground arith)
  act-result filter_done s t e = inl (ground arith)
  act-result filter_end s t e = inl (ground arith)
  act-result filter_send s t e = inl (ground arith)
  act-result map_done s t e = inl (ground arith)
  act-result map_end s t e = inl (ground arith)
  act-result map_send s t e = inl (ground arith)
  act-result collect_done s t e = inr (ground arith, λ none_ctx. ground arith)
  act-result collect_end s t e =
      inr (ground arith, λ none_ctx. ground (arith, append-nil s.collected))

  prefix_trans : (xs ys zs : List ℤ) → IsPrefix xs ys → IsPrefix ys zs → IsPrefix xs zs
  prefix_trans xs ys zs (r, e) (q, f) =
      (r ++ q, sym (append_assoc xs r q) ∙ ap (λ ws. ws ++ q) e ∙ f)

  act-Inv :
      {spec : List ℤ} (c : Choice) (s t : System)
      → act keep mapper c s ≡ some t
      → Inv spec s
      → Inv spec t
  act-Inv {spec} c s t e inv =
      let m = act-Moved keep mapper c s t e in
      record {
        in_order = prefix_trans (flow keep mapper t) (flow keep mapper s) spec m.cut inv.in_order;
        whole =
            λ none_ctx. let before = sym m.same_ctx ∙ none_ctx in m.uncut before ∙ inv.whole before;
        returned = λ vs d at. elim (act-result c s t e) [
          | inl same ↦ inv.returned vs d (sym same ∙ at)
          | inr (is, all) ↦
              let had : vs ≡ s.collected = ground arith in
              let ctx_was : d ≡ s.ctx = ground arith in
              (
                rw had (
                    prefix_trans s.collected (flow keep mapper s) spec
                      (through (λ v. v) s.map_at (to_map keep mapper s.source s.filter_at), refl)
                      inv.in_order),
                λ none_d.
                    let none_ctx = sym ctx_was ∙ none_d in
                    had ∙ sym (all none_ctx) ∙ inv.whole none_ctx,
              )
        ];
      }

  Step-Inv : {spec : List ℤ} (s t : System) → Step keep mapper s t → Inv spec s → Inv spec t
  Step-Inv s t (goroutine c e) inv = act-Inv c s t e inv
  Step-Inv {spec} s t (cancel err free e) inv =
      subst (Inv spec) e
        (record { in_order = inv.in_order; whole = λ h. cc; returned = inv.returned })

  initial-Inv : (values : List ℤ) → Inv (expected keep mapper values) (initial values)
  unfolding initial
  initial-Inv values = record {
    in_order = ([], append-nil (expected keep mapper values));
    whole = λ h. refl;
    returned = λ vs c at. ground arith;
  }

  -- In every state that the goroutines of a pipeline can reach, with any functions for Filter and
  -- Map, nil ones included, and cancellation at any time: if Collect has returned without an error,
  -- it returned all that a filter and a map of the input give, in input order; and if it returned
  -- an error, the values with it are a prefix of that.
  pub pipeline_order :
      (values : List ℤ) {t : System}
      → Reach (Step keep mapper) (initial values) t
      → (vs : List ℤ) (c : Option CtxError) → t.result ≡ some (vs, c)
      → IsPrefix vs (expected keep mapper values) × (c ≡ none → vs ≡ expected keep mapper values)
  pipeline_order values r =
      (Reach-inv (Inv (expected keep mapper values)) (λ s t st inv. Step-Inv s t st inv)
        (initial-Inv values) r).returned
