-- ===== src/Pipeline/Flow.antt =====
-- What is on its way through examples/pipeline: at any step it stays, or a cancellation cuts it
-- off.
use mathlib.Core.Path.{subst}
use mathlib.Core.List.{append_assoc, append-nil}
use go_concurrency_examples.Base.Int.{ℤ}
use go_concurrency_examples.Base.{
  Bool, CtxError, List, Option, [], ap, if◌then◌else◌, none, refl, some, ◌++◌, ◌∙◌, ◌∷◌, ◌≡◌,
  Context, arith, is_some, not,
}
use go_concurrency_examples.Pipeline.{
  Stage, System, closed, keeps, mapped, receiving, sending, Choice, act, collect_done, collect_end,
  end_source, end_stage, filter_done, filter_end, filter_send, is_closed, map_done, map_end,
  map_send, send_filter, send_map, send_source, source_done, source_end, source_send, when_done,
}

abbrev pub IsPrefix : List ℤ → List ℤ → Type 0
IsPrefix xs ys = (rest : List ℤ) × (xs ++ rest ≡ ys)

-- The description that the pipeline is compared with: filter and map, one value after the other.
pub expected : Option (ℤ → Bool) → Option (ℤ → ℤ) → List ℤ → List ℤ
unfolding keeps mapped
expected keep mapper [] = []
expected keep mapper (value ∷ rest) =
    let later = expected keep mapper rest in
    if keeps keep value then mapped mapper value ∷ later else later

abbrev pub unsent : Option (List ℤ) → List ℤ
unsent none = []
unsent (some values) = values

-- What will still come out of a stage that turns a value into these, from what will come in.
abbrev pub through : (ℤ → ℤ) → Stage → List ℤ → List ℤ
through f receiving later = later
through f (sending value) later = f value ∷ later
through f closed later = []

module _ (keep : Option (ℤ → Bool)) (mapper : Option (ℤ → ℤ)) where
  abbrev pub to_map : Option (List ℤ) → Stage → List ℤ
  to_map source stage = through (mapped mapper) stage (expected keep mapper (unsent source))

  -- All that Collect will have if nothing is canceled from now on.
  abbrev pub flow : System → List ℤ
  flow s = s.collected ++ through (λ value. value) s.map_at (to_map s.source s.filter_at)

  -- What a step does: the flow stays, or it is cut off, and then the context is done.
  pub record Moved (s t : System) : Type 0 where
    pub same_ctx : t.ctx ≡ s.ctx
    pub cut : IsPrefix (flow t) (flow s)
    pub uncut : s.ctx ≡ none → flow t ≡ flow s

  same-Moved : (s t : System) → t.ctx ≡ s.ctx → flow t ≡ flow s → Moved s t
  same-Moved s t c e = record { same_ctx = c; cut = ([], append-nil (flow t) ∙ e); uncut = λ _. e }

  through-cut :
      (f : ℤ → ℤ) (stage : Stage) (xs ys : List ℤ)
      → IsPrefix xs ys
      → IsPrefix (through f stage xs) (through f stage ys)
  through-cut f receiving xs ys p = p
  through-cut f (sending value) xs ys (rest, e) = (rest, ap (λ zs. f value ∷ zs) e)
  through-cut f closed xs ys p = ([], refl)

  append-cut : (front xs ys : List ℤ) → IsPrefix xs ys → IsPrefix (front ++ xs) (front ++ ys)
  append-cut front xs ys (rest, e) = (rest, append_assoc front xs rest ∙ ap (λ zs. front ++ zs) e)

  -- Cases of a done context.
  cut-Moved :
      (s t : System)
      → t.ctx ≡ s.ctx
      → (e : CtxError) → s.ctx ≡ some e
      → IsPrefix (flow t) (flow s)
      → Moved s t
  cut-Moved s t c e at p = record { same_ctx = c; cut = p; uncut = λ h. cc }

  done-Moved :
      (c : Context) (at_select : Bool) (r : System) {s t : System}
      → s.ctx ≡ c
      → when_done c at_select r ≡ some t
      → r.ctx ≡ s.ctx
      → IsPrefix (flow r) (flow s)
      → Moved s t
  unfolding when_done
  done-Moved none b r at e same p = ground arith
  done-Moved (some err) b r {s} {t} at e same p =
      let e' : r ≡ t = ground arith in subst (Moved s) e' (cut-Moved s r same err at p)

  source_send-Moved :
      (source : Option (List ℤ)) (stage : Stage) {s t : System}
      → s.source ≡ source
      → s.filter_at ≡ stage
      → send_source keep source stage s ≡ some t
      → Moved s t
  unfolding send_source expected
  source_send-Moved (some (value ∷ rest)) receiving {s} {t} at_source at_stage e =
      same-Moved s t (ground arith) (ground (arith, at_source, at_stage))
  source_send-Moved (some (value ∷ rest)) (sending w) at_source at_stage e = ground arith
  source_send-Moved (some (value ∷ rest)) closed at_source at_stage e = ground arith
  source_send-Moved (some []) stage at_source at_stage e = ground arith
  source_send-Moved none stage at_source at_stage e = ground arith

  filter_send-Moved :
      (one two : Stage) {s t : System}
      → s.filter_at ≡ one
      → s.map_at ≡ two
      → send_filter mapper one two s ≡ some t
      → Moved s t
  unfolding send_filter
  filter_send-Moved (sending value) receiving {s} {t} at_one at_two e =
      same-Moved s t (ground arith) (ground (arith, at_one, at_two))
  filter_send-Moved (sending value) (sending w) at_one at_two e = ground arith
  filter_send-Moved (sending value) closed at_one at_two e = ground arith
  filter_send-Moved receiving two at_one at_two e = ground arith
  filter_send-Moved closed two at_one at_two e = ground arith

  map_send-Moved :
      (stage : Stage) {s t : System}
      → s.map_at ≡ stage
      → send_map stage (is_some s.result) s ≡ some t
      → Moved s t
  unfolding send_map
  map_send-Moved (sending value) {s} {t} at e =
      same-Moved s t (ground arith)
        (ground (arith, at, append_assoc s.collected (value ∷ []) (to_map s.source s.filter_at)))
  map_send-Moved receiving at e = ground arith
  map_send-Moved closed at e = ground arith

  source_end-Moved :
      (source : Option (List ℤ)) {s t : System}
      → s.source ≡ source
      → end_source source s ≡ some t
      → Moved s t
  unfolding end_source expected
  source_end-Moved none at e = ground arith
  source_end-Moved (some []) {s} {t} at e = same-Moved s t (ground arith) (ground (arith, at))
  source_end-Moved (some (value ∷ rest)) at e = ground arith

  filter_end-Moved :
      (source : Option (List ℤ)) (stage : Stage) {s t : System}
      → s.source ≡ source
      → s.filter_at ≡ stage
      → end_stage (not (is_some source)) stage (record s { filter_at = closed }) ≡ some t
      → Moved s t
  unfolding end_stage expected
  filter_end-Moved none receiving {s} {t} at_source at_stage e =
      same-Moved s t (ground arith) (ground (arith, at_source, at_stage))
  filter_end-Moved (some values) receiving at_source at_stage e = ground arith
  filter_end-Moved source (sending w) at_source at_stage e = ground arith
  filter_end-Moved source closed at_source at_stage e = ground arith

  map_end-Moved :
      (one two : Stage) {s t : System}
      → s.filter_at ≡ one
      → s.map_at ≡ two
      → end_stage (is_closed one) two (record s { map_at = closed }) ≡ some t
      → Moved s t
  unfolding end_stage is_closed
  map_end-Moved closed receiving {s} {t} at_one at_two e =
      same-Moved s t (ground arith) (ground (arith, at_one, at_two))
  map_end-Moved receiving receiving at_one at_two e = ground arith
  map_end-Moved (sending value) receiving at_one at_two e = ground arith
  map_end-Moved one (sending w) at_one at_two e = ground arith
  map_end-Moved one closed at_one at_two e = ground arith

  pub act-Moved : (c : Choice) (s t : System) → act keep mapper c s ≡ some t → Moved s t
  unfolding act expected
  act-Moved source_done s t e =
      done-Moved s.ctx (is_some s.source) (record s { source = none }) refl e refl
        (append-cut s.collected _ _ (
          through-cut (λ v. v) s.map_at _ _
            (through-cut (mapped mapper) s.filter_at [] (expected keep mapper (unsent s.source))
              (expected keep mapper (unsent s.source), refl))))
  act-Moved source_end s t e = source_end-Moved s.source refl e
  act-Moved source_send s t e = source_send-Moved s.source s.filter_at refl refl e
  act-Moved filter_done s t e =
      done-Moved s.ctx (not (is_closed s.filter_at)) (record s { filter_at = closed }) refl e refl
        (append-cut s.collected _ _ (
          through-cut (λ v. v) s.map_at [] (to_map s.source s.filter_at)
            (to_map s.source s.filter_at, refl)))
  act-Moved filter_end s t e = filter_end-Moved s.source s.filter_at refl refl e
  act-Moved filter_send s t e = filter_send-Moved s.filter_at s.map_at refl refl e
  act-Moved map_done s t e =
      done-Moved s.ctx (not (is_closed s.map_at)) (record s { map_at = closed }) refl e refl
        (append-cut s.collected [] (through (λ v. v) s.map_at (to_map s.source s.filter_at))
          (through (λ v. v) s.map_at (to_map s.source s.filter_at), refl))
  act-Moved map_end s t e = map_end-Moved s.filter_at s.map_at refl refl e
  act-Moved map_send s t e = map_send-Moved s.map_at refl e
  act-Moved collect_done s t e =
      done-Moved s.ctx (not (is_some s.result)) (record s { result = some (s.collected, s.ctx) })
        refl e refl ([], append-nil (flow s))
  act-Moved collect_end s t e = same-Moved s t (ground arith) (ground arith)
