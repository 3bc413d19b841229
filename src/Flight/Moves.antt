-- ===== src/Flight/Moves.antt =====
-- Every step of a goroutine of examples/singleflight keeps the calls in flight.
use text.Mathlib.TextEquality.{eq_iff}
use go_concurrency_examples.Base.Dict.{lookup, lookup-insert, lookup-delete}
use go_concurrency_examples.Base.{
  List, Option-cases, Reach, Reach-inv, String, [], ap, arith, if◌then◌else◌, inl, inr, is_some,
  le-sum_below, none, refl, some, true, ℕ, ◌<◌, ◌∷◌, ◌≡◌,
}
use go_concurrency_examples.Flight.Calls.{
  Inv, Listed, Listed-delete, Listed-insert, Moved, Moved-Inv, fresh-unused, leads, sole-leader,
  works,
}
use go_concurrency_examples.Flight.{
  Pc, Step, System, act, check, deleting, entering, following, initial, join, next_do, outside,
  running, storing, goroutine,
}

module _ {V : Type 0} (fn : ℕ → String → V) {n id : ℕ} {s t : System V} (inv : Inv n s)
    (lt : id < n) where
  outside-Moved :
      (jobs : List String)
      → s.jobs id ≡ jobs
      → next_do fn id jobs s ≡ some t
      → (p' : Pc) × Moved n id s t outside p'
  unfolding next_do check
  outside-Moved [] at e = ground arith
  outside-Moved (key ∷ rest) at e =
      (if is_some (check true key true) then outside else entering key, ground (arith, inv))

  joins-Moved :
      (key : String) (c : ℕ)
      → lookup key s.group.calls ≡ some c
      → act fn id (entering key) s ≡ some t
      → Moved n id s t (entering key) (following key c)
  unfolding act join
  joins-Moved key c at e = ground (arith, inv, inv.old key c)

  creates-Moved :
      (key : String)
      → lookup key s.group.calls ≡ none
      → act fn id (entering key) s ≡ some t
      → Moved n id s t (entering key) (running key s.group.fresh)
  unfolding act join
  creates-Moved key at e =
      let calls = s.group.calls in
      let f = s.group.fresh in
      let (no_leads, no_works) = fresh-unused inv in
      record {
        places = ground arith;
        led_moved = λ k c g.
            ground (arith, inv.led k c, inv.old k c, no_leads, lookup-insert key k f calls);
        work_moved = λ c g. ground (arith, inv.working c, no_works);
        keeps = λ i q p ne is r. ground (arith, Listed-insert calls f key q at r);
        place = ground (arith, lookup-insert key key f calls, eq_iff key key);
        still_old = λ k c g. ground (arith, inv.old k c, lookup-insert key k f calls);
        still_one_key = λ k j c g h. ground (
          arith,
          inv.one_key k j c,
          inv.old k c,
          inv.old j c,
          lookup-insert key k f calls,
          lookup-insert key j f calls,
          eq_iff key k,
          eq_iff key j,
        );
      }

  running-Moved :
      (key : String) (c : ℕ)
      → lookup key s.group.calls ≡ some c
      → act fn id (running key c) s ≡ some t
      → Moved n id s t (running key c) (storing key c)
  unfolding act
  running-Moved key c at e = ground (arith, inv)

  storing-Moved :
      (key : String) (c : ℕ)
      → s.pc id ≡ storing key c
      → lookup key s.group.calls ≡ some c
      → act fn id (storing key c) s ≡ some t
      → Moved n id s t (storing key c) (deleting key c)
  unfolding act
  storing-Moved key c is at e = record {
    places = ground arith;
    led_moved = λ k d g. ground (arith, inv.led k d);
    work_moved = λ d g.
        ground
          (arith, inv.working d, ap (works d) is, le-sum_below (λ i. works d (s.pc i)) n id lt);
    keeps = λ i q p ne q_is r. ground arith;
    place = ground arith;
    still_old = λ k d g. ground (arith, inv.old k d);
    still_one_key = λ k j d g h. ground (arith, inv.one_key k j d);
  }

  deleting-Moved :
      (key : String) (c : ℕ)
      → s.pc id ≡ deleting key c
      → lookup key s.group.calls ≡ some c
      → act fn id (deleting key c) s ≡ some t
      → Moved n id s t (deleting key c) outside
  unfolding act
  deleting-Moved key c is at e =
      let calls = s.group.calls in
      record {
        places = ground arith;
        led_moved = λ k d g.
            ground
              (arith, inv.led k d, inv.one_key k key c, lookup-delete key k calls, eq_iff key k);
        work_moved = λ d g. ground (arith, inv.working d);
        keeps = λ i q p ne q_is r. ground (
          arith,
          Listed-delete calls s.group.fresh key c q at,
          sole-leader inv key c i id at p lt ne,
          ap (leads c) is,
        );
        place = ground arith;
        still_old = λ k d g. ground (arith, inv.old k d, lookup-delete key k calls);
        still_one_key = λ k j d g h.
            ground (arith, inv.one_key k j d, lookup-delete key k calls, lookup-delete key j calls);
      }

  entering-Moved :
      (key : String)
      → act fn id (entering key) s ≡ some t
      → (p' : Pc) × Moved n id s t (entering key) p'
  entering-Moved key e = elim (Option-cases (lookup key s.group.calls)) [
    | inl at ↦ (running key s.group.fresh, creates-Moved key at e)
    | inr (c, at) ↦ (following key c, joins-Moved key c at e)
  ]

  act-Moved :
      (p : Pc)
      → s.pc id ≡ p
      → Listed s.group.calls s.group.fresh p
      → act fn id p s ≡ some t
      → (p' : Pc) × Moved n id s t p p'
  unfolding act
  act-Moved outside is h e = outside-Moved (s.jobs id) refl e
  act-Moved (entering key) is h e = entering-Moved key e
  act-Moved (following key c) is h e = (outside, ground (arith, inv))
  act-Moved (running key c) is h e = (storing key c, running-Moved key c h e)
  act-Moved (storing key c) is h e = (deleting key c, storing-Moved key c is h e)
  act-Moved (deleting key c) is h e = (outside, deleting-Moved key c is h e)

module _ {V : Type 0} (fn : ℕ → String → V) {n : ℕ} where
  Step-Inv : (s t : System V) → Step fn n s t → Inv n s → Inv n t
  Step-Inv s t (goroutine id lt e) inv =
      let (p', m) = act-Moved fn inv lt (s.pc id) refl (inv.listed id lt) e in Moved-Inv inv lt m

  initial-Inv : (jobs : ℕ → List String) → Inv n (initial {V = V} jobs)
  unfolding initial lookup
  initial-Inv jobs = record {
    led = λ k c at. ground arith;
    working = λ c h. absurd (omega arith);
    listed = λ i p. tt;
    old = λ k c at. ground arith;
    one_key = λ k j c at h. ground arith;
  }

  pub Reach-Inv :
      {t : System V} (jobs : ℕ → List String) → Reach (Step fn n) (initial jobs) t → Inv n t
  Reach-Inv jobs r = Reach-inv (Inv n) Step-Inv (initial-Inv jobs) r
