-- ===== src/Keyed/Moves.antt =====
-- Every step of a goroutine of examples/keyedlock keeps the registry exact.
use mathlib.Core.Path.{subst}
use text.Mathlib.TextEquality.{eq_iff}
use go_concurrency_examples.Base.Dict.{lookup, insert, delete, lookup-insert, lookup-delete}
use go_concurrency_examples.Base.{
  List, String, [], arith, if◌then◌else◌, is_empty, none, some, ℕ, ◌∷◌, ◌≡◌, le-sum_below_two, ◌<◌,
  ◌≢◌, ◌≤◌, Option-cases, Reach, Reach-inv, inl, inr, refl, sym,
}
use go_concurrency_examples.Keyed.Registry.{
  Inv, Registered, uses, Moved, fresh-unused, Moved-Inv, initial-Inv,
}
use go_concurrency_examples.Keyed.{
  Pc, System, acquiring, act, check_lock, holding, locking, outside, releasing, acquire_entry,
  acquire_existing, next_lock, release_entry, Step, goroutine, initial,
}

-- What the registry's map keeps for a goroutine that stands at `q`.
keeps-insert :
    (locks : List (String × ℕ)) (k : String) (e : ℕ) (q : Pc)
    → lookup k locks ≡ none
    → Registered locks q
    → Registered (insert k e locks) q
keeps-insert locks k e outside at r = tt
keeps-insert locks k e (acquiring j) at r = tt
keeps-insert locks k e (locking j d) at r = ground (arith, lookup-insert k j e locks, eq_iff k j)
keeps-insert locks k e (holding j d) at r = ground (arith, lookup-insert k j e locks, eq_iff k j)
keeps-insert locks k e (releasing j d) at r = ground (arith, lookup-insert k j e locks, eq_iff k j)

keeps-delete :
    (locks : List (String × ℕ)) (k : String) (e : ℕ) (q : Pc)
    → lookup k locks ≡ some e
    → uses e q ≡ 0
    → Registered locks q
    → Registered (delete k locks) q
keeps-delete locks k e outside at u r = tt
keeps-delete locks k e (acquiring j) at u r = tt
keeps-delete locks k e (locking j d) at u r = ground (arith, lookup-delete k j locks, eq_iff k j)
keeps-delete locks k e (holding j d) at u r = ground (arith, lookup-delete k j locks, eq_iff k j)
keeps-delete locks k e (releasing j d) at u r = ground (arith, lookup-delete k j locks, eq_iff k j)

module _ {n id : ℕ} {s : System} (inv : Inv n s) where
  -- Another goroutine that uses the entry counts too.
  sole-user :
      (e i : ℕ)
      → i < n
      → id < n
      → i ≢ id
      → uses e (s.pc id) ≡ 1
      → s.locker.refs e ≤ 1
      → uses e (s.pc i) ≡ 0
  sole-user e i p lt ne mine few =
      omega (arith, inv.refs_counted e, le-sum_below_two (λ j. uses e (s.pc j)) n i id p lt ne)

  Registered-place : (p : Pc) → id < n → s.pc id ≡ p → Registered s.locker.locks p
  Registered-place p lt is = subst (Registered s.locker.locks) is (inv.registered id lt)

module _ {n id : ℕ} {s t : System} (inv : Inv n s) where
  outside-Moved :
      (jobs : List String)
      → s.jobs id ≡ jobs
      → act id outside s ≡ some t
      → (p' : Pc) × Moved n id s t outside p'
  unfolding act next_lock check_lock
  outside-Moved [] at e = ground arith
  outside-Moved (key ∷ rest) at e =
      (if is_empty key then outside else acquiring key, ground (arith, inv))

  existing-Moved :
      (key : String) (e : ℕ)
      → lookup key s.locker.locks ≡ some e
      → act id (acquiring key) s ≡ some t
      → Moved n id s t (acquiring key) (locking key e)
  unfolding act acquire_entry acquire_existing
  existing-Moved key e at h = record {
    places = ground arith;
    refs_moved = λ d. ground arith;
    held_moved = λ d. ground arith;
    keeps = λ i q p ne is r. ground arith;
    registers = ground arith;
    still_referred = λ k d g. ground (arith, inv.referred k d);
    still_old = λ k d g. ground (arith, inv.old k d);
    still_one_key = λ k j d g f. ground (arith, inv.one_key k j d);
  }

  created-Moved :
      (key : String)
      → lookup key s.locker.locks ≡ none
      → act id (acquiring key) s ≡ some t
      → Moved n id s t (acquiring key) (locking key s.locker.fresh)
  unfolding act acquire_entry acquire_existing
  created-Moved key at h =
      let locks = s.locker.locks in
      let e = s.locker.fresh in
      let (unreferred, unlocked) = fresh-unused inv e (omega arith) in
      record {
        places = ground arith;
        refs_moved = λ d. ground (arith, inv.refs_counted e);
        held_moved = λ d. ground (arith, inv.held_counted e);
        keeps = λ i q p ne is r. ground (arith, keeps-insert locks key e q at r);
        registers = ground (arith, lookup-insert key key e locks, eq_iff key key);
        still_referred = λ k d g. ground (arith, inv.referred k d, lookup-insert key k e locks);
        still_old = λ k d g. ground (arith, inv.old k d, lookup-insert key k e locks);
        still_one_key = λ k j d g f. ground (
          arith,
          inv.one_key k j d,
          inv.old k d,
          inv.old j d,
          lookup-insert key k e locks,
          lookup-insert key j e locks,
          eq_iff key k,
          eq_iff key j,
        );
      }

  locking-Moved :
      (key : String) (e : ℕ)
      → lookup key s.locker.locks ≡ some e
      → act id (locking key e) s ≡ some t
      → Moved n id s t (locking key e) (holding key e)
  unfolding act
  locking-Moved key e at h = ground (arith, inv)

  holding-Moved :
      (key : String) (e : ℕ)
      → lookup key s.locker.locks ≡ some e
      → act id (holding key e) s ≡ some t
      → Moved n id s t (holding key e) (releasing key e)
  unfolding act
  holding-Moved key e at h = ground (arith, inv)

  releasing-Moved :
      (key : String) (e : ℕ)
      → id < n
      → s.pc id ≡ releasing key e
      → lookup key s.locker.locks ≡ some e
      → act id (releasing key e) s ≡ some t
      → Moved n id s t (releasing key e) outside
  unfolding act release_entry
  releasing-Moved key e lt is at h =
      let locks = s.locker.locks in
      record {
        places = ground arith;
        refs_moved = λ d. ground (arith, inv.referred key e);
        held_moved = λ d. ground (arith, inv.referred key e);
        keeps = λ i q p ne q_is r.
            ground (arith, keeps-delete locks key e q at, sole-user inv e i p lt ne);
        registers = ground arith;
        still_referred = λ k d g.
            ground (
              arith,
              inv.referred k d,
              lookup-delete key k locks,
              inv.one_key key k e,
              eq_iff key k,
            );
        still_old = λ k d g. ground (arith, inv.old k d, lookup-delete key k locks);
        still_one_key = λ k j d g f.
            ground (arith, inv.one_key k j d, lookup-delete key k locks, lookup-delete key j locks);
      }

  acquiring-Inv :
      (key : String)
      → id < n
      → s.pc id ≡ acquiring key
      → act id (acquiring key) s ≡ some t
      → Inv n t
  acquiring-Inv key lt is h = elim (Option-cases (lookup key s.locker.locks)) [
    | inl at ↦ Moved-Inv inv lt (
        subst (λ q. Moved n id s t q (locking key s.locker.fresh)) (sym is)
          (created-Moved key at h))
    | inr (e, at) ↦
        Moved-Inv inv lt
          (subst (λ q. Moved n id s t q (locking key e)) (sym is) (existing-Moved key e at h))
  ]

  act-Inv : (p : Pc) → id < n → s.pc id ≡ p → act id p s ≡ some t → Inv n t
  act-Inv outside lt is h =
      let (p', m) = outside-Moved (s.jobs id) refl h in
      Moved-Inv inv lt (subst (λ q. Moved n id s t q p') (sym is) m)
  act-Inv (acquiring key) lt is h = acquiring-Inv key lt is h
  act-Inv (locking key e) lt is h = Moved-Inv inv lt (
      subst (λ q. Moved n id s t q (holding key e)) (sym is)
        (locking-Moved key e (Registered-place inv (locking key e) lt is) h))
  act-Inv (holding key e) lt is h = Moved-Inv inv lt (
      subst (λ q. Moved n id s t q (releasing key e)) (sym is)
        (holding-Moved key e (Registered-place inv (holding key e) lt is) h))
  act-Inv (releasing key e) lt is h = Moved-Inv inv lt (
      subst (λ q. Moved n id s t q outside) (sym is)
        (releasing-Moved key e lt is (Registered-place inv (releasing key e) lt is) h))

Step-Inv : {n : ℕ} (s t : System) → Step n s t → Inv n s → Inv n t
Step-Inv s t (goroutine id lt e) inv = act-Inv inv (s.pc id) lt refl e

pub Reach-Inv :
    {n : ℕ} (jobs : ℕ → List String) {t : System} → Reach (Step n) (initial jobs) t → Inv n t
Reach-Inv {n} jobs r = Reach-inv (Inv n) (λ s t st inv. Step-Inv s t st inv) (initial-Inv n jobs) r
