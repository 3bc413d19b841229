-- ===== src/Keyed/Registry.antt =====
-- The registry of examples/keyedlock: an entry is in the map under one key exactly while goroutines
-- refer to it, and `refs` counts them.
use mathlib.Core.Path.{subst}
use go_concurrency_examples.Base.Dict.{lookup}
use go_concurrency_examples.Base.{
  List, String, arith, some, sum_below, sum_below-congr, sum_below-zero, sym, to_num, ℕ, ◌<◌, ◌==◌,
  ◌∙◌, ◌≡◌, ◌≤◌, le-sum_below, refl, sum_below-update, update, ℕ_discrete, ◌+◌, ◌≢◌,
}
use go_concurrency_examples.Keyed.{
  Pc, System, acquiring, holding, initial, locking, new, outside, releasing,
}

-- 1 if the goroutine refers to entry `e`.
abbrev pub uses : ℕ → Pc → ℕ
uses e outside = 0
uses e (acquiring key) = 0
uses e (locking key d) = to_num (d == e)
uses e (holding key d) = to_num (d == e)
uses e (releasing key d) = to_num (d == e)

-- 1 if the goroutine holds the mutex of entry `e`.
abbrev pub holds : ℕ → Pc → ℕ
holds e outside = 0
holds e (acquiring key) = 0
holds e (locking key d) = 0
holds e (holding key d) = to_num (d == e)
holds e (releasing key d) = 0

abbrev pub Registered : List (String × ℕ) → Pc → Type 0
Registered locks outside = Unit {0}
Registered locks (acquiring key) = Unit {0}
Registered locks (locking key e) = lookup key locks ≡ some e
Registered locks (holding key e) = lookup key locks ≡ some e
Registered locks (releasing key e) = lookup key locks ≡ some e

pub record Inv (n : ℕ) (s : System) : Type 0 where
  pub refs_counted : (e : ℕ) → s.locker.refs e ≡ sum_below (λ i. uses e (s.pc i)) n
  pub held_counted : (e : ℕ) → to_num (s.locker.held e) ≡ sum_below (λ i. holds e (s.pc i)) n
  pub registered : (i : ℕ) → i < n → Registered s.locker.locks (s.pc i)
  pub referred : (k : String) (e : ℕ) → lookup k s.locker.locks ≡ some e → 0 < s.locker.refs e
  pub old : (k : String) (e : ℕ) → lookup k s.locker.locks ≡ some e → e < s.locker.fresh
  pub one_key :
      (k j : String) (e : ℕ)
      → lookup k s.locker.locks ≡ some e
      → lookup j s.locker.locks ≡ some e
      → k ≡ j

pub initial-Inv : (n : ℕ) (jobs : ℕ → List String) → Inv n (initial jobs)
unfolding initial new lookup
initial-Inv n jobs = record {
  refs_counted = λ e. sym (sum_below-zero n);
  held_counted = λ e. sym (sum_below-zero n);
  registered = λ i p. tt;
  referred = λ k e h. ground arith;
  old = λ k e h. ground arith;
  one_key = λ k j e h g. ground arith;
}

-- A registered goroutine refers to entries below `fresh` only.
uses-fresh :
    (locks : List (String × ℕ)) (fresh e : ℕ) (p : Pc)
    → ((k : String) (d : ℕ) → lookup k locks ≡ some d → d < fresh)
    → Registered locks p
    → fresh ≤ e
    → (uses e p ≡ 0) × (holds e p ≡ 0)
uses-fresh locks fresh e outside old r le = ground arith
uses-fresh locks fresh e (acquiring key) old r le = ground arith
uses-fresh locks fresh e (locking key d) old r le = ground (arith, old key d r)
uses-fresh locks fresh e (holding key d) old r le = ground (arith, old key d r)
uses-fresh locks fresh e (releasing key d) old r le = ground (arith, old key d r)

module _ {n : ℕ} {s : System} (inv : Inv n s) where
  pub fresh-unused :
      (e : ℕ)
      → s.locker.fresh ≤ e
      → (sum_below (λ i. uses e (s.pc i)) n ≡ 0) × (sum_below (λ i. holds e (s.pc i)) n ≡ 0)
  fresh-unused e le =
      let each = λ (i : ℕ) (p : i < n). uses-fresh _ _ e (s.pc i) inv.old (inv.registered i p) le in
      (
        sum_below-congr (λ i. uses e (s.pc i)) (λ _. 0) n (λ i p. (each i p).0) ∙ sum_below-zero n,
        sum_below-congr (λ i. holds e (s.pc i)) (λ _. 0) n (λ i p. (each i p).1) ∙ sum_below-zero n,
      )

-- What a step of goroutine `id` from place `p` to `p'` does.
pub record Moved (n id : ℕ) (s t : System) (p p' : Pc) : Type 0 where
  pub places : t.pc ≡ update s.pc id p'
  pub refs_moved : (e : ℕ) → t.locker.refs e + uses e p ≡ s.locker.refs e + uses e p'
  pub held_moved :
      (e : ℕ) → to_num (t.locker.held e) + holds e p ≡ to_num (s.locker.held e) + holds e p'
  pub keeps :
      (i : ℕ) (q : Pc)
      → i < n
      → i ≢ id
      → q ≡ s.pc i
      → Registered s.locker.locks q
      → Registered t.locker.locks q
  pub registers : Registered t.locker.locks p'
  pub still_referred : (k : String) (e : ℕ) → lookup k t.locker.locks ≡ some e → 0 < t.locker.refs e
  pub still_old : (k : String) (e : ℕ) → lookup k t.locker.locks ≡ some e → e < t.locker.fresh
  pub still_one_key :
      (k j : String) (e : ℕ)
      → lookup k t.locker.locks ≡ some e
      → lookup j t.locker.locks ≡ some e
      → k ≡ j

module _ {n id : ℕ} {s t : System} {p' : Pc} (inv : Inv n s) (lt : id < n)
    (m : Moved n id s t (s.pc id) p') where
  Registered-moved : (i : ℕ) → i < n → Registered t.locker.locks (t.pc i)
  Registered-moved i q = elim (ℕ_discrete i id) [
    | yes e ↦
        subst (λ (f : ℕ → Pc). Registered t.locker.locks (f i)) (sym m.places)
          (rw e (ground (arith, m.registers)))
    | no ne ↦
        subst (λ (f : ℕ → Pc). Registered t.locker.locks (f i)) (sym m.places)
          (ground (arith, m.keeps i (s.pc i) q ne refl (inv.registered i q)))
  ]

  pub Moved-Inv : Inv n t
  Moved-Inv = record {
    refs_counted = λ e. rw m.places (
        omega (
          arith,
          inv.refs_counted e,
          m.refs_moved e,
          sum_below-update (λ _. uses e) n s.pc id p' lt,
          le-sum_below (λ i. uses e (s.pc i)) n id lt,
        ));
    held_counted = λ e. rw m.places (
        omega (
          arith,
          inv.held_counted e,
          m.held_moved e,
          sum_below-update (λ _. holds e) n s.pc id p' lt,
          le-sum_below (λ i. holds e (s.pc i)) n id lt,
        ));
    registered = Registered-moved;
    referred = m.still_referred;
    old = m.still_old;
    one_key = m.still_one_key;
  }
