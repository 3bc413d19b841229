-- ===== src/Flight/Calls.antt =====
-- The calls in flight of examples/singleflight: a key is in the map exactly while one goroutine
-- leads its call.
use text.Mathlib.TextEquality.{eq_iff}
use go_concurrency_examples.Base.Dict.{lookup, delete, insert, lookup-delete, lookup-insert}
use go_concurrency_examples.Base.{
  List, String, not, some, sum_below, to_num, ℕ, ◌<◌, ◌==◌, ◌≡◌, arith, le-sum_below_two, none,
  refl, suc, sum_below-congr, sum_below-update, sum_below-zero, update, ℕ_discrete, ◌+◌, ◌∙◌, ◌≢◌,
}
use go_concurrency_examples.Flight.{
  Pc, System, deleting, following, running, storing, entering, outside,
}

-- 1 if the goroutine made the call `c` and has not deleted it.
abbrev pub leads : ℕ → Pc → ℕ
leads c (running key d) = to_num (d == c)
leads c (storing key d) = to_num (d == c)
leads c (deleting key d) = to_num (d == c)
leads c _ = 0

-- 1 if the goroutine has still to finish the call `c`.
abbrev pub works : ℕ → Pc → ℕ
works c (running key d) = to_num (d == c)
works c (storing key d) = to_num (d == c)
works c _ = 0

abbrev pub Listed : List (String × ℕ) → ℕ → Pc → Type 0
Listed calls fresh (running key c) = lookup key calls ≡ some c
Listed calls fresh (storing key c) = lookup key calls ≡ some c
Listed calls fresh (deleting key c) = lookup key calls ≡ some c
Listed calls fresh (following key c) = c < fresh
Listed calls fresh _ = Unit {0}

pub record Inv {V : Type 0} (n : ℕ) (s : System V) : Type 0 where
  pub led :
      (k : String) (c : ℕ)
      → lookup k s.group.calls ≡ some c
      → sum_below (λ i. leads c (s.pc i)) n ≡ 1
  pub working :
      (c : ℕ)
      → c < s.group.fresh
      → to_num (not (s.group.finished c)) ≡ sum_below (λ i. works c (s.pc i)) n
  pub listed : (i : ℕ) → i < n → Listed s.group.calls s.group.fresh (s.pc i)
  pub old : (k : String) (c : ℕ) → lookup k s.group.calls ≡ some c → c < s.group.fresh
  pub one_key :
      (k j : String) (c : ℕ)
      → lookup k s.group.calls ≡ some c
      → lookup j s.group.calls ≡ some c
      → k ≡ j

-- What a step of goroutine `id` from `p` to `p'` does.
pub record Moved {V : Type 0} (n id : ℕ) (s t : System V) (p p' : Pc) : Type 0 where
  pub places : t.pc ≡ update s.pc id p'
  pub led_moved :
      (k : String) (c : ℕ)
      → lookup k t.group.calls ≡ some c
      → sum_below (λ i. leads c (s.pc i)) n + leads c p' ≡ 1 + leads c p
  pub work_moved :
      (c : ℕ)
      → c < t.group.fresh
      → to_num (not (t.group.finished c)) + works c p
        ≡ sum_below (λ i. works c (s.pc i)) n + works c p'
  pub keeps :
      (i : ℕ) (q : Pc)
      → i < n
      → i ≢ id
      → q ≡ s.pc i
      → Listed s.group.calls s.group.fresh q
      → Listed t.group.calls t.group.fresh q
  pub place : Listed t.group.calls t.group.fresh p'
  pub still_old : (k : String) (c : ℕ) → lookup k t.group.calls ≡ some c → c < t.group.fresh
  pub still_one_key :
      (k j : String) (c : ℕ)
      → lookup k t.group.calls ≡ some c
      → lookup j t.group.calls ≡ some c
      → k ≡ j

module _ {V : Type 0} {n id : ℕ} {s t : System V} {p' : Pc} (inv : Inv n s) (lt : id < n)
    (m : Moved n id s t (s.pc id) p') where
  Listed-moved : (i : ℕ) → i < n → Listed t.group.calls t.group.fresh (t.pc i)
  Listed-moved i q = rw m.places (elim (ℕ_discrete i id) [
    | yes e ↦ ground (arith, e, m.place)
    | no ne ↦ ground (arith, m.keeps i (s.pc i) q ne refl (inv.listed i q))
  ])

  pub Moved-Inv : Inv n t
  Moved-Inv = record {
    led = λ k c at.
        rw m.places
          (omega (arith, m.led_moved k c at, sum_below-update (λ _. leads c) n s.pc id p' lt));
    working = λ c h.
        rw m.places
          (omega (arith, m.work_moved c h, sum_below-update (λ _. works c) n s.pc id p' lt));
    listed = Listed-moved;
    old = m.still_old;
    one_key = m.still_one_key;
  }

Listed-fresh :
    (calls : List (String × ℕ)) (fresh : ℕ) (p : Pc)
    → ((k : String) (c : ℕ) → lookup k calls ≡ some c → c < fresh)
    → Listed calls fresh p
    → (leads fresh p ≡ 0) × (works fresh p ≡ 0)
Listed-fresh calls fresh outside old h = (refl, refl)
Listed-fresh calls fresh (entering k) old h = (refl, refl)
Listed-fresh calls fresh (following k c) old h = (refl, refl)
Listed-fresh calls fresh (running k c) old h = ground (arith, old k c)
Listed-fresh calls fresh (storing k c) old h = ground (arith, old k c)
Listed-fresh calls fresh (deleting k c) old h = ground (arith, old k c)

pub Listed-insert :
    (calls : List (String × ℕ)) (fresh : ℕ) (k : String) (p : Pc)
    → lookup k calls ≡ none
    → Listed calls fresh p
    → Listed (insert k fresh calls) (suc fresh) p
Listed-insert calls fresh k outside at h = tt
Listed-insert calls fresh k (entering j) at h = tt
Listed-insert calls fresh k (following j c) at h = omega (arith, h)
Listed-insert calls fresh k (running j c) at h =
    ground (arith, lookup-insert k j fresh calls, eq_iff k j)
Listed-insert calls fresh k (storing j c) at h =
    ground (arith, lookup-insert k j fresh calls, eq_iff k j)
Listed-insert calls fresh k (deleting j c) at h =
    ground (arith, lookup-insert k j fresh calls, eq_iff k j)

pub Listed-delete :
    (calls : List (String × ℕ)) (fresh : ℕ) (k : String) (c : ℕ) (p : Pc)
    → lookup k calls ≡ some c
    → leads c p ≡ 0
    → Listed calls fresh p
    → Listed (delete k calls) fresh p
Listed-delete calls fresh k c outside at h l = tt
Listed-delete calls fresh k c (entering j) at h l = tt
Listed-delete calls fresh k c (following j d) at h l = l
Listed-delete calls fresh k c (running j d) at h l =
    ground (arith, lookup-delete k j calls, eq_iff k j)
Listed-delete calls fresh k c (storing j d) at h l =
    ground (arith, lookup-delete k j calls, eq_iff k j)
Listed-delete calls fresh k c (deleting j d) at h l =
    ground (arith, lookup-delete k j calls, eq_iff k j)

module _ {V : Type 0} {n : ℕ} {s : System V} (inv : Inv n s) where
  pub fresh-unused :
      (sum_below (λ i. leads s.group.fresh (s.pc i)) n ≡ 0)
      × (sum_below (λ i. works s.group.fresh (s.pc i)) n ≡ 0)
  fresh-unused =
      let f = s.group.fresh in
      let each =
        λ (i : ℕ) (p : i < n). Listed-fresh s.group.calls f (s.pc i) inv.old (inv.listed i p) in
      (
        sum_below-congr (λ i. leads f (s.pc i)) (λ _. 0) n (λ i p. (each i p).0) ∙ sum_below-zero n,
        sum_below-congr (λ i. works f (s.pc i)) (λ _. 0) n (λ i p. (each i p).1) ∙ sum_below-zero n,
      )

  pub sole-leader :
      (k : String) (c i j : ℕ)
      → lookup k s.group.calls ≡ some c
      → i < n
      → j < n
      → i ≢ j
      → leads c (s.pc j) ≡ 1
      → leads c (s.pc i) ≡ 0
  sole-leader k c i j at p q ne mine =
      omega (arith, inv.led k c at, le-sum_below_two (λ x. leads c (s.pc x)) n i j p q ne)
