-- ===== src/Base/Sums.antt =====
-- Families indexed by goroutine: update at one index, and sums over the first `n` indices. A sum
-- counts the goroutines that hold a permit, a fork or a reference.
use Prim.Native.Nat.{ℕ, zero, suc, ◌+◌, ◌*◌, ◌≤◌, ◌<◌}
use mathlib.Core.Path.{◌≡◌, refl, ap, sym, subst}
use mathlib.Core.Logic.{◌≢◌, ◌⊎◌, inl, inr}
use mathlib.Core.Bool.{Bool, true, false}
use native.Mathlib.Omega.{arith}
use native.Mathlib.Decide.{dec_lt, ℕ_discrete}
use go_concurrency_examples.Base.Tests.{◌==◌, if◌then◌else◌, Bool-cases}

abbrev pub update {ℓ} : {A : Type ℓ} → (ℕ → A) → ℕ → A → ℕ → A
update f i a j = if i == j then a else f j

unfoldable pub sum_below : (ℕ → ℕ) → ℕ → ℕ
sum_below w zero = 0
sum_below w (suc n) = sum_below w n + w n

pub sum_below-suc : (w : ℕ → ℕ) (n : ℕ) → sum_below w (suc n) ≡ sum_below w n + w n
unfolding sum_below
sum_below-suc w n = refl

pub sum_below-congr :
    (v w : ℕ → ℕ) (n : ℕ) → ((i : ℕ) → i < n → v i ≡ w i) → sum_below v n ≡ sum_below w n
unfolding sum_below
sum_below-congr v w zero h = refl
sum_below-congr v w (suc n) h =
    omega (arith, sum_below-congr v w n (λ i p. h i (omega arith)), h n (omega arith))

-- Two families that differ at `i` alone have sums that differ as they do at `i`.
pub sum_below-change :
    (v w : ℕ → ℕ) (n i : ℕ)
    → i < n
    → ((j : ℕ) → j ≢ i → v j ≡ w j)
    → sum_below v n + w i ≡ sum_below w n + v i
unfolding sum_below
sum_below-change v w zero i p h = absurd (omega arith)
sum_below-change v w (suc n) i p h = elim (ℕ_discrete n i) [
  | yes e ↦ rw e (omega (arith, sum_below-congr v w i (λ j q. h j (omega arith))))
  | no ne ↦ omega (arith, sum_below-change v w n i (omega arith) h, h n ne)
]

module _ {ℓ} {A : Type ℓ} (w : ℕ → A → ℕ) where
  -- Goroutine `i` goes from `f i` to `a`, and the sum follows.
  pub sum_below-update :
      (n : ℕ) (f : ℕ → A) (i : ℕ) (a : A)
      → i < n
      → sum_below (λ k. w k (update f i a k)) n + w i (f i) ≡ sum_below (λ k. w k (f k)) n + w i a
  sum_below-update n f i a p =
      let step =
        sum_below-change (λ k. w k (update f i a k)) (λ k. w k (f k)) n i p
          (λ j ne. ground arith) in
      ground (arith, step)

pub le-sum_below : (w : ℕ → ℕ) (n i : ℕ) → i < n → w i ≤ sum_below w n
unfolding sum_below
le-sum_below w zero i p = absurd (omega arith)
le-sum_below w (suc n) i p = elim (ℕ_discrete n i) [
  | yes e ↦ rw e (omega arith)
  | no ne ↦ omega (arith, le-sum_below w n i (omega arith))
]

pub le-sum_below_two : (w : ℕ → ℕ) (n i j : ℕ) → i < n → j < n → i ≢ j → w i + w j ≤ sum_below w n
unfolding sum_below
le-sum_below_two w zero i j p q ne = absurd (omega arith)
le-sum_below_two w (suc n) i j p q ne = elim (ℕ_discrete n i) [
  | yes e ↦ rw e (omega (arith, le-sum_below w i j (omega arith)))
  | no ni ↦ elim (ℕ_discrete n j) [
    | yes e ↦ rw e (omega (arith, le-sum_below w j i (omega arith)))
    | no nj ↦ omega (arith, le-sum_below_two w n i j (omega arith) (omega arith) ne)
  ]
]

pub sum_below_bound : (w : ℕ → ℕ) (n c : ℕ) → ((i : ℕ) → i < n → w i ≤ c) → sum_below w n ≤ n * c
unfolding sum_below
sum_below_bound w zero c h = omega arith
sum_below_bound w (suc n) c h =
    omega (arith, sum_below_bound w n c (λ i p. h i (omega arith)), h n (omega arith))

pub sum_below-const : (c n : ℕ) → sum_below (λ _. c) n ≡ n * c
unfolding sum_below
sum_below-const c zero = omega arith
sum_below-const c (suc n) = omega (arith, sum_below-const c n)

pub sum_below-zero : (n : ℕ) → sum_below (λ _. 0) n ≡ 0
sum_below-zero n = omega (arith, sum_below-const 0 n)

-- Of `n` indices that count at most 1 each, one that counts 0 keeps the sum below `n`.
pub sum_below-lt : (w : ℕ → ℕ) (n i : ℕ) → i < n → ((j : ℕ) → w j ≤ 1) → w i ≡ 0 → sum_below w n < n
unfolding sum_below
sum_below-lt w zero i p small e = absurd (omega arith)
sum_below-lt w (suc n) i p small e = elim (ℕ_discrete n i) [
  | yes is_i ↦
      let bound = sum_below_bound w n 1 (λ j q. small j) in let last = ap w is_i in omega arith
  | no ne ↦ omega (arith, sum_below-lt w n i (omega arith) small e, small n)
]

-- A positive sum has a positive term.
pub sum_below_pos : (w : ℕ → ℕ) (n : ℕ) → 0 < sum_below w n → (i : ℕ) × (i < n) × (0 < w i)
unfolding sum_below
sum_below_pos w zero h = absurd (omega arith)
sum_below_pos w (suc n) h = elim (dec_lt 0 (w n)) [
  | yes p ↦ (n, omega arith, p)
  | no p ↦ let (i, q, r) = sum_below_pos w n (omega arith) in (i, omega arith, r)
]

-- A bounded search: an index that passes the test, or the proof that none does.
pub search_below :
    (f : ℕ → Bool) (n : ℕ) → ((i : ℕ) × (i < n) × (f i ≡ true)) ⊎ ((i : ℕ) → i < n → f i ≡ false)
search_below f zero = inr (λ i p. absurd (omega arith))
search_below f (suc n) = elim (Bool-cases (f n)) [
  | inl e ↦ inl (n, omega arith, e)
  | inr e ↦ elim (search_below f n) [
    | inl (i, p, q) ↦ inl (i, omega arith, q)
    | inr none_below ↦
        inr
          λ i p. elim (ℕ_discrete i n) [ yes is_n ↦ rw is_n e | no ne ↦ none_below i (omega arith) ]
  ]
]

pub sum_below-add :
    (v w : ℕ → ℕ) (n : ℕ) → sum_below (λ i. v i + w i) n ≡ sum_below v n + sum_below w n
unfolding sum_below
sum_below-add v w zero = omega arith
sum_below-add v w (suc n) = omega (arith, sum_below-add v w n)

pub sum_below_mono :
    (v w : ℕ → ℕ) (n : ℕ) → ((i : ℕ) → i < n → v i ≤ w i) → sum_below v n ≤ sum_below w n
unfolding sum_below
sum_below_mono v w zero h = omega arith
sum_below_mono v w (suc n) h =
    omega (arith, sum_below_mono v w n (λ i p. h i (omega arith)), h n (omega arith))

-- What holds of the new value at `i`, and of every other value before, holds of the family after.
pub update-elim {ℓ κ} :
    {A : Type ℓ} (P : ℕ → A → Type κ) (f : ℕ → A) (i : ℕ) (a : A)
    → P i a
    → ((k : ℕ) → k ≢ i → P k (f k))
    → (k : ℕ) → P k (update f i a k)
update-elim P f i a mine others k = elim (ℕ_discrete i k) [
  | yes e ↦ subst (λ j. P j (update f i a j)) e (subst (λ v. P i v) (ground arith) mine)
  | no ne ↦ subst (λ v. P k v) (ground arith) (others k (λ e. ne (sym e)))
]
