-- ===== src/Bank/Balances.antt =====
-- examples/bankaccount/account.go: balances stay non-negative int64 values, and money is neither
-- made nor lost.
use go_concurrency_examples.Base.Int.{
  ℤ, pos, negsuc, pos_part, neg_part, max_int, sub64-pos, add64-pos,
}
use go_concurrency_examples.Base.{
  Option, arith, dec_lt, ltb, none, refl, some, sum_below, sum_below-update, true, ℕ, ◌+◌, ◌<◌, ◌≡◌,
  ◌≤◌, ◌-◌, ◌≢◌,
}
use go_concurrency_examples.Bank.{
  Account, Bank, Error, deposit, is_ready, set_balance, transfer, withdraw, would_overflow,
}

-- A balance is a non-negative int64; an address that `New` has not given out holds a zero account.
abbrev pub IsBalance : ℤ → Type 0
IsBalance z = (neg_part z ≡ 0) × (pos_part z ≤ max_int)

pub record IsValid (b : Bank) : Type 0 where
  pub balances : (a : ℕ) → IsBalance (b.accounts a).balance
  pub unused :
      (a : ℕ) → b.allocated ≤ a → ((b.accounts a).seq ≡ 0) × ((b.accounts a).balance ≡ pos 0)

abbrev pub total : Bank → ℕ
total b = sum_below (λ a. pos_part (b.accounts a).balance) b.allocated

nonneg : (z : ℤ) → neg_part z ≡ 0 → z ≡ pos (pos_part z)
nonneg (pos n) h = refl
nonneg (negsuc n) h = absurd (omega arith)

pub would_overflow-pos :
    (m k : ℕ) → m ≤ max_int → would_overflow (pos m) (pos k) ≡ ltb max_int (m + k)
unfolding would_overflow
would_overflow-pos m k h = rw (sub64-pos max_int m h (omega arith)) (ground arith)

-- The account that a call pays into or out of, with its balance as a natural number.
module _ {b : Bank} (v : IsValid b) where
  pub balance_pos : (a : ℕ) → (b.accounts a).balance ≡ pos (pos_part (b.accounts a).balance)
  balance_pos a = nonneg _ (v.balances a).0

  pub ready_allocated : (a : ℕ) → is_ready (b.accounts a) ≡ true → a < b.allocated
  unfolding is_ready
  ready_allocated a h = elim (dec_lt a b.allocated) [
    | yes p ↦ p
    | no p ↦ absurd (ground (arith, v.unused a))
  ]

  pub set_balance-IsValid :
      (a m : ℕ) → a < b.allocated → m ≤ max_int → IsValid (set_balance a (pos m) b)
  unfolding set_balance
  set_balance-IsValid a m lt h = record {
    balances = λ c. ground (arith, v.balances c);
    unused = λ c le. ground (arith, v.unused c);
  }

  pub total-set_balance :
      (a m : ℕ)
      → a < b.allocated
      → total (set_balance a (pos m) b) + pos_part (b.accounts a).balance ≡ total b + m
  unfolding set_balance
  total-set_balance a m lt =
      sum_below-update (λ _ (x : Account). pos_part x.balance) b.allocated b.accounts a
        (record (b.accounts a) { balance = pos m }) lt

  abbrev cents : ℕ → ℕ
  cents a = pos_part (b.accounts a).balance

  pub deposit-none :
      (a : ℕ) (amount : ℤ)
      → (deposit (some a) amount b).1 ≡ none
      → (a < b.allocated)
        × (cents a + pos_part amount ≤ max_int)
        × ((deposit (some a) amount b).0 ≡ set_balance a (pos (cents a + pos_part amount)) b)
  unfolding deposit set_balance
  deposit-none a (negsuc k) h = ground arith
  deposit-none a (pos k) h = ground (
    arith,
    balance_pos a,
    v.balances a,
    ready_allocated a,
    would_overflow-pos (cents a) k,
    add64-pos (cents a) k,
  )

  pub withdraw-none :
      (a : ℕ) (amount : ℤ)
      → (withdraw (some a) amount b).1 ≡ none
      → (a < b.allocated)
        × (pos_part amount ≤ cents a)
        × ((withdraw (some a) amount b).0 ≡ set_balance a (pos (cents a - pos_part amount)) b)
  unfolding withdraw set_balance
  withdraw-none a (negsuc k) h = ground arith
  withdraw-none a (pos k) h =
      ground (arith, balance_pos a, v.balances a, ready_allocated a, sub64-pos (cents a) k)

  pub transfer-none :
      (from to : ℕ) (amount : ℤ)
      → (transfer (some from) (some to) amount b).1 ≡ none
      → (from < b.allocated)
        × (to < b.allocated)
        × (from ≢ to)
        × (pos_part amount ≤ cents from)
        × (cents to + pos_part amount ≤ max_int)
        × ((transfer (some from) (some to) amount b).0
            ≡ set_balance to
                (pos (cents to + pos_part amount))
                (set_balance from (pos (cents from - pos_part amount)) b))
  unfolding transfer set_balance
  transfer-none from to (negsuc k) h = ground arith
  transfer-none from to (pos k) h = ground (
    arith,
    balance_pos from,
    balance_pos to,
    v.balances from,
    v.balances to,
    ready_allocated from,
    ready_allocated to,
    sub64-pos (cents from) k,
    would_overflow-pos (cents to) k,
    add64-pos (cents to) k,
  )

pub deposit-some :
    (p : Option ℕ) (amount : ℤ) (b : Bank) (e : Error)
    → (deposit p amount b).1 ≡ some e
    → (deposit p amount b).0 ≡ b
unfolding deposit
deposit-some none amount b e h = ground arith
deposit-some (some a) amount b e h = ground arith

pub withdraw-some :
    (p : Option ℕ) (amount : ℤ) (b : Bank) (e : Error)
    → (withdraw p amount b).1 ≡ some e
    → (withdraw p amount b).0 ≡ b
unfolding withdraw
withdraw-some none amount b e h = ground arith
withdraw-some (some a) amount b e h = ground arith

pub transfer-some :
    (p q : Option ℕ) (amount : ℤ) (b : Bank) (e : Error)
    → (transfer p q amount b).1 ≡ some e
    → (transfer p q amount b).0 ≡ b
unfolding transfer
transfer-some none q amount b e h = ground arith
transfer-some (some a) none amount b e h = ground arith
transfer-some (some a) (some c) amount b e h = ground arith
