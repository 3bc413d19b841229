-- ===== src/Bank/Ledger.antt =====
-- Money in examples/bankaccount/account.go over any sequence of calls: what is in the accounts is
-- what was paid in less what was paid out.
mod Tests
use go_concurrency_examples.Base.Int.{ℤ, IsInt64, pos, pos_part, add64-pos, max_int, sub64-pos}
use go_concurrency_examples.Bank.Balances.{
  IsValid, total, set_balance-IsValid, total-set_balance, deposit-none, deposit-some, transfer-none,
  transfer-some, withdraw-none, withdraw-some, IsBalance, balance_pos, would_overflow-pos,
}
use go_concurrency_examples.Base.{
  Option, Option-cases, String, arith, inl, inr, ℕ, ◌+◌, ◌≡◌, none, refl, some, sum_below-congr,
  sum_below-suc, update, ◌%◌, ◌^◌, ap, ◌-◌, ◌≢◌, ◌⊎◌, All, List, [], sum_below-zero, true, ◌<◌, ◌∷◌,
  ◌≤◌,
}
use go_concurrency_examples.Bank.{
  Bank, deposit, open_account, Account, Error, transfer, withdraw, set_balance, balance_overflow,
  insufficient_funds, is_ready,
}

pub data Call : Type 0 where
  opens : String → ℤ → Call
  deposits : Option ℕ → ℤ → Call
  withdraws : Option ℕ → ℤ → Call
  transfers : Option ℕ → Option ℕ → ℤ → Call

pub perform : Call → Bank → Bank
perform (opens id opening) b = (open_account id opening b).1
perform (deposits a amount) b = (deposit a amount b).0
perform (withdraws a amount) b = (withdraw a amount b).0
perform (transfers from to amount) b = (transfer from to amount b).0

-- No account yet: `accounts` holds the zero value everywhere.
pub empty_bank : Bank
empty_bank = record {
  accounts = λ _. record { id = ""; seq = 0; balance = pos 0 };
  allocated = 0;
  next_sequence = 0;
}

-- What a call pays into the bank and out of it: the amount if it succeeds, else nothing.
abbrev pub on_success : Option Error → ℤ → ℕ
on_success none amount = pos_part amount
on_success (some e) amount = 0

abbrev pub paid_in : Call → Bank → ℕ
paid_in (opens id opening) b = elim (open_account id opening b).0 [
  | inl a ↦ pos_part opening
  | inr e ↦ 0
]
paid_in (deposits a amount) b = on_success (deposit a amount b).1 amount
paid_in (withdraws a amount) b = 0
paid_in (transfers from to amount) b = 0

abbrev pub paid_out : Call → Bank → ℕ
paid_out (withdraws a amount) b = on_success (withdraw a amount b).1 amount
paid_out _ b = 0

-- The arguments of a call are int64 values.
abbrev pub Fits : Call → Type 0
Fits (opens id amount) = IsInt64 amount
Fits (deposits a amount) = IsInt64 amount
Fits (withdraws a amount) = IsInt64 amount
Fits (transfers from to amount) = IsInt64 amount

-- One call keeps the bank valid and accounts for its money.
pub record Sound (c : Call) (b : Bank) : Type 0 where
  pub valid : IsValid (perform c b)
  pub balanced : total (perform c b) + paid_out c b ≡ total b + paid_in c b

abbrev cents : Bank → ℕ → ℕ
cents b a = pos_part (b.accounts a).balance

deposit_nil : (amount : ℤ) (b : Bank) → (deposit none amount b).1 ≢ none
unfolding deposit
deposit_nil amount b h = ground arith

withdraw_nil : (amount : ℤ) (b : Bank) → (withdraw none amount b).1 ≢ none
unfolding withdraw
withdraw_nil amount b h = ground arith

transfer_nil :
    (p q : Option ℕ) (amount : ℤ) (b : Bank)
    → (p ≡ none) ⊎ (q ≡ none)
    → (transfer p q amount b).1 ≢ none
unfolding transfer
transfer_nil none q amount b nil h = ground arith
transfer_nil (some a) none amount b nil h = ground arith
transfer_nil (some a) (some c) amount b nil h = ground arith

set_balance-allocated : (a m : ℕ) (b : Bank) → (set_balance a (pos m) b).allocated ≡ b.allocated
unfolding set_balance
set_balance-allocated a m b = refl

set_balance_other :
    (a c m : ℕ) (b : Bank) → a ≢ c → ((set_balance a (pos m) b).accounts c) ≡ b.accounts c
unfolding set_balance
set_balance_other a c m b ne = ground arith

unchanged-Sound :
    (c : Call) (b : Bank)
    → IsValid b
    → perform c b ≡ b
    → paid_in c b ≡ 0
    → paid_out c b ≡ 0
    → Sound c b
unchanged-Sound c b v e i o = record { valid = rw e v; balanced = rw (e, i, o) refl }

module _ (b : Bank) (v : IsValid b) where
  opened_total :
      (id : String) (amount : ℤ) {a : ℕ}
      → (open_account id amount b).0 ≡ inl a
      → total (open_account id amount b).1 ≡ total b + pos_part amount
  unfolding open_account
  opened_total id amount h =
      let account : Account = record {
        id = id;
        seq = (b.next_sequence + 1) % 2 ^ 64;
        balance = amount;
      } in
      let old =
        sum_below-congr (λ a. pos_part (update b.accounts b.allocated account a).balance)
          (λ a. pos_part (b.accounts a).balance) b.allocated (λ a lt. ground arith) in
      let new =
        sum_below-suc (λ a. pos_part (update b.accounts b.allocated account a).balance)
          b.allocated in
      ground (arith, old, new)

  open-Sound : (id : String) (amount : ℤ) → IsInt64 amount → Sound (opens id amount) b
  unfolding perform open_account
  open-Sound id amount fits = record {
    valid = record {
      balances = λ a. ground (arith, v.balances a);
      unused = λ a le. ground (arith, v.unused a);
    };
    balanced = ground (arith, opened_total id amount {a = b.allocated});
  }

  deposit-Sound : (p : Option ℕ) (amount : ℤ) → Sound (deposits p amount) b
  unfolding perform
  deposit-Sound p amount = elim (Option-cases (deposit p amount b).1) [
    | inr (e, h) ↦
        unchanged-Sound (deposits p amount) b v (deposit-some p amount b e h) (rw h refl) refl
    | inl h ↦ paid p h
  ]
    where
      paid : (p : Option ℕ) → (deposit p amount b).1 ≡ none → Sound (deposits p amount) b
      paid none h = absurd (deposit_nil amount b h)
      paid (some a) h =
          let (lt, fits, e) = deposit-none v a amount h in
          let after = total-set_balance v a (cents b a + pos_part amount) lt in
          record {
            valid = rw e (set_balance-IsValid v a _ lt fits);
            balanced = rw (e, h) (omega (arith, after));
          }

  withdraw-Sound : (p : Option ℕ) (amount : ℤ) → Sound (withdraws p amount) b
  unfolding perform
  withdraw-Sound p amount = elim (Option-cases (withdraw p amount b).1) [
    | inr (e, h) ↦
        unchanged-Sound (withdraws p amount) b v (withdraw-some p amount b e h) refl (rw h refl)
    | inl h ↦ paid p h
  ]
    where
      paid : (p : Option ℕ) → (withdraw p amount b).1 ≡ none → Sound (withdraws p amount) b
      paid none h = absurd (withdraw_nil amount b h)
      paid (some a) h =
          let (lt, covers, e) = withdraw-none v a amount h in
          let after = total-set_balance v a (cents b a - pos_part amount) lt in
          let small = (v.balances a).1 in
          record {
            valid = rw e (set_balance-IsValid v a _ lt (omega arith));
            balanced = rw (e, h) (omega (arith, after));
          }

  transfer-Sound : (p q : Option ℕ) (amount : ℤ) → Sound (transfers p q amount) b
  unfolding perform
  transfer-Sound p q amount = elim (Option-cases (transfer p q amount b).1) [
    | inr (e, h) ↦
        unchanged-Sound (transfers p q amount) b v (transfer-some p q amount b e h) refl refl
    | inl h ↦ moved p q h
  ]
    where
      moved : (p q : Option ℕ) → (transfer p q amount b).1 ≡ none → Sound (transfers p q amount) b
      moved none q h = absurd (transfer_nil none q amount b (inl refl) h)
      moved (some from) none h = absurd (transfer_nil (some from) none amount b (inr refl) h)
      moved (some from) (some to) h =
          let (lt_from, lt_to, ne, covers, fits, e) = transfer-none v from to amount h in
          let left : ℕ = cents b from - pos_part amount in
          let small = (v.balances from).1 in
          let w = set_balance-IsValid v from left lt_from (omega arith) in
          let there : to < (set_balance from (pos left) b).allocated =
            rw (set_balance-allocated from left b) lt_to in
          let taken = total-set_balance v from left lt_from in
          let given = total-set_balance w to (cents b to + pos_part amount) there in
          let same = set_balance_other from to left b ne in
          record {
            valid = rw e (set_balance-IsValid w to _ there fits);
            balanced =
                rw e (omega (arith, taken, given, ap (λ (x : Account). pos_part x.balance) same));
          }

pub perform-Sound : (c : Call) (b : Bank) → Fits c → IsValid b → Sound c b
perform-Sound (opens id amount) b fits v = open-Sound b v id amount fits
perform-Sound (deposits p amount) b fits v = deposit-Sound b v p amount
perform-Sound (withdraws p amount) b fits v = withdraw-Sound b v p amount
perform-Sound (transfers p q amount) b fits v = transfer-Sound b v p q amount

pub run : List Call → Bank → Bank
run [] b = b
run (c ∷ cs) b = run cs (perform c b)

-- What the successful calls of a sequence pay in and out, in all.
pub all_in : List Call → Bank → ℕ
all_in [] b = 0
all_in (c ∷ cs) b = paid_in c b + all_in cs (perform c b)

pub all_out : List Call → Bank → ℕ
all_out [] b = 0
all_out (c ∷ cs) b = paid_out c b + all_out cs (perform c b)

run-Sound :
    (cs : List Call) (b : Bank)
    → All Fits cs
    → IsValid b
    → IsValid (run cs b) × (total (run cs b) + all_out cs b ≡ total b + all_in cs b)
unfolding run all_in all_out
run-Sound [] b fits v = (v, refl)
run-Sound (c ∷ cs) b fits v =
    let one = perform-Sound c b fits.0 v in
    let (valid, balanced) = run-Sound cs (perform c b) fits.1 one.valid in
    (valid, omega (arith, one.balanced))

empty_bank-IsValid : IsValid empty_bank
unfolding empty_bank
empty_bank-IsValid = record { balances = λ a. omega arith; unused = λ a le. (refl, refl) }

total-empty_bank : total empty_bank ≡ 0
unfolding empty_bank
total-empty_bank = sum_below-zero 0

-- After any calls of New, Deposit, Withdraw and Transfer with int64 amounts, on any accounts and
-- nil pointers, the balances add up to what the successful calls opened accounts with and
-- deposited, less what they withdrew: a transfer, and a call that fails, moves no money.
pub bank_conserves :
    (cs : List Call)
    → All Fits cs
    → total (run cs empty_bank) + all_out cs empty_bank ≡ all_in cs empty_bank
bank_conserves cs fits =
    omega (arith, run-Sound cs empty_bank fits empty_bank-IsValid, total-empty_bank)

-- After any such calls every balance is non-negative and at most math.MaxInt64.
pub bank_balances :
    (cs : List Call) (a : ℕ) → All Fits cs → IsBalance ((run cs empty_bank).accounts a).balance
bank_balances cs a fits = (run-Sound cs empty_bank fits empty_bank-IsValid).0.balances a

-- Transfer between two different accounts that are ready, of an amount of k > 0 cents: it succeeds
-- exactly if the sender has k cents and the receiver's balance does not overflow, and then moves k
-- cents and leaves the other accounts alone; else it changes nothing and reports which of the two
-- conditions failed, the sender's first.
transfer_lem :
    (b : Bank) (from to k : ℕ)
    → IsValid b
    → from ≢ to
    → is_ready (b.accounts from) ≡ true
    → is_ready (b.accounts to) ≡ true
    → 0 < k
    → let (t, e) = transfer (some from) (some to) (pos k) b in
      (cents b from < k → (t ≡ b) × (e ≡ some insufficient_funds))
      × (k ≤ cents b from → max_int < cents b to + k → (t ≡ b) × (e ≡ some balance_overflow))
      × (k ≤ cents b from
          → cents b to + k ≤ max_int
          → (e ≡ none)
            × ((t.accounts from).balance ≡ pos (cents b from - k))
            × ((t.accounts to).balance ≡ pos (cents b to + k))
            × ((c : ℕ) → c ≢ from → c ≢ to → t.accounts c ≡ b.accounts c))
unfolding transfer set_balance
transfer_lem b from to k v ne ready_from ready_to positive =
    let at_from = balance_pos v from in
    let at_to = balance_pos v to in
    let small = v.balances from in
    let small_to = v.balances to in
    let over = would_overflow-pos (cents b to) k in
    let less = sub64-pos (cents b from) k in
    let more = add64-pos (cents b to) k in
    (
      λ h. ground arith,
      λ h h'. ground arith,
      λ h h'. (ground arith, ground arith, ground arith, λ c nf nt. ground arith),
    )
