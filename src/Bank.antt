-- ===== src/Bank.antt =====
-- examples/bankaccount/account.go. An account is an address in `Bank.accounts`; a nil pointer is
-- `none`. Each method is one critical section, so its body is one function; the locks that it
-- takes, and in which order, are in Bank/Locks.
pub mod Locks
pub mod Ledger
pub mod Balances
use go_concurrency_examples.Base.Int.{ℤ, pos, leb_ℤ, ltb_ℤ, add64, sub64, max_int}
use go_concurrency_examples.Base.{
  Bool, Option, String, if◌then◌else◌, inl, inr, is_empty, none, not, some, update, ℕ, ◌%◌, ◌&&◌,
  ◌+◌, ◌==◌, ◌^◌, ◌||◌, ◌⊎◌, suc,
}

pub data Error : Type 0 where
  empty_id uninitialized invalid_amount insufficient_funds balance_overflow : Error
  nil_account same_account negative_opening : Error

pub record Account : Type 0 where
  pub id : String
  pub seq : ℕ
  pub balance : ℤ

pub record Bank : Type 0 where
  pub accounts : ℕ → Account
  pub allocated : ℕ
  pub next_sequence : ℕ

-- `New`: the address of the account; `nextSequence` is a uint64 and wraps.
pub open_account : String → ℤ → Bank → (ℕ ⊎ Error) × Bank
open_account id opening b =
    if is_empty id
    then (inr empty_id, b)
    else (if ltb_ℤ opening (pos 0)
        then (inr negative_opening, b)
        else let seq = (b.next_sequence + 1) % 2 ^ 64 in
          let account : Account = record { id = id; seq = seq; balance = opening } in
          (
            inl b.allocated,
            record {
              accounts = update b.accounts b.allocated account;
              allocated = suc b.allocated;
              next_sequence = seq;
            },
          ))

pub is_ready : Account → Bool
is_ready a = not (a.seq == 0) && not (is_empty a.id)

pub would_overflow : ℤ → ℤ → Bool
would_overflow current delta = ltb_ℤ (sub64 (pos max_int) current) delta

pub set_balance : ℕ → ℤ → Bank → Bank
set_balance a balance b = record b {
  accounts = update b.accounts a (record (b.accounts a) { balance = balance });
}

-- `ID`.
pub account_id : Option ℕ → Bank → String
account_id none b = ""
account_id (some a) b = (b.accounts a).id

-- `Balance`.
pub balance_of : Option ℕ → Bank → ℤ
unfolding is_ready
balance_of none b = pos 0
balance_of (some a) b = if not (is_ready (b.accounts a)) then pos 0 else (b.accounts a).balance

-- `Deposit`; the order of its checks is that of the source.
deposit_to : Option ℕ → ℤ → Bank → Bank × Option Error
unfolding is_ready would_overflow set_balance
deposit_to none amount b = (b, some nil_account)
deposit_to (some a) amount b =
    let account = b.accounts a in
    if not (is_ready account)
    then (b, some uninitialized)
    else (if would_overflow account.balance amount
        then (b, some balance_overflow)
        else (set_balance a (add64 account.balance amount) b, none))

pub deposit : Option ℕ → ℤ → Bank → Bank × Option Error
unfolding deposit_to
deposit a amount b =
    if leb_ℤ amount (pos 0) then (b, some invalid_amount) else deposit_to a amount b

withdraw_from : Option ℕ → ℤ → Bank → Bank × Option Error
unfolding is_ready set_balance
withdraw_from none amount b = (b, some nil_account)
withdraw_from (some a) amount b =
    let account = b.accounts a in
    if not (is_ready account)
    then (b, some uninitialized)
    else (if ltb_ℤ account.balance amount
        then (b, some insufficient_funds)
        else (set_balance a (sub64 account.balance amount) b, none))

pub withdraw : Option ℕ → ℤ → Bank → Bank × Option Error
unfolding withdraw_from
withdraw a amount b =
    if leb_ℤ amount (pos 0) then (b, some invalid_amount) else withdraw_from a amount b

-- The part of `Transfer` under both locks: the second assignment reads what the first has written.
move_funds : ℕ → ℕ → ℤ → Bank → Bank × Option Error
unfolding would_overflow set_balance
move_funds from to amount b =
    if ltb_ℤ (b.accounts from).balance amount
    then (b, some insufficient_funds)
    else (if would_overflow (b.accounts to).balance amount
        then (b, some balance_overflow)
        else let taken = set_balance from (sub64 (b.accounts from).balance amount) b in
          (set_balance to (add64 (taken.accounts to).balance amount) taken, none))

transfer_between : Option ℕ → Option ℕ → ℤ → Bank → Bank × Option Error
unfolding is_ready move_funds
transfer_between none to amount b = (b, some nil_account)
transfer_between (some from) none amount b = (b, some nil_account)
transfer_between (some from) (some to) amount b =
    if not (is_ready (b.accounts from)) || not (is_ready (b.accounts to))
    then (b, some uninitialized)
    else (if from == to then (b, some same_account) else move_funds from to amount b)

pub transfer : Option ℕ → Option ℕ → ℤ → Bank → Bank × Option Error
unfolding transfer_between
transfer from to amount b =
    if leb_ℤ amount (pos 0) then (b, some invalid_amount) else transfer_between from to amount b
