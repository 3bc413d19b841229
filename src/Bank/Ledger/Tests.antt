-- ===== src/Bank/Ledger/Tests.antt =====
-- Two accounts of examples/bankaccount and calls on them.
use go_concurrency_examples.Bank.Ledger.{
  Call, Fits, all_in, all_out, bank_balances, bank_conserves, deposits, empty_bank, opens, perform,
  run, transfers, withdraws,
}
use go_concurrency_examples.Base.Int.{pos, add64, sub64, wrap, ◌+ℤ◌, ◌-ℤ◌}
use go_concurrency_examples.Base.{
  All, List, [], arith, if◌then◌else◌, refl, some, ◌+◌, ◌==◌, ◌∷◌, ◌≡◌,
}
use go_concurrency_examples.Bank.{Bank, deposit, open_account, transfer, withdraw}
use go_concurrency_examples.Bank.Balances.{IsBalance, IsValid, total}

abbrev day : List Call
day =
    opens "a" (pos 100)
    ∷ opens "b" (pos 20)
    ∷ transfers (some 0) (some 1) (pos 30)
    ∷ withdraws (some 0) (pos 500)
    ∷ deposits (some 1) (pos 5)
    ∷ withdraws (some 1) (pos 55)
    ∷ []

day-Fits : All Fits day
day-Fits = omega arith

day_balances : ((run day empty_bank).accounts 0).balance ≡ pos 70
unfolding run perform empty_bank open_account deposit withdraw transfer wrap add64 sub64 ◌+ℤ◌ ◌-ℤ◌
day_balances = refl

bank_conserves_example : total (run day empty_bank) + all_out day empty_bank ≡ all_in day empty_bank
bank_conserves_example = bank_conserves day day-Fits

bank_balances_example : IsBalance ((run day empty_bank).accounts 0).balance
bank_balances_example = bank_balances day 0 day-Fits

abbrev two_accounts : Bank
two_accounts = record {
  accounts = λ a.
      if a == 0
      then record { id = "a"; seq = 1; balance = pos 100 }
      else (if a == 1
          then record { id = "b"; seq = 2; balance = pos 20 }
          else record { id = ""; seq = 0; balance = pos 0 });
  allocated = 2;
  next_sequence = 2;
}

two_accounts-IsValid : IsValid two_accounts
two_accounts-IsValid = record { balances = λ a. ground arith; unused = λ a le. ground arith }
