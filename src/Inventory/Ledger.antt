-- ===== src/Inventory/Ledger.antt =====
-- Sequences of calls on one store of examples/inventory, as the mutex lets concurrent callers make
-- them, and the units that the calls which succeeded moved.
use go_concurrency_examples.Base.Int.{neg_part, pos_part, max_int}
use text.Mathlib.TextEquality.{eq_iff}
use go_concurrency_examples.Base.Dict.{lookup}
use text.Mathlib.Text.{◌==◌ as str_eq}
use go_concurrency_examples.Base.{
  List, Option, String, [], arith, if◌then◌else◌, none, refl, some, ℕ, ◌+◌, ◌∷◌, ◌≡◌, ◌≤◌,
}
use go_concurrency_examples.Inventory.{
  Call, Error, Store, adds, available, new_store, perform, read, removes,
}
use go_concurrency_examples.Inventory.Stock.{IsValid, new_store-IsValid}
use go_concurrency_examples.Inventory.Refinement.{inventory_refines, promised, units}

-- The units that a call with this result added to the stock of an item, and those it removed.
abbrev pub credit : String → Call → Option Error → ℕ
credit sku (adds k quantity) none = if str_eq k sku then pos_part quantity else 0
credit sku c err = 0

abbrev pub debit : String → Call → Option Error → ℕ
debit sku (removes k quantity) none = if str_eq k sku then pos_part quantity else 0
debit sku c err = 0

pub record Ledger : Type 0 where
  pub added : ℕ
  pub removed : ℕ
  pub store : Option Store

-- The calls one after the other, the first one last in the list.
abbrev pub after_calls : String → List Call → Ledger
after_calls sku [] = record { added = 0; removed = 0; store = some new_store }
after_calls sku (c ∷ earlier) =
    let before = after_calls sku earlier in
    let (s, err) = perform c before.store in
    record {
      added = before.added + credit sku c err;
      removed = before.removed + debit sku c err;
      store = s;
    }

-- The ledger balances for a store.
record Balanced (sku : String) (l : Ledger) : Type 0 where
  store : Store
  at_store : l.store ≡ some store
  valid : IsValid store
  balance : units store sku + l.removed ≡ l.added

kept-balance :
    (sku : String) (c : Call) (f : String → ℕ)
    → (promised c f).0 sku + debit sku c (promised c f).1 ≡ f sku + credit sku c (promised c f).1
kept-balance sku (adds k quantity) f = ground (arith, eq_iff k sku)
kept-balance sku (removes k quantity) f = ground (arith, eq_iff k sku)

after_calls-Balanced : (sku : String) (calls : List Call) → Balanced sku (after_calls sku calls)
unfolding new_store available read lookup
after_calls-Balanced sku [] = record {
  store = new_store;
  at_store = refl;
  valid = new_store-IsValid;
  balance = refl;
}
after_calls-Balanced sku (c ∷ earlier) =
    let before = after_calls-Balanced sku earlier in
    let kept = inventory_refines before.valid c in
    record {
      store = kept.after;
      at_store = rw before.at_store kept.at_after;
      valid = kept.valid;
      balance = rw before.at_store (
          rw (kept.same_units sku, kept.same_error)
            (omega (arith, before.balance, kept-balance sku c (units before.store))));
    }

-- After any sequence of calls of Add and Remove with any arguments, on a store that NewStore made,
-- the available units of every item and the units that successful calls removed make up the units
-- that successful calls added, so that no item is oversold; and they are between 0 and the largest
-- int.
pub inventory_never_oversold :
    (sku : String) (calls : List Call)
    → let l = after_calls sku calls in
      (pos_part (available sku l.store) + l.removed ≡ l.added)
      × (neg_part (available sku l.store) ≡ 0)
      × (pos_part (available sku l.store) ≤ max_int)
inventory_never_oversold sku calls =
    let b = after_calls-Balanced sku calls in
    let (nonnegative, bounded) = b.valid.within sku in
    rw b.at_store (b.balance, nonnegative, bounded)
