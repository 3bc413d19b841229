-- ===== src/Inventory/Refinement.antt =====
-- What examples/inventory promises, on a stock that is a function into the natural numbers, and
-- that the methods of the store keep to it.
use go_concurrency_examples.Base.Int.{
  pos, pos_part, leb_ℤ, max_int, add64-pos, sub64-pos, negsuc, ℤ,
}
use text.Mathlib.Text.{◌==◌ as str_eq}
use go_concurrency_examples.Base.{
  Option, String, arith, dec_lt, if◌then◌else◌, is_empty, ltb, none, refl, some, ℕ, ◌+◌, ◌-◌, ◌≡◌,
  ◌≤◌, Bool-cases, false, inl, inr, lt→ltb, suc, zero, ◌<◌, true,
}
use go_concurrency_examples.Inventory.{
  Call, Error, Store, add_valid, adds, available, empty_sku, insufficient_stock, invalid_quantity,
  read, remove_valid, removes, stock_overflow, write, add, perform, remove, validate_change,
  validated,
}
use go_concurrency_examples.Inventory.Stock.{IsValid, available-write, nonneg, write-IsValid}

abbrev pub units : Store → String → ℕ
units s sku = pos_part (available sku (some s))

-- The stock with another number of units of one item.
abbrev pub stock_with : String → ℕ → (String → ℕ) → String → ℕ
stock_with sku m f other = if str_eq sku other then m else f other

abbrev pub promised_add : String → ℕ → (String → ℕ) → (String → ℕ) × Option Error
promised_add sku k f =
    if ltb max_int (f sku + k)
    then (f, some stock_overflow)
    else (stock_with sku (f sku + k) f, none)

abbrev pub promised_remove : String → ℕ → (String → ℕ) → (String → ℕ) × Option Error
promised_remove sku k f =
    if ltb (f sku) k then (f, some insufficient_stock) else (stock_with sku (f sku - k) f, none)

-- What a call does if its arguments are refused, or else.
abbrev pub checked :
    String → ℤ → (String → ℕ) → (String → ℕ) × Option Error → (String → ℕ) × Option Error
checked sku quantity f outcome =
    if is_empty sku
    then (f, some empty_sku)
    else if leb_ℤ quantity (pos 0)
    then (f, some invalid_quantity)
    else outcome

abbrev pub promised : Call → (String → ℕ) → (String → ℕ) × Option Error
promised (adds sku quantity) f = checked sku quantity f (promised_add sku (pos_part quantity) f)
promised (removes sku quantity) f =
    checked sku quantity f (promised_remove sku (pos_part quantity) f)

-- The outcome of a call on a store is the promised one.
pub record Keeps (promise : (String → ℕ) × Option Error) (outcome : Option Store × Option Error)
    : Type 0 where
  pub after : Store
  pub at_after : outcome.0 ≡ some after
  pub valid : IsValid after
  pub same_units : (sku : String) → units after sku ≡ promise.0 sku
  pub same_error : outcome.1 ≡ promise.1

not_ltb : (a b : ℕ) → ¬ (a < b) → ltb a b ≡ false
not_ltb a b h = ground arith

suc_positive : (k : ℕ) → leb_ℤ (pos (suc k)) (pos 0) ≡ false
suc_positive k = ground arith

negsuc_negative : (k : ℕ) → leb_ℤ (negsuc k) (pos 0) ≡ true
negsuc_negative k = ground arith

module _ {s : Store} (v : IsValid s) where
  read-units : (sku : String) → read sku s.stock ≡ pos (units s sku)
  unfolding available
  read-units sku = nonneg _ (v.within sku).0

  add_valid_lem :
      (sku : String) (k : ℕ)
      → add_valid sku (pos k) s ≡ (
          if ltb max_int (units s sku + k)
          then (s, some stock_overflow)
          else (write sku (pos (units s sku + k)) s, none))
  unfolding add_valid
  add_valid_lem sku k =
      let m = units s sku in
      rw (read-units sku, sub64-pos max_int m (v.within sku).1 (omega arith))
        (elim (dec_lt max_int (m + k)) [
          | yes over ↦ ground (arith, v.within sku)
          | no fits ↦ rw (add64-pos m k (omega arith)) (ground (arith, v.within sku))
        ])

  remove_valid_lem :
      (sku : String) (k : ℕ)
      → remove_valid sku (pos k) s ≡ (
          if ltb (units s sku) k
          then (s, some insufficient_stock)
          else (write sku (pos (units s sku - k)) s, none))
  unfolding remove_valid
  remove_valid_lem sku k =
      let m = units s sku in
      rw (read-units sku) (elim (dec_lt m k) [
        | yes short ↦ ground arith
        | no enough ↦ rw (sub64-pos m k (omega arith) (v.within sku).1) (ground arith)
      ])

  -- A call that fails keeps the store.
  unchanged : (err : Error) → Keeps (units s, some err) (some s, some err)
  unchanged err = record {
    after = s;
    at_after = refl;
    valid = v;
    same_units = λ sku. refl;
    same_error = refl;
  }

  written :
      (sku : String) (m : ℕ)
      → m ≤ max_int
      → Keeps (stock_with sku m (units s), none) (some (write sku (pos m) s), none)
  written sku m le = record {
    after = write sku (pos m) s;
    at_after = refl;
    valid = write-IsValid sku m s le v;
    same_units = λ other. ground (arith, available-write sku other (pos m) s v.made);
    same_error = refl;
  }

  add_valid-Keeps :
      (sku : String) (k : ℕ)
      → Keeps (promised_add sku k (units s)) (validated none (add_valid sku (pos k)) (some s))
  add_valid-Keeps sku k =
      let m = units s sku in
      rw (add_valid_lem sku k) (elim (dec_lt max_int (m + k)) [
        | yes over ↦ rw (lt→ltb max_int (m + k) over) (unchanged stock_overflow)
        | no fits ↦ rw (not_ltb max_int (m + k) fits) (written sku (m + k) (omega arith))
      ])

  remove_valid-Keeps :
      (sku : String) (k : ℕ)
      → Keeps (promised_remove sku k (units s)) (validated none (remove_valid sku (pos k)) (some s))
  remove_valid-Keeps sku k =
      let m = units s sku in
      let bound = v.within sku in
      rw (remove_valid_lem sku k) (elim (dec_lt m k) [
        | yes short ↦ rw (lt→ltb m k short) (unchanged insufficient_stock)
        | no enough ↦ rw (not_ltb m k enough) (written sku (m - k) (omega arith))
      ])

  -- Validation, for any body that keeps a promise on a positive quantity.
  validated-Keeps :
      (sku : String) (quantity : ℤ) (body : Store → Store × Option Error)
      (promise : (String → ℕ) × Option Error)
      → ((k : ℕ) → quantity ≡ pos k → Keeps promise (validated none body (some s)))
      → Keeps
          (checked sku quantity (units s) promise)
          (validated (validate_change (some s) sku quantity) body (some s))
  unfolding validate_change
  validated-Keeps sku (negsuc k) body promise h = rw (v.made) (elim (Bool-cases (is_empty sku)) [
    | inl e ↦ rw e (unchanged empty_sku)
    | inr e ↦ rw (e, negsuc_negative k) (unchanged invalid_quantity)
  ])
  validated-Keeps sku (pos zero) body promise h = rw (v.made) (elim (Bool-cases (is_empty sku)) [
    | inl e ↦ rw e (unchanged empty_sku)
    | inr e ↦ rw e (unchanged invalid_quantity)
  ])
  validated-Keeps sku (pos (suc k)) body promise h = rw (v.made) (elim (Bool-cases (is_empty sku)) [
    | inl e ↦ rw e (unchanged empty_sku)
    | inr e ↦ rw (e, suc_positive k) (h (suc k) refl)
  ])

-- A call on a store whose stock is valid returns the error that it promises and leaves the stock
-- that it promises, which is valid again: arguments are refused in the documented order, stock is
-- removed only if there is enough of it and added only if the sum is an int, and a call that
-- fails, or one for another item, changes nothing.
pub inventory_refines :
    {s : Store} → IsValid s → (c : Call) → Keeps (promised c (units s)) (perform c (some s))
unfolding perform add remove
inventory_refines v (adds sku quantity) =
    validated-Keeps v sku quantity (add_valid sku quantity)
      (promised_add sku (pos_part quantity) (units _)) (λ k e. rw e (add_valid-Keeps v sku k))
inventory_refines v (removes sku quantity) =
    validated-Keeps v sku quantity (remove_valid sku quantity)
      (promised_remove sku (pos_part quantity) (units _)) (λ k e. rw e (remove_valid-Keeps v sku k))
