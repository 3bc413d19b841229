-- ===== src/Inventory.antt =====
-- examples/inventory/store.go. A method is one critical section, so that concurrent calls are a
-- sequence of calls. A store is `none` if it is nil, and so is the map of a zero store.
mod Stock
mod Refinement
mod Ledger
mod Tests
use go_concurrency_examples.Base.Dict.{lookup, insert}
use go_concurrency_examples.Base.Int.{ℤ, pos, max_int, leb_ℤ, ltb_ℤ, add64, sub64}
use go_concurrency_examples.Base.{
  List, Option, String, [], if◌then◌else◌, is_empty, is_some, none, not, some,
}

pub data Error : Type 0 where
  nil_store empty_sku invalid_quantity insufficient_stock stock_overflow : Error

pub record Store : Type 0 where
  pub stock : Option (List (String × ℤ))

pub new_store : Store
new_store = record { stock = some [] }

-- Reading the map: 0 for a missing key.
pub read : String → Option (List (String × ℤ)) → ℤ
read sku none = pos 0
read sku (some m) = elim (lookup sku m) [ none ↦ pos 0 | some held ↦ held ]

-- Writing it; in a nil map this panics, which `validate_change` rules out.
pub write : String → ℤ → Store → Store
write sku held s = elim s.stock [ none ↦ s | some m ↦ record { stock = some (insert sku held m) } ]

pub validate_change : Option Store → String → ℤ → Option Error
validate_change none sku quantity = some nil_store
validate_change (some s) sku quantity =
    if not (is_some s.stock)
    then some nil_store
    else if is_empty sku
    then some empty_sku
    else if leb_ℤ quantity (pos 0)
    then some invalid_quantity
    else none

pub add_valid : String → ℤ → Store → Store × Option Error
unfolding read write
add_valid sku quantity s =
    let held = read sku s.stock in
    if ltb_ℤ (sub64 (pos max_int) held) quantity
    then (s, some stock_overflow)
    else (write sku (add64 held quantity) s, none)

pub remove_valid : String → ℤ → Store → Store × Option Error
unfolding read write
remove_valid sku quantity s =
    let held = read sku s.stock in
    if ltb_ℤ held quantity
    then (s, some insufficient_stock)
    else (write sku (sub64 held quantity) s, none)

-- The rest of a method, after its validation.
abbrev pub validated :
    Option Error → (Store → Store × Option Error) → Option Store → Option Store × Option Error
validated (some err) body s = (s, some err)
validated none body none = (none, none)
validated none body (some s) = let (t, err) = body s in (some t, err)

pub add : String → ℤ → Option Store → Option Store × Option Error
unfolding validate_change add_valid
add sku quantity s = validated (validate_change s sku quantity) (add_valid sku quantity) s

pub remove : String → ℤ → Option Store → Option Store × Option Error
unfolding validate_change remove_valid
remove sku quantity s = validated (validate_change s sku quantity) (remove_valid sku quantity) s

pub available : String → Option Store → ℤ
unfolding read
available sku none = pos 0
available sku (some s) = read sku s.stock

pub data Call : Type 0 where
  adds removes : String → ℤ → Call

pub perform : Call → Option Store → Option Store × Option Error
unfolding add remove
perform (adds sku quantity) s = add sku quantity s
perform (removes sku quantity) s = remove sku quantity s
