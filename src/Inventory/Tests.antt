-- ===== src/Inventory/Tests.antt =====
-- A purchase that succeeds and one that would oversell.
use go_concurrency_examples.Base.Int.{
  pos, neg_part, pos_part, max_int, add64, sub64, wrap, ◌+ℤ◌, ◌-ℤ◌,
}
use go_concurrency_examples.Base.Dict.{lookup, insert}
use go_concurrency_examples.Base.{List, [], refl, some, ◌+◌, ◌∷◌, ◌≡◌, ◌≤◌}
use go_concurrency_examples.Inventory.{
  Call, add, add_valid, adds, available, new_store, perform, read, remove, remove_valid, removes,
  validate_change, write,
}
use go_concurrency_examples.Inventory.Refinement.{Keeps, inventory_refines, promised, units}
use go_concurrency_examples.Inventory.Ledger.{after_calls, inventory_never_oversold}
use go_concurrency_examples.Inventory.Stock.{new_store-IsValid}

-- Add 5, remove 3, and then try to remove 3 more.
abbrev purchases : List Call
purchases = removes "tea" (pos 3) ∷ removes "tea" (pos 3) ∷ adds "tea" (pos 5) ∷ []

left_over : (available "tea" (after_calls "tea" purchases).store) ≡ pos 2
unfolding perform add remove validate_change add_valid remove_valid read write available new_store
    lookup insert add64 sub64 wrap ◌+ℤ◌ ◌-ℤ◌
left_over = refl

inventory_never_oversold_example :
    let l = after_calls "tea" purchases in
    (pos_part (available "tea" l.store) + l.removed ≡ l.added)
    × (neg_part (available "tea" l.store) ≡ 0)
    × (pos_part (available "tea" l.store) ≤ max_int)
inventory_never_oversold_example = inventory_never_oversold "tea" purchases

inventory_refines_example :
    Keeps
      (promised (adds "tea" (pos 4)) (units new_store))
      (perform (adds "tea" (pos 4)) (some new_store))
inventory_refines_example = inventory_refines new_store-IsValid (adds "tea" (pos 4))
