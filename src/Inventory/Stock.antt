-- ===== src/Inventory/Stock.antt =====
-- The stock of examples/inventory: never negative, never too large, and what was added less what
-- was removed.
use go_concurrency_examples.Base.Dict.{lookup, lookup-insert}
use go_concurrency_examples.Base.Int.{ℤ, pos, negsuc, pos_part, neg_part, max_int}
use text.Mathlib.Text.{◌==◌ as str_eq}
use go_concurrency_examples.Base.{
  String, arith, if◌then◌else◌, is_some, is_some-true, refl, some, true, ℕ, ◌≡◌, ◌≤◌,
}
use go_concurrency_examples.Inventory.{Store, available, new_store, read, write}

-- A store that `NewStore` made, with an amount of every item that an int can be.
pub record IsValid (s : Store) : Type 0 where
  pub made : is_some s.stock ≡ true
  pub within :
      (sku : String)
      → (neg_part (available sku (some s)) ≡ 0) × (pos_part (available sku (some s)) ≤ max_int)

pub new_store-IsValid : IsValid new_store
unfolding new_store available read lookup
new_store-IsValid = record { made = refl; within = λ sku. (refl, omega arith) }

pub nonneg : (z : ℤ) → neg_part z ≡ 0 → z ≡ pos (pos_part z)
nonneg (pos n) h = refl
nonneg (negsuc n) h = absurd (omega arith)

-- A write changes the amount of its item alone.
pub available-write :
    (sku other : String) (amount : ℤ) (s : Store)
    → is_some s.stock ≡ true
    → available other (some (write sku amount s))
      ≡ (if str_eq sku other then amount else available other (some s))
unfolding available read write
available-write sku other amount s made =
    let (m, at) = is_some-true s.stock made in ground (arith, at, lookup-insert sku other amount m)

pub write-IsValid :
    (sku : String) (amount : ℕ) (s : Store)
    → amount ≤ max_int
    → IsValid s
    → IsValid (write sku (pos amount) s)
unfolding write
write-IsValid sku amount s le v = record {
  made = ground (arith, v.made);
  within = λ other. ground (arith, v.within other, available-write sku other (pos amount) s v.made);
}
