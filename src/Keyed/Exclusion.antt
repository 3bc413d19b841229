-- ===== src/Keyed/Exclusion.antt =====
-- What callers of examples/keyedlock rely on: one holder for each key, no waiting for other keys,
-- and a registry that holds no key without callers.
use text.Mathlib.TextEquality.{eq_iff}
use go_concurrency_examples.Base.Dict.{lookup}
use text.Mathlib.Text.{◌==◌ as str_eq}
use go_concurrency_examples.Base.{
  Bool, List, Reach, String, arith, false, le-sum_below_two, some, ℕ, ◌<◌, ◌≡◌, Option-cases, [],
  inl, inr, is_some, le-sum_below, none, refl, sum_below_pos, true, ◌↔◌, ap, ◌∷◌, length, ◌≢◌,
}
use go_concurrency_examples.Keyed.{
  Pc, Step, System, acquiring, holding, initial, locking, outside, releasing, act, next_lock,
  active_keys,
}
use go_concurrency_examples.Keyed.Moves.{Reach-Inv}
use go_concurrency_examples.Keyed.Registry.{Registered, holds, Inv, uses}

-- Whether the goroutine holds, waits for or releases the lock of the key.
abbrev pub is_using : String → Pc → Bool
is_using k outside = false
is_using k (acquiring key) = false
is_using k (locking key e) = str_eq key k
is_using k (holding key e) = str_eq key k
is_using k (releasing key e) = str_eq key k

holds-one :
    (locks : List (String × ℕ)) (k : String) (e d : ℕ) (p : Pc)
    → Registered locks p
    → p ≡ holding k d
    → (lookup k locks ≡ some d) × (holds d p ≡ 1)
holds-one locks k e d p r is = ground arith

-- Of any number of goroutines that lock and release keys, in every state that they can reach, no
-- two hold the lock of one key, though entries are made and deleted in the meantime.
pub key_exclusion :
    {n : ℕ} (jobs : ℕ → List String) {t : System}
    → Reach (Step n) (initial jobs) t
    → (k : String) (i j d e : ℕ) → i < n
    → j < n
    → i ≢ j
    → t.pc i ≡ holding k d
    → t.pc j ≢ holding k e
key_exclusion {n} jobs {t} r k i j d e p q ne at_i at_j =
    let inv = Reach-Inv jobs r in
    let (found_i, mine) = holds-one t.locker.locks k d d (t.pc i) (inv.registered i p) at_i in
    let (found_j, other) = holds-one t.locker.locks k e e (t.pc j) (inv.registered j q) at_j in
    ground (arith, inv.held_counted d, le-sum_below_two (λ x. holds d (t.pc x)) n i j p q ne)

uses-is_using :
    (locks : List (String × ℕ)) (k : String) (e : ℕ) (p : Pc)
    → ((j : String) → lookup j locks ≡ some e → j ≡ k)
    → Registered locks p
    → 0 < uses e p
    → is_using k p ≡ true
uses-is_using locks k e outside one r u = ground arith
uses-is_using locks k e (acquiring j) one r u = ground arith
uses-is_using locks k e (locking j d) one r u = ground (arith, one j, eq_iff j k)
uses-is_using locks k e (holding j d) one r u = ground (arith, one j, eq_iff j k)
uses-is_using locks k e (releasing j d) one r u = ground (arith, one j, eq_iff j k)

is_using-Registered :
    (locks : List (String × ℕ)) (k : String) (p : Pc)
    → Registered locks p
    → lookup k locks ≡ none
    → is_using k p ≡ false
is_using-Registered locks k outside r none_at = refl
is_using-Registered locks k (acquiring j) r none_at = refl
is_using-Registered locks k (locking j d) r none_at = ground (arith, eq_iff j k)
is_using-Registered locks k (holding j d) r none_at = ground (arith, eq_iff j k)
is_using-Registered locks k (releasing j d) r none_at = ground (arith, eq_iff j k)

-- In every reachable state the registry has an entry for a key exactly if some goroutine holds,
-- waits for or is about to drop that key: no entry that is in use is deleted, and none is left
-- behind.
pub key_registry_exact :
    {n : ℕ} (jobs : ℕ → List String) {t : System}
    → Reach (Step n) (initial jobs) t
    → (k : String)
    → (lookup k t.locker.locks ≡ none) ↔ ((i : ℕ) → i < n → is_using k (t.pc i) ≡ false)
key_registry_exact {n} jobs {t} r k =
    let inv = Reach-Inv jobs r in
    (
      λ none_at i p. is_using-Registered t.locker.locks k (t.pc i) (inv.registered i p) none_at,
      λ unused. elim (Option-cases (lookup k t.locker.locks)) [
        | inl at ↦ at
        | inr (e, at) ↦
            let (i, p, u) =
              sum_below_pos (λ i. uses e (t.pc i)) n
                (omega (arith, inv.referred k e at, inv.refs_counted e)) in
            absurd (
              ground (
                arith,
                unused i p,
                uses-is_using t.locker.locks k e (t.pc i) (λ j at_j. inv.one_key j k e at_j at)
                    (inv.registered i p) u,
              ))
      ],
    )

-- Why goroutine `id` cannot take a step: it has nothing left to do, or another goroutine, which can
-- take a step, holds the very key that it wants.
abbrev pub Rests : ℕ → System → ℕ → Pc → Type 0
Rests n s id outside = s.jobs id ≡ []
Rests n s id (locking k e) =
    (j : ℕ) × (j < n) × (s.pc j ≡ holding k e) × (is_some (act j (s.pc j) s) ≡ true)
Rests n s id _ = ⊥

holds-place :
    (locks : List (String × ℕ)) (k : String) (e : ℕ) (p : Pc)
    → ((j : String) → lookup j locks ≡ some e → j ≡ k)
    → Registered locks p
    → 0 < holds e p
    → p ≡ holding k e
holds-place locks k e outside one r u = ground arith
holds-place locks k e (acquiring j) one r u = ground arith
holds-place locks k e (locking j d) one r u = ground arith
holds-place locks k e (holding j d) one r u = ground (arith, one j)
holds-place locks k e (releasing j d) one r u = ground arith

module _ {n : ℕ} {s : System} (inv : Inv n s) where
  holder-steps :
      (j : ℕ)
      → j < n
      → (k : String) (e : ℕ) → s.pc j ≡ holding k e
      → is_some (act j (s.pc j) s) ≡ true
  unfolding act
  holder-steps j p k e is =
      ground (arith, is, inv.held_counted e, le-sum_below (λ i. holds e (s.pc i)) n j p)

  locked-Rests :
      (id : ℕ) (k : String) (e : ℕ)
      → lookup k s.locker.locks ≡ some e
      → s.locker.held e ≡ true
      → Rests n s id (locking k e)
  locked-Rests id k e at locked =
      let (j, p, h) =
        sum_below_pos (λ i. holds e (s.pc i)) n (ground (arith, inv.held_counted e)) in
      let place =
        holds-place s.locker.locks k e (s.pc j) (λ i at_i. inv.one_key i k e at_i at)
          (inv.registered j p) h in
      (j, p, place, holder-steps j p k e place)

  idle-Rests :
      (id : ℕ) (jobs : List String) → s.jobs id ≡ jobs → act id outside s ≡ none → jobs ≡ []
  unfolding act next_lock
  idle-Rests id [] at e = refl
  idle-Rests id (key ∷ rest) at e = ground (arith, at)

  stuck-Rests :
      (id : ℕ) (p : Pc)
      → id < n
      → s.pc id ≡ p
      → Registered s.locker.locks p
      → act id p s ≡ none
      → Rests n s id p
  unfolding act
  stuck-Rests id outside lt is r e = idle-Rests id (s.jobs id) refl e
  stuck-Rests id (acquiring k) lt is r e = ground arith
  stuck-Rests id (locking k d) lt is r e = locked-Rests id k d r (ground (arith, e))
  stuck-Rests id (holding k d) lt is r e =
      ground (arith, ap (λ p. act id p s) is, holder-steps id lt k d is)
  stuck-Rests id (releasing k d) lt is r e = ground arith

-- In every reachable state, a goroutine that cannot take a step has no work left, or waits in Lock
-- for a key that another goroutine, which can take a step, holds at that moment: callers of
-- different keys never wait for each other, and there is no deadlock.
key_waits_only_for_holder :
    {n : ℕ} (jobs : ℕ → List String) {t : System}
    → Reach (Step n) (initial jobs) t
    → (id : ℕ) → id < n
    → act id (t.pc id) t ≡ none
    → Rests n t id (t.pc id)
key_waits_only_for_holder jobs {t} r id lt e =
    let inv = Reach-Inv jobs r in stuck-Rests inv id (t.pc id) lt refl (inv.registered id lt) e

-- A map with an entry has a key that is found.
no-keys : (locks : List (String × ℕ)) → ((k : String) → lookup k locks ≡ none) → length locks ≡ 0
unfolding lookup
no-keys [] absent = refl
no-keys ((j, e) ∷ locks) absent = ground (arith, absent j, eq_iff j j)

-- In every reachable state in which no goroutine is inside Lock or holds a lock, ActiveKeys
-- reports 0: the registry does not grow with the number of keys that were ever locked.
key_registry_drains :
    {n : ℕ} (jobs : ℕ → List String) {t : System}
    → Reach (Step n) (initial jobs) t
    → ((i : ℕ) → i < n → t.pc i ≡ outside)
    → active_keys (some t.locker) ≡ 0
unfolding active_keys
key_registry_drains {n} jobs {t} r drained =
    no-keys t.locker.locks (λ k.
      let (_, back) = key_registry_exact jobs r k in back (λ i p. ground (arith, drained i p)))
