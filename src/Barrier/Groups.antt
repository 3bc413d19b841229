-- ===== src/Barrier/Groups.antt =====
-- The groups of examples/barrier: a generation ends when `parties` callers have arrived, and
-- exactly these callers return nil.
use go_concurrency_examples.Base.{
  arith, false, not, refl, suc, sum_below, to_num, true, ℕ, ◌*◌, ◌+◌, ◌<◌, ◌==◌, ◌≡◌, ◌≤◌, Bool,
  sum_below-update, update, ℕ_discrete, ◌∙◌,
}
use go_concurrency_examples.Barrier.{Pc, System, arriving, closing, outside, waiting, wake, waking}

-- 1 if the goroutine has arrived in the generation `gen` and not left.
abbrev pub current : ℕ → Pc → ℕ
current gen outside = 0
current gen arriving = 0
current gen (waiting g) = to_num (g == gen)
current gen (waking g) = to_num (g == gen)
current gen closing = 0

-- 1 if the goroutine has arrived in an earlier generation than `gen`, and not left.
abbrev pub earlier : ℕ → Pc → ℕ
earlier gen outside = 0
earlier gen arriving = 0
earlier gen (waiting g) = to_num (not (g == gen))
earlier gen (waking g) = to_num (not (g == gen))
earlier gen closing = 0

-- A goroutine that waits has arrived in the current generation of an open barrier, and one that was
-- woken finds its generation ended or the barrier closed.
abbrev pub Placed : ℕ → Bool → Pc → Type 0
Placed gen closed outside = Unit {0}
Placed gen closed arriving = Unit {0}
Placed gen closed (waiting g) = (g ≡ gen) × (closed ≡ false)
Placed gen closed (waking g) = (g ≤ gen) × (g ≡ gen → closed ≡ true)
Placed gen closed closing = Unit {0}

pub record Inv (parties n : ℕ) (s : System) : Type 0 where
  pub parties_kept : s.barrier.parties ≡ parties
  pub few : s.barrier.arrived < parties
  pub counted :
      s.barrier.closed ≡ false
      → sum_below (λ i. current s.barrier.generation (s.pc i)) n ≡ s.barrier.arrived
  pub groups :
      s.nils + sum_below (λ i. earlier s.barrier.generation (s.pc i)) n
      ≡ parties * s.barrier.generation
  pub placed : (i : ℕ) → i < n → Placed s.barrier.generation s.barrier.closed (s.pc i)
  pub open_errs : s.barrier.closed ≡ false → s.errs ≡ 0

-- Waking a goroutine changes no count.
pub wake-current : (gen : ℕ) (p : Pc) → current gen (wake p) ≡ current gen p
unfolding wake
wake-current gen outside = refl
wake-current gen arriving = refl
wake-current gen (waiting g) = refl
wake-current gen (waking g) = refl
wake-current gen closing = refl

pub wake-earlier : (gen : ℕ) (p : Pc) → earlier gen (wake p) ≡ earlier gen p
unfolding wake
wake-earlier gen outside = refl
wake-earlier gen arriving = refl
wake-earlier gen (waiting g) = refl
wake-earlier gen (waking g) = refl
wake-earlier gen closing = refl

-- What ends a generation: every goroutine that was in the current one is in an earlier one.
pub turned-counts :
    (gen : ℕ) (closed : Bool) (p : Pc)
    → Placed gen closed p
    → (current (suc gen) (wake p) ≡ 0)
      × (earlier (suc gen) (wake p) ≡ earlier gen p + current gen p)
unfolding wake
turned-counts gen closed outside h = (refl, refl)
turned-counts gen closed arriving h = (refl, refl)
turned-counts gen closed (waiting g) h = ground (arith, h)
turned-counts gen closed (waking g) h = ground (arith, h)
turned-counts gen closed closing h = (refl, refl)

pub turned-Placed :
    (gen : ℕ) (closed : Bool) (p : Pc) → Placed gen closed p → Placed (suc gen) closed (wake p)
unfolding wake
turned-Placed gen closed outside h = tt
turned-Placed gen closed arriving h = tt
turned-Placed gen closed (waiting g) h = ground (arith, h)
turned-Placed gen closed (waking g) h = ground (arith, h)
turned-Placed gen closed closing h = tt

pub closed-Placed :
    (gen : ℕ) (closed : Bool) (p : Pc) → Placed gen closed p → Placed gen true (wake p)
unfolding wake
closed-Placed gen closed outside h = tt
closed-Placed gen closed arriving h = tt
closed-Placed gen closed (waiting g) h = ground (arith, h)
closed-Placed gen closed (waking g) h = ground (arith, h)
closed-Placed gen closed closing h = tt

-- A step of goroutine `id` from `p` to `p'` that wakes no one.
pub record Moved (id : ℕ) (s t : System) (p p' : Pc) : Type 0 where
  pub places : t.pc ≡ update s.pc id p'
  pub same_parties : t.barrier.parties ≡ s.barrier.parties
  pub same_generation : t.barrier.generation ≡ s.barrier.generation
  pub same_closed : t.barrier.closed ≡ s.barrier.closed
  pub arrived_moved :
      s.barrier.closed ≡ false
      → t.barrier.arrived + current s.barrier.generation p
        ≡ s.barrier.arrived + current s.barrier.generation p'
  pub still_few : t.barrier.arrived < s.barrier.parties
  pub nils_moved :
      t.nils + earlier s.barrier.generation p' ≡ s.nils + earlier s.barrier.generation p
  pub place : Placed s.barrier.generation s.barrier.closed p'
  pub errs_open : s.barrier.closed ≡ false → t.errs ≡ s.errs

module _ {parties n id : ℕ} {s t : System} (inv : Inv parties n s) (lt : id < n) where
  module _ {p' : Pc} (m : Moved id s t (s.pc id) p') where
    Placed-moved : (i : ℕ) → i < n → Placed t.barrier.generation t.barrier.closed (t.pc i)
    Placed-moved i q = rw m.same_generation (
        rw m.same_closed (elim (ℕ_discrete i id) [
          | yes e ↦ rw m.places (ground (arith, e, m.place))
          | no ne ↦ rw m.places (ground (arith, inv.placed i q))
        ]))

    pub Moved-Inv : Inv parties n t
    Moved-Inv =
        let gen = s.barrier.generation in
        record {
          parties_kept = m.same_parties ∙ inv.parties_kept;
          few = ground (arith, m.still_few, inv.parties_kept);
          counted = λ o. rw m.same_generation (
              rw m.places (
                ground (
                  arith,
                  m.same_closed,
                  inv.counted,
                  m.arrived_moved,
                  sum_below-update (λ _. current gen) n s.pc id p' lt,
                )));
          groups = rw m.same_generation (
              rw m.places (
                omega (
                  arith,
                  inv.groups,
                  m.nils_moved,
                  sum_below-update (λ _. earlier gen) n s.pc id p' lt,
                )));
          placed = Placed-moved;
          open_errs = λ o. ground (arith, m.same_closed, inv.open_errs, m.errs_open);
        }
