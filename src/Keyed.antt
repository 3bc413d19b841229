-- ===== src/Keyed.antt =====
-- examples/keyedlock/locker.go. An entry is an address; `refs` and `held` are its two fields. A
-- goroutine takes and releases locks of any keys, one at a time.
mod Registry
mod Moves
mod Exclusion
mod Tests
use go_concurrency_examples.Base.Dict.{lookup, insert, delete}
use go_concurrency_examples.Base.{
  Bool, List, Option, String, [], false, if◌then◌else◌, is_empty, is_some, length, none, some, suc,
  true, update, ℕ, ◌&&◌, ◌+◌, ◌-◌, ◌<◌, ◌==◌, ◌∷◌, ◌≡◌,
}

pub data Error : Type 0 where
  uninitialized empty_key : Error

-- `fresh` is the next address that is not in use.
pub record Locker : Type 0 where
  pub locks : List (String × ℕ)
  pub refs : ℕ → ℕ
  pub held : ℕ → Bool
  pub fresh : ℕ

-- `acquireEntry`, one critical section of the registry's mutex.
pub acquire_existing : Option ℕ → String → Locker → ℕ × Locker
acquire_existing (some e) key l = (e, record l { refs = update l.refs e (l.refs e + 1) })
acquire_existing none key l = (
  l.fresh,
  record l {
    locks = insert key l.fresh l.locks;
    refs = update l.refs l.fresh 1;
    held = update l.held l.fresh false;
    fresh = suc l.fresh;
  },
)

pub acquire_entry : String → Locker → ℕ × Locker
unfolding acquire_existing
acquire_entry key l = acquire_existing (lookup key l.locks) key l

-- Whether the registry maps the key to this entry.
abbrev maps_to : Option ℕ → ℕ → Bool
maps_to none e = false
maps_to (some d) e = d == e

-- `releaseEntry`. `refs` is at least 1 here, so that `-` does not stop at 0.
pub release_entry : String → ℕ → Locker → Locker
release_entry key e l =
    let left = l.refs e - 1 in
    let counted = record l { refs = update l.refs e left } in
    if (left == 0) && maps_to (lookup key l.locks) e
    then record counted { locks = delete key l.locks }
    else counted

pub active_keys : Option Locker → ℕ
active_keys none = 0
active_keys (some l) = length l.locks

-- The checks of `Lock` before it blocks; `none` is a nil or zero locker.
pub check_lock : String → Option Locker → Option Error
check_lock key l =
    if is_empty key then some empty_key else (if is_some l then none else some uninitialized)

-- Where a goroutine stands in `Lock` and in the release function that it returned. A second call of
-- that function does nothing, by its `sync.Once`.
pub data Pc : Type 0 where
  outside : Pc
  acquiring : String → Pc
  locking : String → ℕ → Pc
  holding : String → ℕ → Pc
  releasing : String → ℕ → Pc

pub record System : Type 0 where
  pub locker : Locker
  pub pc : ℕ → Pc
  pub jobs : ℕ → List String

pub next_lock : ℕ → List String → System → Option System
next_lock id [] s = none
next_lock id (key ∷ rest) s =
    let p = if is_some (check_lock key (some s.locker)) then outside else acquiring key in
    some (record s { pc = update s.pc id p; jobs = update s.jobs id rest })

pub act : ℕ → Pc → System → Option System
unfolding next_lock acquire_entry release_entry
act id outside s = next_lock id (s.jobs id) s
act id (acquiring key) s =
    let (e, l) = acquire_entry key s.locker in
    some (record s { locker = l; pc = update s.pc id (locking key e) })
act id (locking key e) s =
    if s.locker.held e
    then none
    else let l = record (s.locker) { held = update s.locker.held e true } in
      some (record s { locker = l; pc = update s.pc id (holding key e) })
act id (holding key e) s =
    if s.locker.held e
    then (let l = record (s.locker) { held = update s.locker.held e false } in
        some (record s { locker = l; pc = update s.pc id (releasing key e) }))
    else none
act id (releasing key e) s =
    some (record s { locker = release_entry key e s.locker; pc = update s.pc id outside })

pub data Step (n : ℕ) (s t : System) : Type 0 where
  goroutine : (id : ℕ) → id < n → act id (s.pc id) s ≡ some t → Step n s t

pub new : Locker
new = record { locks = []; refs = λ _. 0; held = λ _. false; fresh = 0 }

pub initial : (ℕ → List String) → System
unfolding new
initial jobs = record { locker = new; pc = λ _. outside; jobs = jobs }
