-- ===== src/Lock.antt =====
-- pkg/lock/lockByID.go: the locks of the names. A lock is its number, in the order of their making;
-- GetLock is two steps, the look into the map and the store of a new lock, since it holds only the
-- read lock, which other callers hold too.
pub mod Race
use topohub.Common.{ℕ, ◌+◌, Option, none, some, [], Text, Map, lookup, insert}

pub record LockManager : Type 0 where
  pub locks : Map ℕ
  pub made : ℕ

abbrev pub empty_manager : LockManager
empty_manager = record { locks = []; made = 0 }

-- `if lock, ok := lm.locks[name]; ok { return lock }`
unfoldable pub look : Text → LockManager → Option ℕ
look name m = lookup name m.locks

-- `newLock := &Mutex{}; lm.locks[name] = newLock; return newLock`
unfoldable pub make : Text → LockManager → LockManager × ℕ
make name m = (record { locks = insert name m.made m.locks; made = m.made + 1 }, m.made)

-- the store, after what the look found
unfoldable pub get_after : Text → Option ℕ → LockManager → LockManager × ℕ
unfolding make
get_after name (some lock) m = (m, lock)
get_after name none m = make name m

-- GetLock, with no other caller between its steps
unfoldable pub get_lock : Text → LockManager → LockManager × ℕ
unfolding look get_after
get_lock name m = get_after name (look name m) m
