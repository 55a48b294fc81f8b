-- ===== src/KeyedLock.antt =====
-- `KeyedAsyncLock` of app/services/keyed_lock.py, for one key: the keys share nothing but the dict.
pub mod Exclusion
mod Tests
use chat_pulse.Prelude.{
  ℕ, ◌+◌, ◌-◌, Bool, true, false, not, ◌&&◌, Option, none, some, List, [], ◌∷◌, ◌++◌, Table, put,
  ◌==◌, if◌then◌else◌,
}

-- Where a task stands in `hold`: before the lock, with it, or after it, before the last section.
pub data Phase : Type 0 where
  waiting holding leaving : Phase

-- A task in `hold`, with the number of the entry that it has in hand.
pub record Task : Type 0 where
  pub entry : ℕ
  pub phase : Phase

-- `_LockEntry`, which is an object: the number stands for its identity.
pub record LockEntry : Type 0 where
  pub id : ℕ
  pub users : ℕ

-- `locked` tells of each entry's lock whether it is locked.
pub record State : Type 0 where
  pub entry : Option LockEntry
  pub locked : ℕ → Bool
  pub next_id : ℕ
  pub tasks : List Task

abbrev pub task : ℕ → Phase → Task
task id phase = record { entry = id; phase = phase }

-- The first section under the guard: the entry of the key, or a new one, gets one user more.
unfoldable pub enter : State → Option LockEntry → State
enter s none = record s {
  entry = some record { id = s.next_id; users = 1 };
  next_id = s.next_id + 1;
  tasks = task s.next_id waiting ∷ s.tasks;
}
enter s (some e) = record s {
  entry = some record e { users = e.users + 1 };
  tasks = task e.id waiting ∷ s.tasks;
}

abbrev pub set_locked : (ℕ → Bool) → ℕ → Bool → ℕ → Bool
set_locked locked id b i = if id == i then b else locked i

-- `async with entry.lock` begins for the task between `before` and `after`.
unfoldable pub acquire : State → List Task → ℕ → List Task → State
acquire s before id after = record s {
  locked = set_locked s.locked id true;
  tasks = before ++ (task id holding ∷ after);
}

-- It ends, by whatever way the body is left.
unfoldable pub release : State → List Task → ℕ → List Task → State
release s before id after = record s {
  locked = set_locked s.locked id false;
  tasks = before ++ (task id leaving ∷ after);
}

-- The task is cancelled while it waits.
unfoldable pub cancel : State → List Task → ℕ → List Task → State
cancel s before id after = record s { tasks = before ++ (task id leaving ∷ after) }

-- `entry.users -= 1`, and the entry is dropped where nobody uses it.
unfoldable pub entry_after : Option LockEntry → (ℕ → Bool) → Option LockEntry
entry_after none locked = none
entry_after (some e) locked =
    if ((e.users - 1) == 0) && not (locked e.id)
    then none
    else some record e { users = e.users - 1 }

-- The last section under the guard.
unfoldable pub leave : State → List Task → List Task → State
unfolding entry_after
leave s before after = record s { entry = entry_after s.entry s.locked; tasks = before ++ after }
