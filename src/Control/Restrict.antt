-- ===== src/Control/Restrict.antt =====
-- app/repositories/user_control/restrictions.py: blocking a user, and the attempts of blocked ones.
use chat_pulse.Prelude.{
  ℕ, ◌+◌, ◌/◌, String, Bool, true, false, ◌&&◌, Option, none, some, List, [], ◌∷◌, put, ◌==◌,
  if◌then◌else◌,
}
use chat_pulse.Control.{AdminActor, users_block}
use chat_pulse.Control.Store.{
  Env, UserRestriction, Source, BlockedAccessEvent, Action, Store, Error, Result, err, ok, ◌>>=◌,
  ◌>>◌, raise_if, require, reason_of, require_mutable_target, audited,
}

-- `restriction and restriction.is_blocked`
unfoldable pub blocked : Option UserRestriction → Bool
blocked none = false
blocked (some r) = r.is_blocked

-- `is_blocked`
abbrev pub is_blocked : Store → ℕ → Bool
is_blocked s user_id = blocked (s.restrictions user_id)

-- The row after a block: all but the id is written.
abbrev pub blocked_by : AdminActor → String → ℕ → UserRestriction
blocked_by actor reason current = record {
  is_blocked = true;
  reason = some reason;
  blocked_by_actor_id = some actor.telegram_user_id;
  blocked_at = some current;
  unblocked_by_actor_id = none;
  unblocked_at = none;
  unblock_reason = none;
  updated_at = current;
}

abbrev pub block_store : AdminActor → ℕ → String → ℕ → Store → Store
block_store actor target reason current s =
    audited actor (Action.user_blocked reason) target current
      record s { restrictions = put s.restrictions target (blocked_by actor reason current) }

unfoldable pub block_user :
    Env → Store → AdminActor → ℕ → String → ℕ → Result (Store × UserRestriction)
unfolding blocked
block_user env s actor target reason current = do
  require actor users_block
  normalized ← reason_of env reason
  user ← require_mutable_target s target
  raise_if (blocked (s.restrictions target)) Error.value_error
  ok (block_store actor target normalized current s, blocked_by actor normalized current)

abbrev pub unblocked_by : AdminActor → String → ℕ → UserRestriction → UserRestriction
unblocked_by actor reason current row = record row {
  is_blocked = false;
  unblocked_by_actor_id = some actor.telegram_user_id;
  unblocked_at = some current;
  unblock_reason = some reason;
  updated_at = current;
}

abbrev pub unblock_store : AdminActor → ℕ → String → ℕ → UserRestriction → Store → Store
unblock_store actor target reason current row s =
    audited actor (Action.user_unblocked reason) target current
      record s { restrictions = put s.restrictions target (unblocked_by actor reason current row) }

-- The row that may be unblocked.
unfoldable pub require_blocked : Option UserRestriction → Result UserRestriction
require_blocked none = err Error.value_error
require_blocked (some row) = if row.is_blocked then ok row else err Error.value_error

unfoldable pub unblock_user :
    Env → Store → AdminActor → ℕ → String → ℕ → Result (Store × UserRestriction)
unfolding require_blocked
unblock_user env s actor target reason current = do
  require actor users_block
  normalized ← reason_of env reason
  user ← require_mutable_target s target
  row ← require_blocked (s.restrictions target)
  ok (
    unblock_store actor target normalized current row s,
    unblocked_by actor normalized current row,
  )

abbrev pub source_no : Source → ℕ
source_no Source.miniapp = 0
source_no Source.bot_private = 1
source_no Source.bot_group = 2

-- The window of ten minutes that a time in seconds falls in; its text is unique to it.
abbrev pub window_of : ℕ → ℕ
window_of current = current / 600

-- `uq_blocked_access_events_window`
abbrev pub is_window : ℕ → Source → ℕ → BlockedAccessEvent → Bool
is_window user source window e =
    (e.telegram_user_id == user)
    && (source_no e.source == source_no source)
    && (e.window_key == window)

-- The first row of the window counts one more; where there is none, a row is added.
unfoldable pub count_attempt : ℕ → Source → ℕ → List BlockedAccessEvent → List BlockedAccessEvent
count_attempt user source current [] =
    record {
      telegram_user_id = user;
      source = source;
      window_key = window_of current;
      attempt_count = 1;
      first_attempt_at = current;
      last_attempt_at = current;
    }
    ∷ []
count_attempt user source current (e ∷ l) =
    let rest = e ∷ count_attempt user source current l in
    if is_window user source (window_of current) e
    then record e { attempt_count = e.attempt_count + 1; last_attempt_at = current } ∷ l
    else rest

unfoldable pub record_blocked_access : Store → ℕ → Source → ℕ → Store
unfolding count_attempt
record_blocked_access s user source current = record s {
  attempts = count_attempt user source current s.attempts;
}
