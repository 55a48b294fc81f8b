-- ===== src/Delivery.antt =====
-- Claims on Telegram updates: app/repositories/update_delivery.py, and the row of app/models.py.
-- An instant is in seconds; update ids are naturals.
pub mod Steps
pub mod Lease
pub mod Completed
pub mod Body
pub mod Webhook
pub mod Replay
mod Tests
use chat_pulse.Prelude.{
  ℕ, ◌+◌, ◌*◌, String, Bool, true, false, ◌&&◌, Option, none, some, Table, put, ltb, str_eq,
  if◌then◌else◌,
}

-- `UPDATE_LEASE`
abbrev pub update_lease : ℕ
update_lease = 5 * 60

pub data UpdateClaim : Type 0 where
  process completed_duplicate in_progress : UpdateClaim

pub data UpdateStatus : Type 0 where
  processing completed failed : UpdateStatus

pub record ProcessedUpdate : Type 0 where
  pub update_type : String
  pub status : UpdateStatus
  pub attempts : ℕ
  pub started_at : ℕ
  pub lease_expires_at : Option ℕ
  pub completed_at : Option ℕ
  pub last_error : Option String
  pub processed_at : ℕ

-- The rows by `update_id`.
abbrev pub Updates : Type 0
Updates = Table ProcessedUpdate

-- `text or default`
abbrev pub or_text : String → String → String
or_text text default = if str_eq text "" then default else text

-- How long a text is kept: the first 64 characters of a type, the first 128 of an error.
pub record Cuts : Type 0 where
  pub cut_type : String → String
  pub cut_error : String → String

-- `row.status == "processing" and existing_lease and existing_lease > current`
unfoldable pub lease_runs : ProcessedUpdate → ℕ → Bool
lease_runs row current = elim row.status [
  | UpdateStatus.processing ↦ elim row.lease_expires_at [ none ↦ false | some t ↦ ltb current t ]
  | _ ↦ false
]

-- The row that a claim is made on.
unfoldable pub claimed_row : Cuts → ProcessedUpdate → String → ℕ → ProcessedUpdate
claimed_row cuts row update_type current = record {
  update_type = or_text (cuts.cut_type update_type) "unknown";
  status = UpdateStatus.processing;
  attempts = row.attempts + 1;
  started_at = current;
  lease_expires_at = some (current + update_lease);
  completed_at = none;
  last_error = none;
  processed_at = current;
}

unfoldable pub first_row : Cuts → String → ℕ → ProcessedUpdate
first_row cuts update_type current = record {
  update_type = or_text (cuts.cut_type update_type) "unknown";
  status = UpdateStatus.processing;
  attempts = 1;
  started_at = current;
  lease_expires_at = some (current + update_lease);
  completed_at = none;
  last_error = none;
  processed_at = current;
}

abbrev pub is_completed : UpdateStatus → Bool
is_completed UpdateStatus.completed = true
is_completed _ = false

unfoldable pub begin_from :
    Cuts → Updates → Option ProcessedUpdate → ℕ → String → ℕ → Updates × UpdateClaim
unfolding lease_runs claimed_row first_row
begin_from cuts s none update_id update_type current =
    (put s update_id (first_row cuts update_type current), process)
begin_from cuts s (some row) update_id update_type current =
    if is_completed row.status
    then (s, completed_duplicate)
    else if lease_runs row current
    then (s, in_progress)
    else (put s update_id (claimed_row cuts row update_type current), process)

-- `begin_update`. Where the insertion meets a row that another worker has just made, it starts
-- over and finds that row, which is a call on the later table.
unfoldable pub begin_update : Cuts → Updates → ℕ → String → ℕ → Updates × UpdateClaim
unfolding begin_from
begin_update cuts s update_id update_type current =
    begin_from cuts s (s update_id) update_id update_type current

unfoldable pub complete_row : ProcessedUpdate → ℕ → ProcessedUpdate
complete_row row current = record row {
  status = UpdateStatus.completed;
  completed_at = some current;
  lease_expires_at = none;
  last_error = none;
  processed_at = current;
}

-- `none` is the `LookupError` on a missing claim.
unfoldable pub complete_update : Updates → ℕ → ℕ → Option Updates
unfolding complete_row
complete_update s update_id current = elim (s update_id) [
  | none ↦ none
  | some row ↦ some (put s update_id (complete_row row current))
]

unfoldable pub fail_row : Cuts → ProcessedUpdate → String → ℕ → ProcessedUpdate
fail_row cuts row safe_error current = record row {
  status = UpdateStatus.failed;
  lease_expires_at = none;
  last_error = some (cuts.cut_error (or_text safe_error "update_failed"));
  processed_at = current;
}

unfoldable pub fail_update : Cuts → Updates → ℕ → String → ℕ → Option Updates
unfolding fail_row
fail_update cuts s update_id safe_error current = elim (s update_id) [
  | none ↦ none
  | some row ↦ some (put s update_id (fail_row cuts row safe_error current))
]
