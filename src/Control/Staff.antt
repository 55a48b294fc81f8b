-- ===== src/Control/Staff.antt =====
-- app/repositories/user_control/staff.py: the roles of the staff.
use chat_pulse.Prelude.{ℕ, String, true, false, Option, none, some, put, if◌then◌else◌}
use chat_pulse.Control.{AdminActor, AdminStaff, staff_manage}
use chat_pulse.Control.Store.{
  Env, Action, Store, Error, Result, err, ok, ◌>>=◌, ◌>>◌, require, reason_of,
  require_mutable_target, audited,
}

-- The roles that can be given.
pub data StaffRole : Type 0 where
  admin moderator support : StaffRole

abbrev pub role_text : StaffRole → String
role_text StaffRole.admin = "admin"
role_text StaffRole.moderator = "moderator"
role_text StaffRole.support = "support"

unfoldable pub staff_after : Option AdminStaff → AdminActor → ℕ → StaffRole → ℕ → AdminStaff
staff_after none actor user_id role current = record {
  telegram_user_id = user_id;
  role = role_text role;
  is_active = true;
  granted_by_owner_id = actor.telegram_user_id;
  created_at = current;
  updated_at = current;
}
staff_after (some staff) actor user_id role current = record staff {
  role = role_text role;
  is_active = true;
  granted_by_owner_id = actor.telegram_user_id;
  updated_at = current;
}

abbrev pub role_store : AdminActor → ℕ → StaffRole → ℕ → Store → Store
role_store actor user_id role current s =
    audited actor (Action.staff_role_set (role_text role)) user_id current record s {
      staff = put s.staff user_id (staff_after (s.staff user_id) actor user_id role current);
    }

unfoldable pub set_role : Store → AdminActor → ℕ → StaffRole → ℕ → Result Store
unfolding staff_after
set_role s actor user_id role current = do
  require actor staff_manage
  user ← require_mutable_target s user_id
  ok (role_store actor user_id role current s)

-- The row of an active role.
unfoldable pub require_active : Option AdminStaff → Result AdminStaff
require_active none = err Error.lookup_error
require_active (some staff) = if staff.is_active then ok staff else err Error.lookup_error

abbrev pub removed_store : AdminActor → ℕ → String → ℕ → AdminStaff → Store → Store
removed_store actor user_id reason current staff s =
    audited actor (Action.staff_role_removed staff.role reason) user_id current record s {
      staff = put s.staff user_id record staff { is_active = false; updated_at = current };
    }

unfoldable pub remove_role : Env → Store → AdminActor → ℕ → String → ℕ → Result Store
unfolding require_active
remove_role env s actor user_id reason current = do
  require actor staff_manage
  normalized ← reason_of env reason
  user ← require_mutable_target s user_id
  staff ← require_active (s.staff user_id)
  ok (removed_store actor user_id normalized current staff s)
