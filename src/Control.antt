-- ===== src/Control.antt =====
-- app/services/admin_access.py: the roles of the staff and what each may do. The children are about
-- app/repositories/user_control.
pub mod Store
pub mod Restrict
pub mod Adjust
pub mod Staff
pub mod Notes
pub mod Commands
pub mod Cases
pub mod Effect
pub mod Safety
pub mod Ledger
pub mod Blocking
mod Tests
use chat_pulse.Prelude.{
  ℕ, String, Bool, true, false, Option, none, some, str_eq, if◌then◌else◌, ◌==◌,
}

pub data AdminRole : Type 0 where
  owner admin moderator support : AdminRole

pub data Permission : Type 0 where
  users_view audit_view audit_view_own vip_manage xp_manage users_block users_notes : Permission
  users_message bulk_vip bulk_block bulk_tag_message staff_manage : Permission

-- `OWNER_PERMISSIONS`, as a test of membership.
abbrev pub owner_permissions : Permission → Bool
owner_permissions p = true

-- `permission != "staff.manage"`
abbrev pub is_not_staff_manage : Permission → Bool
is_not_staff_manage staff_manage = false
is_not_staff_manage _ = true

-- `ROLE_PERMISSIONS`
unfoldable pub role_permissions : AdminRole → Permission → Bool
role_permissions owner p = owner_permissions p
role_permissions admin p = is_not_staff_manage p
role_permissions moderator users_view = true
role_permissions moderator audit_view_own = true
role_permissions moderator users_block = true
role_permissions moderator users_notes = true
role_permissions moderator users_message = true
role_permissions moderator bulk_tag_message = true
role_permissions moderator _ = false
role_permissions support users_view = true
role_permissions support users_notes = true
role_permissions support users_message = true
role_permissions support _ = false

pub record AdminActor : Type 0 where
  pub telegram_user_id : ℕ
  pub role : AdminRole
  pub permissions : Permission → Bool

abbrev pub can : AdminActor → Permission → Bool
can actor permission = actor.permissions permission

pub record AdminStaff : Type 0 where
  pub telegram_user_id : ℕ
  pub role : String
  pub is_active : Bool
  pub granted_by_owner_id : ℕ
  pub created_at : ℕ
  pub updated_at : ℕ

-- The role that a staff row names, if it is one of the three.
unfoldable pub staff_role : String → Option AdminRole
staff_role role =
    if str_eq role "admin"
    then some admin
    else if str_eq role "moderator"
    then some moderator
    else if str_eq role "support"
    then some support
    else none

abbrev pub actor_of : ℕ → AdminRole → AdminActor
actor_of user role = record {
  telegram_user_id = user;
  role = role;
  permissions = role_permissions role;
}

abbrev pub is_owner : Option ℕ → ℕ → Bool
is_owner none user = false
is_owner (some o) user = o == user

abbrev pub named_actor : ℕ → Option AdminRole → Option AdminActor
named_actor user none = none
named_actor user (some role) = some (actor_of user role)

unfoldable pub staff_actor : ℕ → Option AdminStaff → Option AdminActor
staff_actor user none = none
staff_actor user (some staff) =
    if staff.is_active then named_actor user (staff_role staff.role) else none

-- `resolve_admin_actor`, from the owner's id and the staff row of the user.
unfoldable pub resolve_admin_actor : Option ℕ → Option AdminStaff → ℕ → Option AdminActor
resolve_admin_actor owner_id staff user =
    if is_owner owner_id user then some (actor_of user owner) else staff_actor user staff
