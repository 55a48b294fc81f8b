-- ===== src/Control/Store.antt =====
-- The tables of app/user_control_models.py, the audit log, and the guards of
-- app/repositories/user_control/base.py.
use chat_pulse.Prelude.{
  ℕ, String, Bool, not, ◌&&◌, Option, none, some, List, [], ◌∷◌, ◌++◌, Table, Table2, leb,
  if◌then◌else◌, max,
}
use chat_pulse.Prelude.Int.{ℤ}
use chat_pulse.Xp.Store.{User, GroupMember}
use chat_pulse.Control.{AdminActor, AdminStaff, Permission, can, is_owner}

-- What Python's texts do: `strip`, the lower-case form with single spaces, and `len`; and the
-- square root in `_level_for_xp`, which is `int((1 + sqrt(1 + total / 12.5)) / 2)`.
pub record Env : Type 0 where
  pub strip : String → String
  pub folded : String → String
  pub len : String → ℕ
  pub estimate : ℕ → ℕ

pub record UserRestriction : Type 0 where
  pub is_blocked : Bool
  pub reason : Option String
  pub blocked_by_actor_id : Option ℕ
  pub blocked_at : Option ℕ
  pub unblocked_by_actor_id : Option ℕ
  pub unblocked_at : Option ℕ
  pub unblock_reason : Option String
  pub updated_at : ℕ

pub record UserAdminNote : Type 0 where
  pub note : String
  pub updated_by_actor_id : ℕ
  pub updated_at : ℕ

pub record UserAdminTag : Type 0 where
  pub telegram_user_id : ℕ
  pub tag : String
  pub created_by_actor_id : ℕ
  pub created_at : ℕ

pub record UserXpAdjustment : Type 0 where
  pub telegram_user_id : ℕ
  pub telegram_chat_id : Option ℕ
  pub amount : ℤ
  pub previous_total : ℕ
  pub resulting_total : ℕ
  pub reason : String
  pub actor_telegram_user_id : ℕ
  pub created_at : ℕ

pub data Source : Type 0 where
  miniapp bot_private bot_group : Source

pub record BlockedAccessEvent : Type 0 where
  pub telegram_user_id : ℕ
  pub source : Source
  pub window_key : ℕ
  pub attempt_count : ℕ
  pub first_attempt_at : ℕ
  pub last_attempt_at : ℕ

-- The action of an audit row with its metadata.
pub data Action : Type 0 where
  user_blocked user_unblocked : String → Action
  user_xp_adjusted : Option ℕ → ℤ → ℕ → ℕ → String → Action
  staff_role_set : String → Action
  staff_role_removed : String → String → Action
  user_note_updated : Bool → ℕ → Action
  user_tag_added user_tag_removed : String → Action

pub record OwnerAuditLog : Type 0 where
  pub owner_telegram_user_id : ℕ
  pub action : Action
  pub target_id : ℕ
  pub created_at : ℕ

pub record Store : Type 0 where
  pub owner : Option ℕ
  pub users : Table User
  pub members : Table2 GroupMember
  pub staff : Table AdminStaff
  pub restrictions : Table UserRestriction
  pub notes : Table UserAdminNote
  pub tags : List UserAdminTag
  pub adjustments : List UserXpAdjustment
  pub attempts : List BlockedAccessEvent
  pub audit : List OwnerAuditLog

pub data Error : Type 0 where
  permission_error value_error lookup_error : Error

pub data Result {ℓ} (A : Type ℓ) : Type ℓ where
  err : Error → Result A
  ok : A → Result A

infixl 5 ◌>>=◌ ◌>>◌
unfoldable pub ◌>>=◌ {κ ℓ} : {V : Type κ} {W : Type ℓ} → Result V → (V → Result W) → Result W
err e >>= rest = err e
ok value >>= rest = rest value

abbrev pub ◌>>◌ {ℓ} : {W : Type ℓ} → Result (Unit {0}) → Result W → Result W
checked >> rest = checked >>= λ _. rest

abbrev pub raise_if : Bool → Error → Result (Unit {0})
raise_if test e = if test then err e else ok tt

abbrev pub or_raise {ℓ} : {A : Type ℓ} → Option A → Error → Result A
or_raise (some a) e = ok a
or_raise none e = err e

-- `actor.require(permission)`
abbrev pub require : AdminActor → Permission → Result (Unit {0})
require actor permission = raise_if (not (can actor permission)) Error.permission_error

-- `_reason`
abbrev pub reason_of : Env → String → Result String
reason_of env value =
    raise_if (not (leb 3 (env.len (env.strip value)) && leb (env.len (env.strip value)) 500))
      Error.value_error
    >> ok (env.strip value)

-- `_normalize_tag`
abbrev pub normalize_tag : Env → String → Result String
normalize_tag env value =
    raise_if (not (leb 1 (env.len (env.folded value)) && leb (env.len (env.folded value)) 32))
      Error.value_error
    >> ok (env.folded value)

-- `_require_user`
abbrev pub require_user : Store → ℕ → Result User
require_user s user_id = or_raise (s.users user_id) Error.lookup_error

-- `_require_mutable_target`
abbrev pub require_mutable_target : Store → ℕ → Result User
require_mutable_target s user_id = do
  user ← require_user s user_id
  raise_if (is_owner s.owner user_id) Error.value_error
  ok user

-- `_level_for_xp`
abbrev pub level_for_xp : Env → ℕ → ℕ
level_for_xp env total = max 1 (env.estimate total)

-- `session.add(self._audit_entry(...))`
abbrev pub audited : AdminActor → Action → ℕ → ℕ → Store → Store
audited actor action target current s = record s {
  audit =
      s.audit
      ++ (record {
        owner_telegram_user_id = actor.telegram_user_id;
        action = action;
        target_id = target;
        created_at = current;
      }
          ∷ []);
}
