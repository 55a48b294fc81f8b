-- ===== src/Control/Adjust.antt =====
-- `adjust_xp` of app/repositories/user_control/xp.py.
use chat_pulse.Prelude.{
  ℕ, ◌+◌, String, Bool, ◌||◌, Option, none, some, [], ◌∷◌, ◌++◌, put, put2, ltb, ◌==◌,
}
use chat_pulse.Prelude.Int.{ℤ, pos, pos_part, neg_part, ◌+ℤ◌}
use chat_pulse.Xp.Store.{User, GroupMember}
use chat_pulse.Control.{AdminActor, xp_manage}
use chat_pulse.Control.Store.{
  Env, UserXpAdjustment, Action, Store, Error, Result, ok, ◌>>=◌, ◌>>◌, raise_if, or_raise, require,
  reason_of, require_user, require_mutable_target, level_for_xp, audited,
}

-- `amount == 0 or abs(amount) > 100_000`
abbrev pub is_out_of_range : ℤ → Bool
is_out_of_range amount =
    let size = pos_part amount + neg_part amount in (size == 0) || ltb 100000 size

-- `previous + amount`, which may not be negative.
abbrev pub resulting_of : ℕ → ℤ → Result ℕ
resulting_of previous amount =
    raise_if (ltb 0 (neg_part (pos previous +ℤ amount))) Error.value_error
    >> ok (pos_part (pos previous +ℤ amount))

abbrev pub with_global_xp : Env → User → ℕ → User
with_global_xp env u total = record u {
  global_xp_total = total;
  global_level = level_for_xp env total;
}

abbrev pub with_group_xp : Env → GroupMember → ℕ → GroupMember
with_group_xp env m total = record m { xp_total = total; level = level_for_xp env total }

-- The total before and after, and the tables with the new total.
unfoldable pub adjust_total : Env → Store → ℕ → ℤ → Option ℕ → Result (Store × (ℕ × ℕ))
adjust_total env s user_id amount none = do
  user ← require_user s user_id
  resulting ← resulting_of user.global_xp_total amount
  ok (
    record s { users = put s.users user_id (with_global_xp env user resulting) },
    (user.global_xp_total, resulting),
  )
adjust_total env s user_id amount (some chat_id) = do
  member ← or_raise (s.members chat_id user_id) Error.lookup_error
  resulting ← resulting_of member.xp_total amount
  ok (
    record s { members = put2 s.members chat_id user_id (with_group_xp env member resulting) },
    (member.xp_total, resulting),
  )

abbrev pub adjustment_row : AdminActor → ℕ → ℤ → String → Option ℕ → ℕ → ℕ × ℕ → UserXpAdjustment
adjustment_row actor user_id amount reason chat_id current (previous, resulting) = record {
  telegram_user_id = user_id;
  telegram_chat_id = chat_id;
  amount = amount;
  previous_total = previous;
  resulting_total = resulting;
  reason = reason;
  actor_telegram_user_id = actor.telegram_user_id;
  created_at = current;
}

abbrev pub adjust_store : AdminActor → ℕ → String → UserXpAdjustment → ℕ → Store → Store
adjust_store actor user_id reason row current s =
    audited actor
      (Action.user_xp_adjusted row.telegram_chat_id row.amount row.previous_total
        row.resulting_total reason)
      user_id current record s { adjustments = s.adjustments ++ (row ∷ []) }

unfoldable pub adjust_xp :
    Env → Store → AdminActor → ℕ → ℤ → String → Option ℕ → ℕ → Result (Store × UserXpAdjustment)
unfolding adjust_total
adjust_xp env s actor user_id amount reason chat_id current = do
  require actor xp_manage
  raise_if (is_out_of_range amount) Error.value_error
  normalized ← reason_of env reason
  user ← require_mutable_target s user_id
  changed ← adjust_total env s user_id amount chat_id
  let row = adjustment_row actor user_id amount normalized chat_id current changed.1
  ok (adjust_store actor user_id normalized row current changed.0, row)
