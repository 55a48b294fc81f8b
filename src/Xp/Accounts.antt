-- ===== src/Xp/Accounts.antt =====
-- Where the XP of an award goes, and the messages that earn none.
use chat_pulse.Prelude.{
  ℕ, ◌+◌, ◌-◌, ◌≤◌, ◌≡◌, refl, true, ◌||◌, some, List, get_or, min, Bool-cases, inl, inr, leb, ◌==◌,
  ==_iff, length, arith, ◌/◌,
}
use chat_pulse.Prelude.Int.{pos}
use chat_pulse.Levels.{level_for_xp}
use chat_pulse.Antispam.{MessageActivity, message_base_xp}
use chat_pulse.Antispam.Worth.{adjusted_message_xp_law}
use chat_pulse.Xp.Store.{Env, ChatGroup, User, GroupMember, MessageAuthor, Store}
use chat_pulse.Xp.Pay.{
  pay_member, pay_user, group_award_of, global_award_of, streak_after, apply_xp,
}
use chat_pulse.Xp.Message.{cooling, duplicate_of, requested_xp_of}

-- A row of a member, or of a user, whose level is that of its XP.
abbrev pub MemberInSync : Env → GroupMember → Type 0
MemberInSync env m = m.level ≡ level_for_xp env.estimate (pos m.xp_total)

abbrev pub UserInSync : Env → User → Type 0
UserInSync env u = u.global_level ≡ level_for_xp env.estimate (pos u.global_xp_total)

pub pay_member-xp_total :
    (env : Env) (award : ℕ) (m : GroupMember)
    → (pay_member env award m).xp_total ≡ m.xp_total + award
unfolding pay_member
pay_member-xp_total env award m = ground arith

pub pay_member-InSync :
    (env : Env) (award : ℕ) (m : GroupMember)
    → MemberInSync env m
    → MemberInSync env (pay_member env award m)
unfolding pay_member
pay_member-InSync env award m h = elim (Bool-cases (award == 0)) [
  | inl nothing ↦ rw nothing h
  | inr something ↦ rw something
]

pub pay_user-total :
    (env : Env) (award : ℕ) (u : User)
    → (pay_user env award u).global_xp_total ≡ u.global_xp_total + award
unfolding pay_user
pay_user-total env award u = ground arith

pub pay_user-InSync :
    (env : Env) (award : ℕ) (u : User) → UserInSync env u → UserInSync env (pay_user env award u)
unfolding pay_user
pay_user-InSync env award u h = elim (Bool-cases (award == 0)) [
  | inl nothing ↦ rw nothing h
  | inr something ↦ rw something
]

pay-keys : (env : Env) (award : ℕ) (u : User) → (pay_user env award u).telegram_id ≡ u.telegram_id
unfolding pay_user
pay-keys env award u = ground arith

self_eq : (n : ℕ) → (n == n) ≡ true
self_eq n = (==_iff n n).1 refl

-- An award pays the member the request, but no more than what is left of 200 for the member's local
-- day in the group, and pays the user that, but no more than what is left of 400 for the day in UTC.
-- The rows of both days grow by what was paid, both accounts stay with the level of their XP, and
-- the update reports exactly these amounts and levels.
pub apply_xp_accounts :
    (env : Env) (s : Store) (g : ChatGroup) (m : GroupMember) (u : User) (requested timestamp : ℕ)
    → MemberInSync env m
    → UserInSync env u
    → let (s', update) = apply_xp env s g m u requested timestamp in
      let date = env.local_date g.timezone timestamp in
      let today = get_or (s.daily g.telegram_chat_id m.telegram_user_id date) 0 in
      let today_in_all = get_or (s.global_daily u.telegram_id (timestamp / 86400000000)) 0 in
      (update.group_xp_awarded ≡ min requested (200 - today))
      × (update.global_xp_awarded ≡ min update.group_xp_awarded (400 - today_in_all))
      × (s'.daily g.telegram_chat_id m.telegram_user_id date
          ≡ some (today + update.group_xp_awarded))
      × (s'.global_daily u.telegram_id (timestamp / 86400000000)
          ≡ some (today_in_all + update.global_xp_awarded))
      × (m' : GroupMember) × (s'.members m.telegram_chat_id m.telegram_user_id ≡ some m')
      × (m'.xp_total ≡ m.xp_total + update.group_xp_awarded)
      × MemberInSync env m'
      × (update.new_group_level ≡ m'.level)
      × (u' : User) × (s'.users u.telegram_id ≡ some u')
      × (u'.global_xp_total ≡ u.global_xp_total + update.global_xp_awarded)
      × UserInSync env u'
      × (update.new_global_level ≡ u'.global_level)
unfolding apply_xp group_award_of global_award_of
apply_xp_accounts env s g m u requested timestamp hm hu =
    let date : ℕ = env.local_date g.timezone timestamp in
    let previous : ℕ = get_or (s.daily g.telegram_chat_id m.telegram_user_id date) 0 in
    let award : ℕ = min requested (200 - previous) in
    let overall : ℕ =
      min award (400 - get_or (s.global_daily u.telegram_id (timestamp / 86400000000)) 0) in
    let paid : GroupMember = pay_member env award m in
    (
      refl,
      refl,
      rw (self_eq g.telegram_chat_id, self_eq m.telegram_user_id, self_eq date) refl,
      rw (self_eq u.telegram_id, self_eq (timestamp / 86400000000)) refl,
      record paid { streak = (streak_after env previous (previous + award) paid date s.usage).0 },
      rw (self_eq m.telegram_chat_id, self_eq m.telegram_user_id),
      pay_member-xp_total env award m,
      pay_member-InSync env award m hm,
      refl,
      pay_user env overall u,
      rw (self_eq u.telegram_id),
      pay_user-total env overall u,
      pay_user-InSync env overall u hu,
      refl,
    )

-- A message earns no XP within five seconds of the last one that earned some, as a duplicate, or
-- with forty messages of its author in the ten minutes before; and no message earns more than its
-- base value, five at most.
pub requested_xp_law :
    (activity : MessageActivity) (timestamp : ℕ) (recent : List MessageAuthor)
    → (requested_xp_of activity timestamp recent ≤ message_base_xp activity)
      × ((requested_xp_of activity timestamp recent == 0) ≡ (
          cooling timestamp recent
          || (duplicate_of activity recent
              || ((message_base_xp activity == 0) || leb 40 (length recent)))))
unfolding requested_xp_of
requested_xp_law activity timestamp recent =
    let (fits, _, zero_) =
      adjusted_message_xp_law (message_base_xp activity) (length recent + 1) (length recent + 1)
        (omega arith) in
    (ground arith, ground arith)
