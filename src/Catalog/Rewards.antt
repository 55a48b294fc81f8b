-- ===== src/Catalog/Rewards.antt =====
-- `_award_new_achievements`, `_live_snapshot` and `_apply_achievement_rewards` of
-- app/repositories/gamification_v2.py, which the bot uses for every message and reaction.
use chat_pulse.Prelude.{
  ℕ, ◌+◌, ◌≡◌, refl, ap, ◌∙◌, String, Bool, true, false, ◌||◌, Option, none, some, List, [], ◌∷◌,
  map, where_, if◌then◌else◌,
}
use chat_pulse.Achievements.{group, global, AchievementEarned, contains}
use chat_pulse.Xp.Store.{Env, User, GroupMember}
use chat_pulse.Xp.Pay.{pay_member, pay_user}
use chat_pulse.Xp.Accounts.{
  MemberInSync, UserInSync, pay_member-xp_total, pay_member-InSync, pay_user-total, pay_user-InSync,
}
use chat_pulse.Catalog.{
  AchievementTrigger, Metric, message_created, reply_created, media_created, reaction_received,
  streak_updated, level_changed, AchievementDefinition,
}
use chat_pulse.Catalog.Engine.{AchievementEvent, AchievementSnapshot}
use chat_pulse.Catalog.Record.{Store, record_events, existing_codes_of, earned_of}
use chat_pulse.Catalog.Due.{due}
use chat_pulse.Catalog.Earned.{record_events-due}
use chat_pulse.Catalog.Again.{record_events-again, met_by}

-- `sum(max(0, int(item.reward_xp)) for item in earned if item.scope == "group")`
abbrev pub group_reward_of : List AchievementEarned → ℕ
group_reward_of [] = 0
group_reward_of (a ∷ l) = elim a.scope [
  | group ↦ a.reward_xp + group_reward_of l
  | global ↦ group_reward_of l
]

abbrev pub global_reward_of : List AchievementEarned → ℕ
global_reward_of [] = 0
global_reward_of (a ∷ l) = a.reward_xp + global_reward_of l

-- `_apply_achievement_rewards`: the totals and levels change as they do for an award, but no cap
-- and no daily row is touched.
unfoldable pub apply_achievement_rewards :
    Env → GroupMember → User → List AchievementEarned → GroupMember × User
apply_achievement_rewards env m u earned =
    (pay_member env (group_reward_of earned) m, pay_user env (global_reward_of earned) u)

-- `_live_snapshot`: the other metrics are not among its keys.
unfoldable pub live_snapshot : GroupMember → User → Metric → ℕ
live_snapshot m u Metric.messages_count = m.messages_count
live_snapshot m u Metric.media_count = m.media_count
live_snapshot m u Metric.replies_count = m.replies_count
live_snapshot m u Metric.reactions_received = m.reactions_received
live_snapshot m u Metric.photo_count = m.photo_count
live_snapshot m u Metric.voice_count = m.voice_count
live_snapshot m u Metric.night_messages_count = m.night_messages_count
live_snapshot m u Metric.morning_messages_count = m.morning_messages_count
live_snapshot m u Metric.xp_total = m.xp_total
live_snapshot m u Metric.level = m.level
live_snapshot m u Metric.current_streak = m.streak.current_streak
live_snapshot m u Metric.global_xp_total = u.global_xp_total
live_snapshot m u Metric.global_level = u.global_level
live_snapshot m u _ = 0

abbrev pub event_of : GroupMember → ℕ → AchievementTrigger → AchievementEvent
event_of m timestamp trigger = record {
  trigger = trigger;
  telegram_user_id = m.telegram_user_id;
  telegram_chat_id = some m.telegram_chat_id;
  occurred_at = timestamp;
}

-- The six triggers, in order.
abbrev pub live_events : GroupMember → ℕ → List AchievementEvent
live_events m timestamp =
    event_of m timestamp message_created
    ∷ event_of m timestamp reply_created
    ∷ event_of m timestamp media_created
    ∷ event_of m timestamp reaction_received
    ∷ event_of m timestamp streak_updated
    ∷ event_of m timestamp level_changed
    ∷ []

abbrev pub snapshot_of : GroupMember → User → AchievementSnapshot
unfolding live_snapshot
snapshot_of m u = record { value = live_snapshot m u }

pub record Awarded : Type 0 where
  pub store : Store
  pub member : GroupMember
  pub user : User
  pub earned : List AchievementEarned

abbrev pub rewarded :
    Env → GroupMember → User → Option (Store × List AchievementEarned) → Option Awarded
rewarded env m u none = none
rewarded env m u (some (s, earned)) = some record {
  store = s;
  member = (apply_achievement_rewards env m u earned).0;
  user = (apply_achievement_rewards env m u earned).1;
  earned = earned;
}

-- `_award_new_achievements`, where the user's row is there; without it nothing is earned.
unfoldable pub award_new_achievements : Env → Store → GroupMember → User → ℕ → Option Awarded
award_new_achievements env s m u timestamp =
    rewarded env m u (record_events true s (snapshot_of m u) (live_events m timestamp))

-- The rewards of definitions, and those of a group among them.
abbrev pub rewards_of : List AchievementDefinition → ℕ
rewards_of [] = 0
rewards_of (d ∷ l) = d.reward_xp + rewards_of l

abbrev pub is_group : AchievementDefinition → Bool
is_group d = elim d.scope [ group ↦ true | global ↦ false ]

global_reward_of-earned_of :
    (ds : List AchievementDefinition) → global_reward_of (map earned_of ds) ≡ rewards_of ds
global_reward_of-earned_of [] = refl
global_reward_of-earned_of (d ∷ l) = ap (λ n. d.reward_xp + n) (global_reward_of-earned_of l)

group_reward_of-earned_of :
    (ds : List AchievementDefinition)
    → group_reward_of (map earned_of ds) ≡ rewards_of (where_ is_group ds)
group_reward_of-earned_of [] = refl
group_reward_of-earned_of (d ∷ l) =
    elim d.scope
      as (λ scope.
        (elim scope [
          | group ↦ d.reward_xp + group_reward_of (map earned_of l)
          | global ↦ group_reward_of (map earned_of l)
        ])
        ≡ rewards_of (
            if elim scope [ group ↦ true | global ↦ false ]
            then d ∷ where_ is_group l
            else where_ is_group l)) [
              | group ↦ ap (λ n. d.reward_xp + n) (group_reward_of-earned_of l)
              | global ↦ group_reward_of-earned_of l
            ]

-- Evaluating the achievements of a member whose rows exist never raises. What is earned is what is
-- due: trigger by trigger the definitions of the catalog that are not held and that the counts
-- meet, each once. The member's total grows by the rewards that the catalog gives for the group
-- achievements among them, the user's by those for all of them, and both keep the level of their XP.
-- Afterwards a code is held exactly when it was before or the counts
-- meet a definition with it, and recording for the same counts again earns nothing and changes no
-- table of achievements.
pub award_new_achievements_law :
    (env : Env) (s : Store) (m : GroupMember) (u : User) (timestamp : ℕ)
    → s.has_user m.telegram_user_id ≡ true
    → s.has_chat m.telegram_chat_id ≡ true
    → MemberInSync env m
    → UserInSync env u
    → let ds =
        due
          (snapshot_of m u)
          (existing_codes_of s m.telegram_user_id (some m.telegram_chat_id))
          (live_events m timestamp) in
      (a : Awarded) × (award_new_achievements env s m u timestamp ≡ some a)
      × (a.earned ≡ map earned_of ds)
      × (a.member.xp_total ≡ m.xp_total + rewards_of (where_ is_group ds))
      × (a.user.global_xp_total ≡ u.global_xp_total + rewards_of ds)
      × MemberInSync env a.member
      × UserInSync env a.user
      × ((code : String)
          → contains code (existing_codes_of a.store m.telegram_user_id (some m.telegram_chat_id))
            ≡ (met_by (snapshot_of m u) (live_events m timestamp) code
                || contains code
                    (existing_codes_of s m.telegram_user_id (some m.telegram_chat_id))))
      × (record_events true a.store (snapshot_of m u) (live_events m timestamp)
          ≡ some (a.store, []))
unfolding award_new_achievements apply_achievement_rewards
award_new_achievements_law env s m u timestamp hu hc hm hv =
    let (r, recorded, held, again) =
      record_events-again true true s (snapshot_of m u) (event_of m timestamp message_created) _
        ((refl, refl), ((refl, refl), ((refl, refl), ((refl, refl), ((refl, refl), tt))))) hu hc in
    let ds : List AchievementDefinition =
      due (snapshot_of m u) (existing_codes_of s m.telegram_user_id (some m.telegram_chat_id))
        (live_events m timestamp) in
    let earned : r.1 ≡ map earned_of ds =
      record_events-due true s (snapshot_of m u) (event_of m timestamp message_created) _ r
        ((refl, refl), ((refl, refl), ((refl, refl), ((refl, refl), ((refl, refl), tt))))) hu hc
        recorded in
    let for_group : group_reward_of r.1 ≡ rewards_of (where_ is_group ds) =
      ap group_reward_of earned ∙ group_reward_of-earned_of ds in
    let for_all : global_reward_of r.1 ≡ rewards_of ds =
      ap global_reward_of earned ∙ global_reward_of-earned_of ds in
    (
      record {
        store = r.0;
        member = pay_member env (group_reward_of r.1) m;
        user = pay_user env (global_reward_of r.1) u;
        earned = r.1;
      },
      ap (rewarded env m u) recorded,
      earned,
      pay_member-xp_total env (group_reward_of r.1) m ∙ ap (λ n. m.xp_total + n) for_group,
      pay_user-total env (global_reward_of r.1) u ∙ ap (λ n. u.global_xp_total + n) for_all,
      pay_member-InSync env (group_reward_of r.1) m hm,
      pay_user-InSync env (global_reward_of r.1) u hv,
      held,
      again,
    )
