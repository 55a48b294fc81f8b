-- ===== src/Xp/Pay.antt =====
-- `_apply_xp` of app/repositories/gamification.py, and what it calls.
use chat_pulse.Prelude.{
  ℕ, ◌+◌, ◌-◌, ◌*◌, min, String, ◌&&◌, Option, none, some, List, [], ◌∷◌, ◌++◌, put, put2, put3,
  get_or, ltb, leb, ◌==◌, if◌then◌else◌,
}
use chat_pulse.Prelude.Int.{pos}
use chat_pulse.Levels.{level_for_xp}
use chat_pulse.Streak.{Usage, StreakState, advance_streak, consume_protections}
use chat_pulse.Achievements.{Metric, AchievementEarned, evaluate_achievements}
use chat_pulse.Xp.Store.{
  Env, ChatGroup, User, GroupMember, MessageAuthor, MemberAchievement, Store, GamificationUpdate,
  second, minute, utc_date, author_of, Context,
}

abbrev pub group_daily_xp_cap : ℕ
group_daily_xp_cap = 200

abbrev pub global_daily_xp_cap : ℕ
global_daily_xp_cap = 400

abbrev pub streak_xp_threshold : ℕ
streak_xp_threshold = 10

abbrev pub xp_cooldown : ℕ
xp_cooldown = 5 * second

abbrev pub burst_window : ℕ
burst_window = 10 * minute

-- `_lock_xp_context`: four rows, or nothing where one is missing.
unfoldable pub lock_from :
    Option ChatGroup → Option User → Option GroupMember → Option MessageAuthor → Option Context
lock_from (some group) (some user) (some member) (some author) =
    some (record { group = group; user = user; member = member; author = author })
lock_from _ _ _ _ = none

unfoldable pub lock_xp_context : Store → ℕ → ℕ → ℕ → Option Context
unfolding lock_from
lock_xp_context s chat_id user_id message_id =
    lock_from (s.groups chat_id) (s.users user_id) (s.members chat_id user_id)
      (author_of chat_id message_id s.authors)

-- The codes that a member holds.
unfoldable pub codes_of : ℕ → ℕ → List MemberAchievement → List String
codes_of chat_id user_id [] = []
codes_of chat_id user_id (a ∷ l) =
    let rest = codes_of chat_id user_id l in
    if (a.telegram_chat_id == chat_id) && (a.telegram_user_id == user_id)
    then a.achievement_code ∷ rest
    else rest

unfoldable pub stats_of : GroupMember → Metric → ℕ
stats_of m Metric.xp_total = m.xp_total
stats_of m Metric.level = m.level
stats_of m Metric.messages_count = m.messages_count
stats_of m Metric.reactions_received = m.reactions_received
stats_of m Metric.replies_count = m.replies_count
stats_of m Metric.photo_count = m.photo_count
stats_of m Metric.voice_count = m.voice_count
stats_of m Metric.current_streak = m.streak.current_streak

-- The rows that `_award_new_achievements` adds.
unfoldable pub earned_rows : ℕ → ℕ → ℕ → List AchievementEarned → List MemberAchievement
earned_rows chat_id user_id timestamp [] = []
earned_rows chat_id user_id timestamp (a ∷ l) =
    record {
      telegram_chat_id = chat_id;
      telegram_user_id = user_id;
      achievement_code = a.code;
      earned_at = timestamp;
    }
    ∷ earned_rows chat_id user_id timestamp l

unfoldable pub award_new_achievements :
    List MemberAchievement → GroupMember → ℕ → List AchievementEarned × List MemberAchievement
unfolding codes_of stats_of earned_rows
award_new_achievements rows m timestamp =
    let existing = codes_of m.telegram_chat_id m.telegram_user_id rows in
    let earned = evaluate_achievements (stats_of m) existing in
    (earned, rows ++ earned_rows m.telegram_chat_id m.telegram_user_id timestamp earned)

-- `if group_award:` on the member, and `if global_award:` on the user.
unfoldable pub pay_member : Env → ℕ → GroupMember → GroupMember
pay_member env award m = if award == 0 then m else record m {
  xp_total = m.xp_total + award;
  level = level_for_xp env.estimate (pos (m.xp_total + award));
}

unfoldable pub pay_user : Env → ℕ → User → User
pay_user env award u = if award == 0 then u else record u {
  global_xp_total = u.global_xp_total + award;
  global_level = level_for_xp env.estimate (pos (u.global_xp_total + award));
}

-- `if previous_daily_xp < STREAK_XP_THRESHOLD <= daily.xp_earned: await self._advance_streak(...)`
unfoldable pub streak_after : Env → ℕ → ℕ → GroupMember → ℕ → Usage → StreakState × Usage
streak_after env previous_daily_xp daily_xp m local_date usage =
    if ltb previous_daily_xp streak_xp_threshold && leb streak_xp_threshold daily_xp
    then advance_streak (consume_protections env.month_start m.telegram_chat_id m.telegram_user_id)
        m.streak local_date usage
    else (m.streak, usage)

-- The XP that the caps leave of a request: in the group, and of that in the global profile.
unfoldable pub group_award_of : ℕ → ℕ → ℕ
group_award_of requested_xp xp_earned = min requested_xp (group_daily_xp_cap - xp_earned)

unfoldable pub global_award_of : ℕ → ℕ → ℕ
global_award_of group_award xp_earned = min group_award (global_daily_xp_cap - xp_earned)

-- `_apply_xp`. `_ensure_daily_activity` and `_ensure_global_daily_xp` make a row with no XP where
-- there is none, so the rows read after them exist.
unfoldable pub apply_xp :
    Env → Store → ChatGroup → GroupMember → User → ℕ → ℕ → Store × GamificationUpdate
unfolding group_award_of global_award_of
apply_xp env s group m u requested_xp timestamp =
    let chat_id = group.telegram_chat_id in
    let local_date = env.local_date group.timezone timestamp in
    let previous = get_or (s.daily chat_id m.telegram_user_id local_date) 0 in
    let group_award = group_award_of requested_xp previous in
    let global_date = utc_date timestamp in
    let previous_global = get_or (s.global_daily u.telegram_id global_date) 0 in
    let global_award = global_award_of group_award previous_global in
    let paid = pay_member env group_award m in
    let paid_user = pay_user env global_award u in
    let (streak, usage) =
      streak_after env previous (previous + group_award) paid local_date s.usage in
    let member = record paid { streak = streak } in
    let (achievements, earned) = award_new_achievements s.earned member timestamp in
    (
      record s {
        members = put2 s.members m.telegram_chat_id m.telegram_user_id member;
        users = put s.users u.telegram_id paid_user;
        daily = put3 s.daily chat_id m.telegram_user_id local_date (previous + group_award);
        global_daily =
            put2 s.global_daily u.telegram_id global_date (previous_global + global_award);
        usage = usage;
        earned = earned;
      },
      record {
        group_xp_awarded = group_award;
        global_xp_awarded = global_award;
        old_group_level = m.level;
        new_group_level = member.level;
        old_global_level = u.global_level;
        new_global_level = paid_user.global_level;
        current_streak = streak.current_streak;
        achievements = achievements;
      },
    )
