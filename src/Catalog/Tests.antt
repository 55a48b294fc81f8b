-- ===== src/Catalog/Tests.antt =====
-- Runs and witnesses for the achievement catalog.
use chat_pulse.Prelude.{
  ℕ, ◌≡◌, refl, true, false, ◌||◌, none, some, List, [], ◌∷◌, String, length, ◌+◌, ◌≤◌, arith, ◌==◌,
  All, map, where_,
}
use chat_pulse.Achievements.{group, contains, AchievementEarned}
use chat_pulse.Xp.Store.{Env, User, GroupMember}
use chat_pulse.Xp.Accounts.{MemberInSync, UserInSync}
use chat_pulse.Levels.{level_for_xp, climb, descend, xp_threshold_for_level}
use chat_pulse.Catalog.{
  Metric, message_created, achievement_by_code, chain, chain_stage, AchievementDefinition, gte,
  common, secret, rarity_theme,
}
use chat_pulse.Catalog.Singles.{catalog}
use chat_pulse.Catalog.Public.{to_public_dict, disguised, to_public_dict-is_secret}
use chat_pulse.Catalog.Triggers.{achievement_by_code-catalog}
use chat_pulse.Catalog.Engine.{AchievementUnlock, AchievementEvent, AchievementSnapshot}
use chat_pulse.Catalog.Record.{Store, record_events, existing_codes_of}
use chat_pulse.Catalog.Record.{
  AchievementEventRecord, unlock_row, unlock_event, group_key, earned_of,
}
use chat_pulse.Catalog.Marks.{mark_seen, shared, mark_event, mark_rows}
use chat_pulse.Catalog.Pending.{list_pending_events}
use chat_pulse.Catalog.Seen.{IsShown}
use chat_pulse.Catalog.EventWrites.{EventWrite, marks, lists, updates, records, event_writes}
use chat_pulse.Catalog.Later.{mark_seen-list_pending_events}
use chat_pulse.Catalog.Due.{due, codes_of}
use chat_pulse.Catalog.Rewards.{
  rewards_of, is_group, live_snapshot, snapshot_of, live_events, Awarded, award_new_achievements,
  award_new_achievements_law,
}
use chat_pulse.Prelude.Int.{pos}
use chat_pulse.Catalog.Again.{met_by, record_events-again}

abbrev counts : Metric → ℕ
counts Metric.messages_count = 120
counts _ = 0

abbrev snapshot : AchievementSnapshot
snapshot = record { value = counts }

abbrev message : AchievementEvent
message = record {
  trigger = message_created;
  telegram_user_id = 7;
  telegram_chat_id = some 3;
  occurred_at = 100;
}

abbrev empty : Store
empty = record {
  unlocks = [];
  events = [];
  legacy = [];
  next_unlock = 1;
  next_event = 1;
  has_user = λ _. true;
  has_chat = λ _. true;
}

-- The catalog has 13 chains, the ranking and the secrets.
catalog-length : length catalog ≡ 89
unfolding chain
catalog-length = refl

record_events-again_example :
    (r : Store × List AchievementEarned) × (record_events true empty snapshot (message ∷ [])
      ≡ some r)
    × ((code : String)
        → contains code (existing_codes_of r.0 7 (some 3)) ≡ (
            met_by snapshot (message ∷ []) code
            || contains code (existing_codes_of empty 7 (some 3))))
    × (record_events true r.0 snapshot (message ∷ []) ≡ some (r.0, []))
record_events-again_example = record_events-again true true empty snapshot message [] tt refl refl

-- The first secret, and the first definition of the catalog.
abbrev night : AchievementDefinition
night = record {
  code = "secret_night_owl";
  title = "Нічна сова";
  description = "Надіслати 100 повідомлень у нічний час";
  category = "secret";
  rarity = secret;
  scope = group;
  icon = "moon-star";
  visual_theme = rarity_theme secret;
  hidden = true;
  chain_key = none;
  chain_stage = 0;
  chain_total = 0;
  trigger = message_created;
  metric = Metric.night_messages_count;
  threshold = 100;
  comparator = gte;
  important = true;
  reward_xp = 35;
  version = 2;
  season_key = none;
}

abbrev first_message : AchievementDefinition
first_message = record night {
  code = "messages_10";
  title = "Перше слово";
  description = "Надіслано 10 повідомлень";
  category = "activity";
  rarity = common;
  icon = "message-circle";
  visual_theme = rarity_theme common;
  hidden = false;
  chain_key = some "messages";
  chain_stage = 1;
  chain_total = 8;
  metric = Metric.messages_count;
  threshold = 10;
  important = false;
  reward_xp = 5;
}

achievement_by_code-catalog_example :
    achievement_by_code catalog first_message.code ≡ some first_message
unfolding chain chain_stage
achievement_by_code-catalog_example = achievement_by_code-catalog 0 first_message refl

to_public_dict-is_secret_example :
    to_public_dict night false 3 none none
    ≡ to_public_dict (disguised night first_message) false 9 none none
to_public_dict-is_secret_example = to_public_dict-is_secret night first_message 3 9 none none refl

-- An estimate that is corrected by the search for the level.
abbrev env : Env
env = record { estimate = λ x. 1; local_date = λ _ t. t; month_start = λ d. d }

abbrev ann : User
ann = record { telegram_id = 7; global_xp_total = 0; global_level = 1 }

abbrev member : GroupMember
member = record {
  telegram_chat_id = 3;
  telegram_user_id = 7;
  messages_count = 120;
  media_count = 0;
  night_messages_count = 0;
  morning_messages_count = 0;
  reactions_received = 0;
  replies_count = 0;
  photo_count = 0;
  voice_count = 0;
  xp_total = 0;
  level = 1;
  streak = record { current_streak = 0; longest_streak = 0; last_streak_date = none };
}

level_one : 1 ≡ level_for_xp env.estimate (pos 0)
unfolding level_for_xp climb descend xp_threshold_for_level
level_one = refl

abbrev due_now : List AchievementDefinition
due_now = due (snapshot_of member ann) (existing_codes_of empty 7 (some 3)) (live_events member 100)

-- The first two thresholds of messages.
due_now-codes : codes_of due_now ≡ "messages_10" ∷ "messages_100" ∷ []
unfolding chain chain_stage live_snapshot existing_codes_of contains
due_now-codes = refl

award_new_achievements_law_example :
    (a : Awarded) × (award_new_achievements env empty member ann 100 ≡ some a)
    × (a.earned ≡ map earned_of due_now)
    × (a.member.xp_total ≡ 0 + rewards_of (where_ is_group due_now))
    × (a.user.global_xp_total ≡ 0 + rewards_of due_now)
    × MemberInSync env a.member
    × UserInSync env a.user
    × ((code : String)
        → contains code (existing_codes_of a.store 7 (some 3)) ≡ (
            met_by (snapshot_of member ann) (live_events member 100) code
            || contains code (existing_codes_of empty 7 (some 3))))
    × (record_events true a.store (snapshot_of member ann) (live_events member 100)
        ≡ some (a.store, []))
award_new_achievements_law_example =
    award_new_achievements_law env empty member ann 100 refl refl level_one level_one

abbrev night_unlock : ℕ → AchievementUnlock
night_unlock at = record {
  definition = night;
  telegram_user_id = 7;
  telegram_chat_id = some 3;
  progress = 100;
  occurred_at = at;
}

-- Two events of one user, the later one first, and one of another user.
abbrev three_events : Store
three_events = record empty {
  next_event = 4;
  unlocks =
      unlock_row 1 (night_unlock 90) (group_key 3)
      ∷ unlock_row 2 (night_unlock 80) (group_key 4)
      ∷ [];
  events =
      unlock_event 1 1 (night_unlock 90)
      ∷ unlock_event 2 2 (night_unlock 80)
      ∷ record (unlock_event 3 1 (night_unlock 85)) { telegram_user_id = 8 }
      ∷ [];
}

abbrev ids : List AchievementEventRecord → List ℕ
ids [] = []
ids (e ∷ l) = e.id ∷ ids l

-- Before the mark: a limit of 0 is as 1, and the earlier event comes first.
one_at_a_time : ids (list_pending_events (night ∷ []) 120 three_events 7 0).0 ≡ 2 ∷ []
unfolding list_pending_events achievement_by_code
one_at_a_time = refl

two_pending : ids (list_pending_events (night ∷ []) 120 three_events 7 10).0 ≡ 2 ∷ 1 ∷ []
unfolding list_pending_events achievement_by_code
two_pending = refl

abbrev listed : List AchievementEventRecord
listed = (list_pending_events (night ∷ []) 120 (mark_seen 110 three_events 7 2).1 7 10).0

one_left : ids listed ≡ 1 ∷ []
unfolding list_pending_events achievement_by_code mark_event mark_rows
one_left = refl

-- The event is shared, the other one is listed and an update comes; then the counts earn more.
abbrev afterwards : List EventWrite
afterwards =
    marks shared 112 7 2
    ∷ lists (night ∷ []) 113 7 10
    ∷ updates 114 7 2 ("secret_night_owl" ∷ []) none
    ∷ records true snapshot (message ∷ [])
    ∷ []

abbrev listed_later : List AchievementEventRecord
listed_later =
    (list_pending_events catalog 120 (event_writes (mark_seen 110 three_events 7 2).1 afterwards) 7
      10).0

mark_seen-list_pending_events_example :
    All (IsShown 7) listed_later
    × All (λ e. (e.id == 2) ≡ false) listed_later
    × (length listed_later ≤ 10)
unfolding mark_event mark_rows
mark_seen-list_pending_events_example =
    mark_seen-list_pending_events catalog 110 120 three_events 7 2 10 afterwards
      ((refl, (refl, tt)), ((refl, tt), (tt, tt))) (omega arith, (omega arith, (omega arith, tt)))
      refl
