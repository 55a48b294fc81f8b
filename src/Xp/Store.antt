-- ===== src/Xp/Store.antt =====
-- The rows of app/models.py that the pipeline uses, `GamificationUpdate` of app/domain.py, and
-- what the database and the standard library bring.
use chat_pulse.Prelude.{
  ℕ, ◌*◌, ◌/◌, String, Bool, ◌&&◌, Option, none, some, List, [], ◌∷◌, Table, Table2, Table3, ◌==◌,
  if◌then◌else◌,
}
use chat_pulse.Streak.{Usage, StreakState}
use chat_pulse.Achievements.{AchievementEarned}

-- `math.sqrt` in the level estimate, `ZoneInfo` with `astimezone(...).date()`, and
-- `date.replace(day=1)`.
pub record Env : Type 0 where
  pub estimate : ℕ → ℕ
  pub local_date : String → ℕ → ℕ
  pub month_start : ℕ → ℕ

pub record ChatGroup : Type 0 where
  pub telegram_chat_id : ℕ
  pub timezone : String
  pub report_card_theme : String
  pub report_hour : ℕ
  pub report_minute : ℕ

pub record User : Type 0 where
  pub telegram_id : ℕ
  pub global_xp_total : ℕ
  pub global_level : ℕ

pub record GroupMember : Type 0 where
  pub telegram_chat_id : ℕ
  pub telegram_user_id : ℕ
  pub messages_count : ℕ
  pub media_count : ℕ
  pub night_messages_count : ℕ
  pub morning_messages_count : ℕ
  pub reactions_received : ℕ
  pub replies_count : ℕ
  pub photo_count : ℕ
  pub voice_count : ℕ
  pub xp_total : ℕ
  pub level : ℕ
  pub streak : StreakState

pub record MessageAuthor : Type 0 where
  pub telegram_chat_id : ℕ
  pub message_id : ℕ
  pub telegram_user_id : ℕ
  pub content_fingerprint : Option String
  pub content_simhash : Option ℕ
  pub content_length : ℕ
  pub xp_awarded : ℕ
  pub reactions_count : ℕ
  pub created_at : ℕ

pub record MemberAchievement : Type 0 where
  pub telegram_chat_id : ℕ
  pub telegram_user_id : ℕ
  pub achievement_code : String
  pub earned_at : ℕ

-- `daily` and `global_daily` hold `xp_earned`; the other counters of a daily row are not read here.
pub record Store : Type 0 where
  pub groups : Table ChatGroup
  pub users : Table User
  pub members : Table2 GroupMember
  pub authors : List MessageAuthor
  pub daily : Table3 ℕ
  pub global_daily : Table2 ℕ
  pub usage : Usage
  pub earned : List MemberAchievement

pub record GamificationUpdate : Type 0 where
  pub group_xp_awarded : ℕ
  pub global_xp_awarded : ℕ
  pub old_group_level : ℕ
  pub new_group_level : ℕ
  pub old_global_level : ℕ
  pub new_global_level : ℕ
  pub current_streak : ℕ
  pub achievements : List AchievementEarned

-- `GamificationUpdate()`
abbrev pub no_update : GamificationUpdate
no_update = record {
  group_xp_awarded = 0;
  global_xp_awarded = 0;
  old_group_level = 1;
  new_group_level = 1;
  old_global_level = 1;
  new_global_level = 1;
  current_streak = 0;
  achievements = [];
}

abbrev pub second : ℕ
second = 1000000

abbrev pub minute : ℕ
minute = 60 * second

abbrev pub day : ℕ
day = 24 * 60 * minute

-- `timestamp.date()` in UTC.
abbrev pub utc_date : ℕ → ℕ
utc_date timestamp = timestamp / day

-- The author row of a message, by its primary key.
abbrev pub is_message : ℕ → ℕ → MessageAuthor → Bool
is_message chat_id message_id a = (a.telegram_chat_id == chat_id) && (a.message_id == message_id)

unfoldable pub author_of : ℕ → ℕ → List MessageAuthor → Option MessageAuthor
author_of chat_id message_id [] = none
author_of chat_id message_id (a ∷ l) =
    if is_message chat_id message_id a then some a else author_of chat_id message_id l

-- The write of a row that was read by its key.
unfoldable pub set_author : ℕ → ℕ → MessageAuthor → List MessageAuthor → List MessageAuthor
set_author chat_id message_id row [] = []
set_author chat_id message_id row (a ∷ l) =
    if is_message chat_id message_id a then row ∷ l else a ∷ set_author chat_id message_id row l

pub record Context : Type 0 where
  pub group : ChatGroup
  pub user : User
  pub member : GroupMember
  pub author : MessageAuthor
