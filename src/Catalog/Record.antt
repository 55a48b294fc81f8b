-- ===== src/Catalog/Record.antt =====
-- `record_events` of app/repositories/achievements.py with the rows of app/achievement_models.py.
use chat_pulse.Prelude.{
  ℕ, ◌+◌, String, Bool, true, false, not, ◌&&◌, Option, none, some, List, [], ◌∷◌, ◌++◌, any, ◌==◌,
  str_eq, if◌then◌else◌,
}
use chat_pulse.Achievements.{AchievementScope, group, global, AchievementEarned}
use chat_pulse.Xp.Store.{MemberAchievement}
use chat_pulse.Catalog.{AchievementRarity, AchievementDefinition}
use chat_pulse.Catalog.Engine.{
  AchievementEvent, AchievementSnapshot, AchievementUnlock, evaluate_event,
}

-- `"global"` or `f"group:{chat_id}"`
pub data ScopeKey : Type 0 where
  global_key : ScopeKey
  group_key : ℕ → ScopeKey

abbrev pub same_key : ScopeKey → ScopeKey → Bool
same_key global_key global_key = true
same_key (group_key a) (group_key b) = a == b
same_key a b = false

-- `achievement_scope_key`; `none` is the ValueError.
abbrev pub achievement_scope_key : AchievementScope → Option ℕ → Option ScopeKey
achievement_scope_key global chat = some global_key
achievement_scope_key group none = none
achievement_scope_key group (some chat) = some (group_key chat)

pub record AchievementUnlockRecord : Type 0 where
  pub id : ℕ
  pub telegram_user_id : ℕ
  pub telegram_chat_id : Option ℕ
  pub scope : AchievementScope
  pub scope_key : ScopeKey
  pub achievement_code : String
  pub rarity : AchievementRarity
  pub final_progress : ℕ
  pub definition_version : ℕ
  pub earned_at : ℕ

pub data EventType : Type 0 where
  unlock collection_update : EventType

-- The payload of an update: its count and up to three codes; that of an unlock is empty.
pub record AchievementEventRecord : Type 0 where
  pub id : ℕ
  pub telegram_user_id : ℕ
  pub achievement_unlock_id : Option ℕ
  pub event_type : EventType
  pub count : ℕ
  pub rarest_codes : List String
  pub created_at : ℕ
  pub delivered_at : Option ℕ
  pub seen_at : Option ℕ
  pub shared_at : Option ℕ

-- The tables, the next numbers of the two sequences, and the rows that foreign keys refer to.
pub record Store : Type 0 where
  pub unlocks : List AchievementUnlockRecord
  pub events : List AchievementEventRecord
  pub legacy : List MemberAchievement
  pub next_unlock : ℕ
  pub next_event : ℕ
  pub has_user : ℕ → Bool
  pub has_chat : ℕ → Bool

-- `uq_achievement_unlock_identity`
abbrev pub is_identity : ℕ → ScopeKey → String → AchievementUnlockRecord → Bool
is_identity user key code r =
    (r.telegram_user_id == user) && same_key r.scope_key key && str_eq r.achievement_code code

abbrev pub is_legacy : ℕ → ℕ → String → MemberAchievement → Bool
is_legacy chat user code r =
    (r.telegram_chat_id == chat) && (r.telegram_user_id == user) && str_eq r.achievement_code code

abbrev pub chat_exists : (ℕ → Bool) → Option ℕ → Bool
chat_exists has_chat none = true
chat_exists has_chat (some chat) = has_chat chat

abbrev pub unlock_row : ℕ → AchievementUnlock → ScopeKey → AchievementUnlockRecord
unlock_row id u key = record {
  id = id;
  telegram_user_id = u.telegram_user_id;
  telegram_chat_id = u.telegram_chat_id;
  scope = u.definition.scope;
  scope_key = key;
  achievement_code = u.definition.code;
  rarity = u.definition.rarity;
  final_progress = u.progress;
  definition_version = u.definition.version;
  earned_at = u.occurred_at;
}

abbrev pub unlock_event : ℕ → ℕ → AchievementUnlock → AchievementEventRecord
unlock_event id unlock_id u = record {
  id = id;
  telegram_user_id = u.telegram_user_id;
  achievement_unlock_id = some unlock_id;
  event_type = unlock;
  count = 0;
  rarest_codes = [];
  created_at = u.occurred_at;
  delivered_at = none;
  seen_at = none;
  shared_at = none;
}

-- The `MemberAchievement` row that goes with an unlock of a group, unless it is there.
unfoldable pub add_legacy :
    Option ℕ → AchievementUnlock → List MemberAchievement → List MemberAchievement
add_legacy none u rows = rows
add_legacy (some chat) u rows =
    if any (is_legacy chat u.telegram_user_id u.definition.code) rows
    then rows
    else rows
      ++ (record {
        telegram_chat_id = chat;
        telegram_user_id = u.telegram_user_id;
        achievement_code = u.definition.code;
        earned_at = u.occurred_at;
      }
          ∷ [])

-- The nested transaction; `none` is the IntegrityError, which rolls it back.
unfoldable pub insert_unlock : Bool → Store → AchievementUnlock → ScopeKey → Option Store
unfolding add_legacy
insert_unlock create_events s u key =
    if any (is_identity u.telegram_user_id key u.definition.code) s.unlocks
    then none
    else if not (s.has_user u.telegram_user_id && chat_exists s.has_chat u.telegram_chat_id)
    then none
    else some record s {
      unlocks = s.unlocks ++ (unlock_row s.next_unlock u key ∷ []);
      events =
          if create_events
          then s.events ++ (unlock_event s.next_event s.next_unlock u ∷ [])
          else s.events;
      legacy = add_legacy u.telegram_chat_id u s.legacy;
      next_unlock = s.next_unlock + 1;
      next_event = if create_events then s.next_event + 1 else s.next_event;
    }

abbrev pub earned_of : AchievementDefinition → AchievementEarned
earned_of d = record {
  code = d.code;
  title = d.title;
  description = d.description;
  important = d.important;
  reward_xp = d.reward_xp;
  scope = d.scope;
}

-- The local variables of the loop, with the tables.
pub record Recording : Type 0 where
  pub store : Store
  pub existing_codes : List String
  pub earned : List AchievementEarned

-- What the `except` and the lines after the `try` do.
abbrev pub after_insert : Recording → AchievementDefinition → Option Store → Recording
after_insert r d none = r
after_insert r d (some s) = record {
  store = s;
  existing_codes = r.existing_codes ++ (d.code ∷ []);
  earned = r.earned ++ (earned_of d ∷ []);
}

-- One round of the inner loop; `none` is an error that leaves `record_events`.
unfoldable pub record_unlock : Bool → Recording → AchievementUnlock → Option Recording
record_unlock create_events r u =
    elim (achievement_scope_key u.definition.scope u.telegram_chat_id) [
      | none ↦ none
      | some key ↦ some (after_insert r u.definition (insert_unlock create_events r.store u key))
    ]

-- The next round, unless an error left the loop.
abbrev pub and_then : Option Recording → (Recording → Option Recording) → Option Recording
and_then none k = none
and_then (some r) k = k r

unfoldable pub record_unlocks : Bool → Recording → List AchievementUnlock → Option Recording
unfolding record_unlock
record_unlocks create_events r [] = some r
record_unlocks create_events r (u ∷ l) =
    and_then (record_unlock create_events r u) (λ next. record_unlocks create_events next l)

unfoldable pub record_each :
    Bool → AchievementSnapshot → Recording → List AchievementEvent → Option Recording
unfolding record_unlocks
record_each create_events snapshot r [] = some r
record_each create_events snapshot r (e ∷ l) =
    and_then (record_unlocks create_events r (evaluate_event e snapshot r.existing_codes))
      (λ next. record_each create_events snapshot next l)

-- The codes of the unlocks of a user under the two scope keys.
abbrev pub in_scope : Option ℕ → ScopeKey → Bool
in_scope chat global_key = true
in_scope none (group_key c) = false
in_scope (some chat) (group_key c) = c == chat

abbrev pub unlock_codes : ℕ → Option ℕ → List AchievementUnlockRecord → List String
unlock_codes user chat [] = []
unlock_codes user chat (r ∷ l) =
    let rest = unlock_codes user chat l in
    if (r.telegram_user_id == user) && in_scope chat r.scope_key
    then r.achievement_code ∷ rest
    else rest

abbrev pub legacy_codes : ℕ → Option ℕ → List MemberAchievement → List String
legacy_codes user none rows = []
legacy_codes user (some chat) [] = []
legacy_codes user (some chat) (r ∷ l) =
    let rest = legacy_codes user (some chat) l in
    if (r.telegram_chat_id == chat) && (r.telegram_user_id == user)
    then r.achievement_code ∷ rest
    else rest

unfoldable pub existing_codes_of : Store → ℕ → Option ℕ → List String
existing_codes_of s user chat = unlock_codes user chat s.unlocks ++ legacy_codes user chat s.legacy

abbrev pub started : Store → ℕ → Option ℕ → Recording
started s user chat = record {
  store = s;
  existing_codes = existing_codes_of s user chat;
  earned = [];
}

abbrev pub finished : Option Recording → Option (Store × List AchievementEarned)
finished none = none
finished (some r) = some (r.store, r.earned)

-- `record_events`: the user and the chat are those of the first event.
unfoldable pub record_events :
    Bool
    → Store
    → AchievementSnapshot
    → List AchievementEvent
    → Option (Store × List AchievementEarned)
unfolding record_each
record_events create_events s snapshot [] = some (s, [])
record_events create_events s snapshot (e ∷ l) =
    finished
      (record_each create_events snapshot (started s e.telegram_user_id e.telegram_chat_id) (e ∷ l))
