-- ===== src/Catalog/Engine.antt =====
-- app/achievements/engine.py: which definitions an event unlocks.
use chat_pulse.Prelude.{
  ℕ, String, Bool, ◌&&◌, true, not, Option, none, is_some, List, [], ◌∷◌, leb, ltb, if◌then◌else◌,
}
use chat_pulse.Achievements.{contains, AchievementScope, group, global}
use chat_pulse.Catalog.{
  AchievementTrigger, AchievementComparator, gte, lte, AchievementDefinition, Metric,
  definitions_for_trigger,
}
use chat_pulse.Catalog.Singles.{catalog}

pub record AchievementEvent : Type 0 where
  pub trigger : AchievementTrigger
  pub telegram_user_id : ℕ
  pub telegram_chat_id : Option ℕ
  pub occurred_at : ℕ

-- A metric that is not among the values counts 0. The values are counts, totals and ranks.
pub record AchievementSnapshot : Type 0 where
  pub value : Metric → ℕ

pub record AchievementUnlock : Type 0 where
  pub definition : AchievementDefinition
  pub progress : ℕ
  pub telegram_user_id : ℕ
  pub telegram_chat_id : Option ℕ
  pub occurred_at : ℕ

-- `_matches`
abbrev pub compares : AchievementComparator → ℕ → ℕ → Bool
compares lte threshold value = ltb 0 value && leb value threshold
compares gte threshold value = leb threshold value

abbrev pub matches : AchievementDefinition → ℕ → Bool
matches d value = compares d.comparator d.threshold value

-- The chat of an unlock: `event.telegram_chat_id if definition.scope == "group" else None`.
abbrev pub chat_of : AchievementScope → Option ℕ → Option ℕ
chat_of group chat = chat
chat_of global chat = none

-- Whether the scope can be unlocked at an event of this chat.
abbrev pub has_scope : AchievementScope → Option ℕ → Bool
has_scope group chat = is_some chat
has_scope global chat = true

abbrev pub unlock_of :
    AchievementEvent → AchievementSnapshot → AchievementDefinition → AchievementUnlock
unlock_of event snapshot d = record {
  definition = d;
  progress = snapshot.value d.metric;
  telegram_user_id = event.telegram_user_id;
  telegram_chat_id = chat_of d.scope event.telegram_chat_id;
  occurred_at = event.occurred_at;
}

-- The loop of `evaluate_event` over a list of definitions.
unfoldable pub evaluate_from :
    AchievementEvent
    → AchievementSnapshot
    → List String
    → List AchievementDefinition
    → List AchievementUnlock
evaluate_from event snapshot existing_codes [] = []
evaluate_from event snapshot existing_codes (d ∷ l) =
    let rest = evaluate_from event snapshot existing_codes l in
    if contains d.code existing_codes
    then rest
    else if not (has_scope d.scope event.telegram_chat_id)
    then rest
    else if not (matches d (snapshot.value d.metric))
    then rest
    else unlock_of event snapshot d ∷ rest

unfoldable pub evaluate_event :
    AchievementEvent → AchievementSnapshot → List String → List AchievementUnlock
unfolding evaluate_from
evaluate_event event snapshot existing_codes =
    evaluate_from event snapshot existing_codes (definitions_for_trigger catalog event.trigger)
