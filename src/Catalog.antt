-- ===== src/Catalog.antt =====
-- The achievement catalog of app/achievements/catalog.py.
pub mod Chains
pub mod Singles
pub mod Public
pub mod Triggers
pub mod Engine
pub mod Record
pub mod Marks
pub mod Pending
pub mod Seen
pub mod EventWrites
pub mod Later
pub mod Met
pub mod Tracks
pub mod Again
pub mod Due
pub mod Earned
pub mod Rewards
mod Tests
use chat_pulse.Prelude.{
  ℕ, ◌+◌, ◌-◌, ◌*◌, max, String, Bool, true, false, Option, none, some, List, [], ◌∷◌, ◌++◌, str_eq,
  leb, ltb, length, if◌then◌else◌,
}
use chat_pulse.Achievements.{AchievementScope, group, global}

pub data AchievementTrigger : Type 0 where
  message_created reply_created media_created reaction_received : AchievementTrigger
  streak_updated level_changed ranking_calculated weekly_report_created : AchievementTrigger

pub data AchievementComparator : Type 0 where
  gte lte : AchievementComparator

pub data AchievementRarity : Type 0 where
  common uncommon rare epic legendary secret : AchievementRarity

-- The metrics that definitions name, the keys of a snapshot.
pub data Metric : Type 0 where
  messages_count media_count replies_count reactions_received photo_count voice_count : Metric
  night_messages_count morning_messages_count xp_total level current_streak : Metric
  global_xp_total global_level rank groups_count active_days_total xp_7d : Metric

-- `RARITY_THEME`
abbrev pub rarity_theme : AchievementRarity → String
rarity_theme common = "blue_pulse"
rarity_theme uncommon = "green_particles"
rarity_theme rare = "purple_wave"
rarity_theme epic = "epic_flare"
rarity_theme legendary = "golden_rays"
rarity_theme secret = "secret_glitch"

pub record AchievementDefinition : Type 0 where
  pub code : String
  pub title : String
  pub description : String
  pub category : String
  pub rarity : AchievementRarity
  pub scope : AchievementScope
  pub icon : String
  pub visual_theme : String
  pub hidden : Bool
  pub chain_key : Option String
  pub chain_stage : ℕ
  pub chain_total : ℕ
  pub trigger : AchievementTrigger
  pub metric : Metric
  pub threshold : ℕ
  pub comparator : AchievementComparator
  pub important : Bool
  pub reward_xp : ℕ
  pub version : ℕ
  pub season_key : Option String

-- `ratio` is `stage / total`. Its tests against 1, 0.8, 0.55 and 0.3 are tests of products; at
-- totals below a hundred the floats decide the same.
unfoldable pub rarity_for_stage : ℕ → ℕ → AchievementRarity
rarity_for_stage stage total =
    let over = max total 1 in
    if leb over stage
    then legendary
    else if leb (4 * over) (5 * stage)
    then epic
    else if leb (11 * over) (20 * stage)
    then rare
    else if leb (3 * over) (10 * stage)
    then uncommon
    else common

-- A stage is its code, title, description and threshold.
pub record Stage : Type 0 where
  pub code : String
  pub title : String
  pub description : String
  pub threshold : ℕ

abbrev pub stage : String → String → String → ℕ → Stage
stage code title description threshold = record {
  code = code;
  title = title;
  description = description;
  threshold = threshold;
}

-- What the stages of a chain share.
pub record Chain : Type 0 where
  pub key : String
  pub category : String
  pub trigger : AchievementTrigger
  pub metric : Metric
  pub scope : AchievementScope
  pub icon : String

-- The definition of the stage at `index`, counted from 1, of `total`.
unfoldable pub chain_stage : Chain → ℕ → ℕ → Stage → AchievementDefinition
unfolding rarity_for_stage
chain_stage c total index s = record {
  code = s.code;
  title = s.title;
  description = s.description;
  category = c.category;
  rarity = rarity_for_stage index total;
  scope = c.scope;
  icon = c.icon;
  visual_theme = rarity_theme (rarity_for_stage index total);
  hidden = false;
  chain_key = some c.key;
  chain_stage = index;
  chain_total = total;
  trigger = c.trigger;
  metric = c.metric;
  threshold = s.threshold;
  comparator = gte;
  important = leb (max 2 (total - 1)) index;
  reward_xp = index * 5;
  version = 2;
  season_key = none;
}

unfoldable pub chain_from : Chain → ℕ → ℕ → List Stage → List AchievementDefinition
chain_from c total index [] = []
chain_from c total index (s ∷ stages) =
    chain_stage c total index s ∷ chain_from c total (index + 1) stages

-- `_chain`
unfoldable pub chain : Chain → List Stage → List AchievementDefinition
unfolding chain_from
chain c stages = chain_from c (length stages) 1 stages

-- A trigger as its text, which the code compares.
abbrev pub trigger_text : AchievementTrigger → String
trigger_text message_created = "message_created"
trigger_text reply_created = "reply_created"
trigger_text media_created = "media_created"
trigger_text reaction_received = "reaction_received"
trigger_text streak_updated = "streak_updated"
trigger_text level_changed = "level_changed"
trigger_text ranking_calculated = "ranking_calculated"
trigger_text weekly_report_created = "weekly_report_created"

-- `_grouped[definition.trigger].append(definition)`
abbrev pub grouped_with :
    (AchievementTrigger → List AchievementDefinition)
    → AchievementDefinition
    → AchievementTrigger
    → List AchievementDefinition
grouped_with grouped d t =
    if str_eq (trigger_text d.trigger) (trigger_text t) then grouped t ++ (d ∷ []) else grouped t

-- The loop over the definitions, from what is grouped so far.
unfoldable pub group_from :
    (AchievementTrigger → List AchievementDefinition)
    → List AchievementDefinition
    → AchievementTrigger
    → List AchievementDefinition
group_from grouped [] = grouped
group_from grouped (d ∷ l) = group_from (grouped_with grouped d) l

-- `definitions_for_trigger`, over the definitions that are grouped.
unfoldable pub definitions_for_trigger :
    List AchievementDefinition → AchievementTrigger → List AchievementDefinition
unfolding group_from
definitions_for_trigger l = group_from (λ _. []) l

-- `ACHIEVEMENT_BY_CODE.get(code)`: of two definitions with one code the later stays.
unfoldable pub achievement_by_code :
    List AchievementDefinition → String → Option AchievementDefinition
achievement_by_code [] code = none
achievement_by_code (d ∷ l) code = elim (achievement_by_code l code) [
  | none ↦ if str_eq d.code code then some d else none
  | some e ↦ some e
]
