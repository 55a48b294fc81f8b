-- ===== src/Catalog/Public.antt =====
-- `to_public_dict` of app/achievements/catalog.py: what anybody may see of an achievement.
use chat_pulse.Prelude.{
  ℕ, ◌≤◌, min, String, Bool, true, false, not, ◌&&◌, ◌≡◌, Option, none, some, arith, leb,
  if◌then◌else◌,
}
use chat_pulse.Achievements.{AchievementScope}
use chat_pulse.Catalog.{AchievementRarity, AchievementDefinition}

-- The place of an achievement in its chain.
pub record ChainPlace : Type 0 where
  pub key : String
  pub stage : ℕ
  pub total : ℕ

pub record PublicAchievement : Type 0 where
  pub code : String
  pub title : String
  pub description : String
  pub category : String
  pub rarity : AchievementRarity
  pub scope : AchievementScope
  pub icon : String
  pub visual_theme : String
  pub hidden : Bool
  pub important : Bool
  pub earned : Bool
  pub earned_at : Option String
  pub group_title : Option String
  pub progress : ℕ
  pub threshold : ℕ
  pub chain : Option ChainPlace
  pub reward_xp : ℕ
  pub version : ℕ
  pub season_key : Option String

abbrev pub chain_place : Option String → ℕ → ℕ → Option ChainPlace
chain_place none stage total = none
chain_place (some k) stage total = some record { key = k; stage = stage; total = total }

-- `to_public_dict`
unfoldable pub to_public_dict :
    AchievementDefinition → Bool → ℕ → Option String → Option String → PublicAchievement
to_public_dict d earned progress earned_at group_title =
    let locked_secret = d.hidden && not earned in
    record {
      code = d.code;
      title = if locked_secret then "???" else d.title;
      description = if locked_secret then "Секретне досягнення" else d.description;
      category = d.category;
      rarity = d.rarity;
      scope = d.scope;
      icon = if locked_secret then "sparkles" else d.icon;
      visual_theme = if locked_secret then "secret_locked" else d.visual_theme;
      hidden = d.hidden;
      important = d.important;
      earned = earned;
      earned_at = earned_at;
      group_title = group_title;
      progress = if locked_secret then 0 else min progress d.threshold;
      threshold = if locked_secret then 0 else d.threshold;
      chain = chain_place d.chain_key d.chain_stage d.chain_total;
      reward_xp = d.reward_xp;
      version = d.version;
      season_key = d.season_key;
    }

-- The definition with other texts, another icon, theme and threshold.
abbrev pub disguised : AchievementDefinition → AchievementDefinition → AchievementDefinition
disguised d other = record d {
  title = other.title;
  description = other.description;
  icon = other.icon;
  visual_theme = other.visual_theme;
  threshold = other.threshold;
}

-- Until it is earned, a hidden achievement shows neither its texts, icon, theme and threshold nor
-- how far the user has come: with others in their place the view is the same.
pub to_public_dict-is_secret :
    (d other : AchievementDefinition) (progress progress' : ℕ) (at title : Option String)
    → d.hidden ≡ true
    → to_public_dict d false progress at title
      ≡ to_public_dict (disguised d other) false progress' at title
unfolding to_public_dict
to_public_dict-is_secret d other progress progress' at title h = ground (arith, h)

-- Whatever the count, the progress in a view never passes the threshold in it, and it is the
-- threshold exactly when the count has reached it, unless a secret is locked, which shows 0 of 0.
pub to_public_dict-progress :
    (d : AchievementDefinition) (earned : Bool) (progress : ℕ) (at title : Option String)
    → let view = to_public_dict d earned progress at title in
      (view.progress ≤ view.threshold)
      × (d.hidden && not earned ≡ false
          → leb view.threshold view.progress ≡ leb d.threshold progress)
unfolding to_public_dict
to_public_dict-progress d earned progress at title = ground arith
