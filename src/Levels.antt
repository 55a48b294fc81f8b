-- ===== src/Levels.antt =====
-- Levels, from app/services/gamification.py and app/services/levels.py.
pub mod Threshold
pub mod Search
pub mod Catalog
mod Tests
use chat_pulse.Prelude.{
  ℕ, zero, suc, ◌+◌, ◌-◌, ◌*◌, min, max, String, Bool, true, false, Option, none, some, List, [],
  ◌∷◌, ltb, leb, ◌==◌, not, if◌then◌else◌,
}
use chat_pulse.Prelude.Int.{ℤ, pos, pos_part}

unfoldable pub xp_threshold_for_level : ℕ → ℕ
xp_threshold_for_level level = let normalized = max 1 level in 50 * (normalized - 1) * normalized

-- `while xp_threshold_for_level(level + 1) <= safe_xp: level += 1`, on fuel
unfoldable pub climb : ℕ → ℕ → ℕ → ℕ
climb zero safe_xp level = level
climb (suc fuel) safe_xp level =
    let next = climb fuel safe_xp (level + 1) in
    if leb (xp_threshold_for_level (level + 1)) safe_xp then next else level

-- `while level > 1 and xp_threshold_for_level(level) > safe_xp: level -= 1`
unfoldable pub descend : ℕ → ℕ → ℕ
descend safe_xp zero = zero
descend safe_xp (suc zero) = suc zero
descend safe_xp (suc (suc n)) =
    let next = descend safe_xp (suc n) in
    if ltb safe_xp (xp_threshold_for_level (suc (suc n))) then next else suc (suc n)

-- `estimate` is `int((1 + math.sqrt(1 + 0.08 * safe_xp)) / 2)`, in floats.
unfoldable pub level_for_xp : (ℕ → ℕ) → ℤ → ℕ
level_for_xp estimate xp =
    let safe_xp = pos_part xp in
    descend safe_xp (climb (safe_xp + 1) safe_xp (max 1 (estimate safe_xp)))

pub data Tier : Type 0 where
  novice bronze silver gold diamond : Tier

pub level_tier : ℕ → Tier
level_tier level =
    if leb 35 level
    then diamond
    else if leb 20 level
    then gold
    else if leb 10 level
    then silver
    else if leb 5 level
    then bronze
    else novice

-- The level, the XP earned in it, and the XP that it takes: `level_progress` of an XP total.
pub level_progress : (ℕ → ℕ) → ℕ → ℕ × ℕ × ℕ
level_progress estimate xp =
    let level = level_for_xp estimate (pos xp) in
    let current_floor = xp_threshold_for_level level in
    let next_floor = xp_threshold_for_level (level + 1) in
    (level, xp - current_floor, next_floor - current_floor)

abbrev pub max_level : ℕ
max_level = 50

abbrev pub tier_rewards : Tier → List String
tier_rewards novice = "Базова аналітика" ∷ "Профіль ChatPulse" ∷ []
tier_rewards bronze = "Бронзовий бейдж" ∷ "Розширений прогрес" ∷ []
tier_rewards silver = "Срібний бейдж" ∷ "Преміальна рамка картки" ∷ []
tier_rewards gold = "Золотий бейдж" ∷ "Покращена картка для поширення" ∷ []
tier_rewards diamond = "Діамантовий статус" ∷ "Максимальний престиж профілю" ∷ []

abbrev pub same_tier : Tier → Tier → Bool
same_tier novice novice = true
same_tier bronze bronze = true
same_tier silver silver = true
same_tier gold gold = true
same_tier diamond diamond = true
same_tier _ _ = false

-- One entry of `levels`.
pub record LevelRow : Type 0 where
  pub level : ℕ
  pub tier : Tier
  pub xp_required : ℕ
  pub xp_to_next : Option ℕ
  pub is_unlocked : Bool
  pub is_current : Bool
  pub rewards : List String

-- `tier != previous_tier`; the empty text before the first level is `none`.
abbrev pub tier_changed : Tier → Option Tier → Bool
tier_changed tier none = true
tier_changed tier (some previous_tier) = not (same_tier tier previous_tier)

pub level_row : ℕ → ℕ → Option Tier → LevelRow
level_row safe_level level previous_tier =
    let tier = level_tier level in
    let threshold = xp_threshold_for_level level in
    record {
      level = level;
      tier = tier;
      xp_required = threshold;
      xp_to_next =
          if ltb level max_level
          then some (xp_threshold_for_level (level + 1) - threshold)
          else none;
      is_unlocked = leb level safe_level;
      is_current = level == safe_level;
      rewards = if tier_changed tier previous_tier then tier_rewards tier else [];
    }

-- The loop over `range(level, level + rounds)`.
pub level_rows : ℕ → ℕ → ℕ → Option Tier → List LevelRow
level_rows zero safe_level level previous_tier = []
level_rows (suc rounds) safe_level level previous_tier =
    level_row safe_level level previous_tier
    ∷ level_rows rounds safe_level (level + 1) (some (level_tier level))

pub record LevelCatalog : Type 0 where
  pub current_level : ℕ
  pub xp_total : ℕ
  pub levels : List LevelRow

-- `max_level` is in the reply too, and is the constant.
pub build_level_catalog : ℕ → ℤ → LevelCatalog
unfolding level_rows
build_level_catalog current_level xp_total =
    let safe_level = max 1 (min max_level current_level) in
    record {
      current_level = safe_level;
      xp_total = pos_part xp_total;
      levels = level_rows max_level safe_level 1 none;
    }
