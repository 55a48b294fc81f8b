-- ===== src/Levels/Catalog.antt =====
-- `build_level_catalog`: the rows that the loop makes, by position.
use native.Mathlib.Nat.{add-zero}
use chat_pulse.Prelude.{
  ℕ, zero, suc, ◌+◌, ◌*◌, ◌≤◌, ◌<◌, min, max, ◌≡◌, refl, Bool, ◌||◌, Option, none, some, [], ap,
  length, get_elem?, ◌==◌, ltb, leb, if◌then◌else◌, arith,
}
use chat_pulse.Prelude.Int.{ℤ}
use chat_pulse.Levels.{
  Tier, level_tier, tier_rewards, LevelRow, level_row, level_rows, build_level_catalog,
}
use chat_pulse.Levels.Threshold.{threshold_gap}

-- The tier before the row at `i` of a loop that begins at `level` after the tier `t`.
abbrev tier_before : ℕ → Option Tier → ℕ → Option Tier
tier_before level t zero = t
tier_before level t (suc j) = some (level_tier (level + j))

tier_before_step :
    (level j : ℕ) (t : Option Tier)
    → tier_before (level + 1) (some (level_tier level)) j ≡ tier_before level t (suc j)
tier_before_step level zero t = rw add-zero
tier_before_step level (suc j) t = let e : level + 1 + j ≡ level + suc j = omega arith in rw e

get-level_rows :
    (rounds safe level i : ℕ) (t : Option Tier)
    → i < rounds
    → get_elem? (level_rows rounds safe level t) i
      ≡ some (level_row safe (level + i) (tier_before level t i))
unfolding level_rows
get-level_rows zero safe level i t h = absurd (omega arith)
get-level_rows (suc rounds) safe level zero t h = rw add-zero
get-level_rows (suc rounds) safe level (suc j) t h =
    let e : level + 1 + j ≡ level + suc j = omega arith in
    rw (
      get-level_rows rounds safe (level + 1) j (some (level_tier level)) (omega arith),
      tier_before_step level j t,
      e,
    )

-- The levels that open a tier.
abbrev pub opens_tier : ℕ → Bool
opens_tier l = l == 1 || (l == 5 || (l == 10 || (l == 20 || l == 35)))

-- What the row of level `l` shows, with the level of the viewer.
pub record ShowsLevel (safe l : ℕ) (row : LevelRow) : Type 0 where
  pub level : row.level ≡ l
  pub needed : row.xp_to_next ≡ (if ltb l 50 then some (100 * l) else none)
  pub unlocked : row.is_unlocked ≡ leb l safe
  pub current : row.is_current ≡ (l == safe)
  pub rewards : row.rewards ≡ (if opens_tier l then tier_rewards (level_tier l) else [])

rewards-row :
    (safe i : ℕ)
    → (level_row safe (1 + i) (tier_before 1 none i)).rewards
      ≡ (if opens_tier (1 + i) then tier_rewards (level_tier (1 + i)) else [])
unfolding level_row level_tier
rewards-row safe zero = refl
rewards-row safe (suc j) = ground arith

needed-row :
    (safe l : ℕ) (t : Option Tier)
    → 1 ≤ l
    → (level_row safe l t).xp_to_next ≡ (if ltb l 50 then some (100 * l) else none)
unfolding level_row
needed-row safe l t h = ground (arith, threshold_gap l h)

row-ShowsLevel :
    (safe i : ℕ) → ShowsLevel safe (1 + i) (level_row safe (1 + i) (tier_before 1 none i))
unfolding level_row
row-ShowsLevel safe i = record {
  level = refl;
  needed = needed-row safe (1 + i) (tier_before 1 none i) (omega arith);
  unlocked = refl;
  current = refl;
  rewards = rewards-row safe i;
}

length-level_rows :
    (rounds safe level : ℕ) (t : Option Tier) → length (level_rows rounds safe level t) ≡ rounds
unfolding level_rows
length-level_rows zero safe level t = refl
length-level_rows (suc rounds) safe level t =
    ap suc (length-level_rows rounds safe (level + 1) (some (level_tier level)))

-- The catalog has fifty rows, and the row at position `i` shows level `i + 1`: the XP to the next
-- level (none at level 50), whether the viewer's level, held between 1 and 50, has reached it or
-- is it, and rewards exactly where a tier begins.
pub build_level_catalog-rows :
    (current_level : ℕ) (xp_total : ℤ) (i : ℕ)
    → i < 50
    → let catalog = build_level_catalog current_level xp_total in
      (row : LevelRow) × (get_elem? catalog.levels i ≡ some row)
      × ShowsLevel (max 1 (min 50 current_level)) (1 + i) row
      × (length catalog.levels ≡ 50)
unfolding build_level_catalog
build_level_catalog-rows current_level xp_total i h =
    let safe : ℕ = max 1 (min 50 current_level) in
    (
      level_row safe (1 + i) (tier_before 1 none i),
      get-level_rows 50 safe 1 i none h,
      row-ShowsLevel safe i,
      length-level_rows 50 safe 1 none,
    )
