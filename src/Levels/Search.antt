-- ===== src/Levels/Search.antt =====
-- `level_for_xp`: two correction loops after an estimate in floats.
use chat_pulse.Prelude.{ℕ, zero, suc, ◌+◌, ◌*◌, ◌≤◌, ◌<◌, max, ◌≡◌, arith}
use chat_pulse.Prelude.Int.{ℤ, pos, pos_part}
use chat_pulse.Levels.{xp_threshold_for_level, climb, descend, level_for_xp, level_progress}
use chat_pulse.Levels.Threshold.{threshold-suc, le-threshold, lt_of_threshold-lt, threshold_gap}

-- `level` is the level that an XP total belongs to.
pub record IsLevelOf (xp level : ℕ) : Type 0 where
  pub positive : 1 ≤ level
  pub reached : xp_threshold_for_level level ≤ xp
  pub next_open : xp < xp_threshold_for_level (level + 1)

-- The loop ends by its test: with that much fuel it never stops early.
climb-ends :
    (fuel xp level : ℕ)
    → xp < fuel + level
    → 1 ≤ level
    → (xp < xp_threshold_for_level (climb fuel xp level + 1)) × (1 ≤ climb fuel xp level)
unfolding climb
climb-ends zero xp level enough one = (omega (arith, le-threshold level), omega arith)
climb-ends (suc fuel) xp level enough one = ground (arith, climb-ends fuel xp (level + 1))

descend-ends :
    (xp level : ℕ)
    → 1 ≤ level
    → xp < xp_threshold_for_level (level + 1)
    → IsLevelOf xp (descend xp level)
unfolding descend
descend-ends xp zero one h = absurd (omega arith)
descend-ends xp (suc zero) one h = record {
  positive = omega arith;
  reached = omega (arith, threshold-suc 0);
  next_open = ground arith;
}
descend-ends xp (suc (suc n)) one h = ground (arith, descend-ends xp (suc n))

IsLevelOf-unique : (xp a b : ℕ) → IsLevelOf xp a → IsLevelOf xp b → a ≡ b
IsLevelOf-unique xp a b p q =
    omega (arith, lt_of_threshold-lt a (b + 1), lt_of_threshold-lt b (a + 1))

-- Whatever the float estimate is, the level found is the one whose threshold the XP total
-- (0 for a negative one) has reached and whose next threshold it has not.
pub level_for_xp-IsLevelOf :
    (estimate : ℕ → ℕ) (xp : ℤ) → IsLevelOf (pos_part xp) (level_for_xp estimate xp)
unfolding level_for_xp
level_for_xp-IsLevelOf estimate xp =
    let safe : ℕ = pos_part xp in
    let start : ℕ = max 1 (estimate safe) in
    let (ended, one) = climb-ends (safe + 1) safe start (omega arith) (omega arith) in
    descend-ends safe (climb (safe + 1) safe start) one ended

-- Any level with those two bounds is the one found: two estimates cannot disagree.
pub level_for_xp-eq :
    (estimate : ℕ → ℕ) (xp level : ℕ) → IsLevelOf xp level → level_for_xp estimate (pos xp) ≡ level
level_for_xp-eq estimate xp level h =
    IsLevelOf-unique xp _ level (level_for_xp-IsLevelOf estimate (pos xp)) h

-- More XP never gives a lower level, whichever estimates the two calls start from.
pub level_for_xp_mono :
    (estimate estimate' : ℕ → ℕ) (a b : ℕ)
    → a ≤ b
    → level_for_xp estimate (pos a) ≤ level_for_xp estimate' (pos b)
level_for_xp_mono estimate estimate' a b h =
    let la : ℕ = level_for_xp estimate (pos a) in
    let lb : ℕ = level_for_xp estimate' (pos b) in
    omega (
      arith,
      (level_for_xp-IsLevelOf estimate (pos a)).reached,
      (level_for_xp-IsLevelOf estimate' (pos b)).next_open,
      lt_of_threshold-lt la (lb + 1),
    )

-- The progress shown: the XP earned in a level is less than the XP that the level takes, and the
-- level's floor plus it is the total.
pub level_progress_bounds :
    (estimate : ℕ → ℕ) (xp : ℕ)
    → let (level, earned, needed) = level_progress estimate xp in
      (earned < needed) × (xp_threshold_for_level level + earned ≡ xp) × (needed ≡ 100 * level)
unfolding level_progress
level_progress_bounds estimate xp =
    let level : ℕ = level_for_xp estimate (pos xp) in
    let found : IsLevelOf xp level = level_for_xp-IsLevelOf estimate (pos xp) in
    let gap = threshold_gap level found.positive in (omega arith, omega arith, omega arith)
