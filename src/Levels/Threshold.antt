-- ===== src/Levels/Threshold.antt =====
-- Laws of `xp_threshold_for_level`.
use chat_pulse.Prelude.{ℕ, zero, suc, ◌+◌, ◌*◌, ◌≤◌, ◌<◌, ◌≡◌, arith}
use native.Mathlib.Decide.{dec_lt}
use native.Mathlib.Numerals.{add-one}
use chat_pulse.Levels.{xp_threshold_for_level}

pub threshold-suc : (l : ℕ) → xp_threshold_for_level (suc l) ≡ 50 * l * suc l
unfolding xp_threshold_for_level
threshold-suc l = grind arith

pub le-threshold : (l : ℕ) → l ≤ xp_threshold_for_level (l + 1)
le-threshold l = grind (arith, threshold-suc l)

pub threshold_mono : (a b : ℕ) → a ≤ b → xp_threshold_for_level a ≤ xp_threshold_for_level b
unfolding xp_threshold_for_level
threshold_mono a b h = grind arith

pub lt_of_threshold-lt : (a b : ℕ) → xp_threshold_for_level a < xp_threshold_for_level b → a < b
lt_of_threshold-lt a b h = elim (dec_lt a b) [
  | yes p ↦ p
  | no p ↦ absurd (omega (arith, threshold_mono b a (omega arith)))
]

-- A level takes a hundred XP for each level that it is above zero.
pub threshold_gap :
    (l : ℕ) → 1 ≤ l → xp_threshold_for_level (l + 1) ≡ xp_threshold_for_level l + 100 * l
threshold_gap zero h = absurd (omega arith)
threshold_gap (suc l) h = rw add-one (omega (arith, threshold-suc l, threshold-suc (suc l)))
