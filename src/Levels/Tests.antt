-- ===== src/Levels/Tests.antt =====
-- Runs and witnesses for the levels.
use chat_pulse.Prelude.{ℕ, ◌≡◌, refl}
use chat_pulse.Prelude.Int.{pos}
use chat_pulse.Levels.{xp_threshold_for_level, climb, descend, level_for_xp}
use chat_pulse.Levels.Search.{IsLevelOf, level_for_xp-IsLevelOf}

-- An estimate that is too low, and one that is too high.
abbrev low : ℕ → ℕ
low x = 0

abbrev high : ℕ → ℕ
high x = 7

level_for_xp-low : level_for_xp low (pos 650) ≡ 4
unfolding level_for_xp climb descend xp_threshold_for_level
level_for_xp-low = refl

level_for_xp-high : level_for_xp high (pos 650) ≡ 4
unfolding level_for_xp climb descend xp_threshold_for_level
level_for_xp-high = refl

level_for_xp-IsLevelOf_example : IsLevelOf 650 (level_for_xp high (pos 650))
level_for_xp-IsLevelOf_example = level_for_xp-IsLevelOf high (pos 650)
