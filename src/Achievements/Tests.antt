-- ===== src/Achievements/Tests.antt =====
-- Runs and witnesses for the achievements.
use chat_pulse.Prelude.{ℕ, String, ◌≡◌, refl, List, [], ◌∷◌}
use chat_pulse.Achievements.{Metric, contains, evaluate_from, evaluate_achievements}
use chat_pulse.Achievements.Award.{codes}

-- A member with 600 XP, level 4, 120 messages and a streak of 8 days.
abbrev stats : Metric → ℕ
stats Metric.xp_total = 600
stats Metric.level = 4
stats Metric.messages_count = 120
stats Metric.current_streak = 8
stats _ = 0

abbrev held : List String
held = "first_steps" ∷ []

evaluate_achievements_run :
    codes (evaluate_achievements stats held) ≡ ("messages_100" ∷ "streak_7" ∷ [])
unfolding evaluate_achievements evaluate_from contains
evaluate_achievements_run = refl
