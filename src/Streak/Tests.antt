-- ===== src/Streak/Tests.antt =====
-- Runs and witnesses for the streaks.
use chat_pulse.Prelude.{
  ℕ, ◌+◌, ◌-◌, ◌%◌, ◌≤◌, ◌≡◌, refl, true, false, ◌&&◌, ◌||◌, ◌⊎◌, Option, none, some, [], ◌∷◌, leb,
  if◌then◌else◌,
}
use chat_pulse.Streak.{
  Usage, count_day, count_months, check_months, use_months, consume_up_to, consume_protections,
  GrantView, grant_in_force, consume_protections_premium, is_bot_owner, StreakState, days_after,
  missing_dates, close_streak, bridge_gap, advance_streak_from, advance_streak,
}
use chat_pulse.Streak.Protection.{days_in, used, consume_up_to_all_or_nothing}
use chat_pulse.Streak.Advance.{gap_is_covered}

-- A calendar with months of thirty days.
abbrev thirty : ℕ → ℕ
thirty d = d - d % 30

abbrev no_usage : Usage
no_usage c u m = none

abbrev running : StreakState
running = record { current_streak = 6; longest_streak = 9; last_streak_date = some 58 }

-- Two missing days, one at the end of a month and one at the start of the next.
advance_streak_run :
    (advance_streak (consume_protections thirty 1 2) running 61 no_usage).0
    ≡ record { current_streak = 7; longest_streak = 9; last_streak_date = some 61 }
unfolding advance_streak consume_protections consume_up_to check_months use_months count_months
    count_day missing_dates days_after bridge_gap close_streak advance_streak_from
advance_streak_run = refl

-- Five missing days in one month are too many.
advance_streak_reset :
    (advance_streak (consume_protections thirty 1 2) running 66 no_usage).0
    ≡ record { current_streak = 1; longest_streak = 9; last_streak_date = some 66 }
unfolding advance_streak consume_protections consume_up_to check_months use_months count_months
    count_day missing_dates days_after bridge_gap close_streak advance_streak_from
advance_streak_reset = refl

consume_up_to_all_or_nothing_example :
    let (covered, after) = consume_up_to thirty 3 1 2 (59 ∷ 60 ∷ []) no_usage in
    (used after 1 2 60 ≡ 0 + (if covered && true then days_in thirty 60 (59 ∷ 60 ∷ []) else 0))
    × ((covered ≡ false) ⊎ (days_in thirty 60 (59 ∷ 60 ∷ []) ≡ 0) ⊎ (used after 1 2 60 ≤ 3))
consume_up_to_all_or_nothing_example =
    consume_up_to_all_or_nothing thirty 3 1 2 (59 ∷ 60 ∷ []) no_usage 1 2 60

free_day : consume_protections thirty 1 2 [] no_usage ≡ (true, no_usage)
unfolding consume_protections consume_up_to
free_day = refl

-- Four missing days of one month, for a member whose grant runs until 2000.
abbrev vip : Option GrantView
vip = some (record { is_active = true; expires_at = some 2000 })

gap_is_covered_example :
    ((consume_protections thirty 1 2 (61 ∷ 62 ∷ 63 ∷ 64 ∷ []) no_usage).0 ≡ leb 4 3)
    × ((consume_protections_premium thirty
          (some 1)
          vip
          1000
          1
          2
          (61 ∷ 62 ∷ 63 ∷ 64 ∷ [])
          no_usage).0
        ≡ leb 4 (if is_bot_owner (some 1) 2 || grant_in_force vip 1000 then 5 else 3))
gap_is_covered_example =
    gap_is_covered thirty (some 1) vip 1000 1 2 60 61 (62 ∷ 63 ∷ 64 ∷ []) no_usage
      (refl, (refl, (refl, (refl, tt))))
