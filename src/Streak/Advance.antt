-- ===== src/Streak/Advance.antt =====
-- What an active day does to a streak.
use native.Mathlib.Nat.{add-zero}
use chat_pulse.Prelude.{
  sym, ℕ, zero, suc, ◌+◌, ◌-◌, ◌≤◌, ◌≡◌, refl, Bool, true, ◌||◌, Option, none, some, List, [], ◌∷◌,
  ◌==◌, ==_iff, if◌then◌else◌, length, All, leb, arith, Option-cases, inl, inr,
}
use chat_pulse.Streak.{
  Usage, count_day, count_months, check_months, consume_up_to, consume_protections, GrantView,
  grant_in_force, consume_protections_premium, is_bot_owner, StreakState, close_streak,
  advance_streak,
}
use chat_pulse.Streak.Protection.{used}

-- The record is never below the streak that runs.
pub record IsValid (s : StreakState) : Type 0 where
  pub record_holds : s.current_streak ≤ s.longest_streak

-- The last active date of a member with a streak, 0 for one without.
abbrev pub last_date : Option ℕ → ℕ
last_date none = 0
last_date (some d) = d

module _ (consume : List ℕ → Usage → Bool × Usage) where
  -- However the missing days are covered, an active day keeps the longest streak at least as long
  -- as the running one, never shortens the longest, and never moves the last active date back.
  pub advance_streak-IsValid :
      (s : StreakState) (active_date : ℕ) (usage : Usage)
      → IsValid s
      → let s' = (advance_streak consume s active_date usage).0 in
        IsValid s'
        × (s.longest_streak ≤ s'.longest_streak)
        × (last_date s.last_streak_date ≤ last_date s'.last_streak_date)
  unfolding advance_streak
  advance_streak-IsValid s active_date usage v = elim (Option-cases s.last_streak_date) [
    | inl fresh ↦ rw fresh (ground arith, ground arith, ground arith)
    | inr (d, e) ↦ rw e (ground arith, ground arith, ground arith)
  ]

  -- A run of active days, one after another.
  pub advance_days : ℕ → StreakState → ℕ → Usage → StreakState × Usage
  advance_days zero s first usage = (s, usage)
  advance_days (suc n) s first usage =
      let (s', usage') = advance_streak consume s first usage in
      advance_days n s' (first + 1) usage'

  next_day :
      (s : StreakState) (d : ℕ) (usage : Usage)
      → s.last_streak_date ≡ some d
      → consume [] usage ≡ (true, usage)
      → advance_streak consume s (d + 1) usage
        ≡ (close_streak s (s.current_streak + 1) (d + 1), usage)
  unfolding advance_streak
  next_day s d usage e free =
      let gap : d + 1 - d - 1 ≡ 0 = omega arith in rw (e, gap, free) (ground arith)

  -- Without a missing day no protection is asked for: each day in a row adds one to the streak,
  -- and the usage of protection days stays as it is.
  pub advance_days-consecutive :
      (n : ℕ) (s : StreakState) (d : ℕ) (usage : Usage)
      → s.last_streak_date ≡ some d
      → consume [] usage ≡ (true, usage)
      → let (s', usage') = advance_days n s (d + 1) usage in
        (s'.current_streak ≡ s.current_streak + n) × (usage' ≡ usage)
  unfolding advance_days close_streak
  advance_days-consecutive zero s d usage e free = (omega arith, refl)
  advance_days-consecutive (suc n) s d usage e free =
      let s' : StreakState = close_streak s (s.current_streak + 1) (d + 1) in
      let (grown, kept) = advance_days-consecutive n s' (d + 1) usage refl free in
      rw (next_day s d usage e free, advance_days) (omega (arith, grown), kept)

-- A gap within one month.
count_months-one :
    (month_start : ℕ → ℕ) (m n : ℕ) (dates : List ℕ)
    → All (λ d. month_start d ≡ m) dates
    → count_months month_start dates ((m, n) ∷ []) ≡ (m, n + length dates) ∷ []
unfolding count_months count_day
count_months-one month_start m n [] h = rw add-zero
count_months-one month_start m n (d ∷ dates) h =
    let same : (m == month_start d) ≡ true = (==_iff m _).1 (sym h.0) in
    let e : n + 1 + length dates ≡ n + suc (length dates) = omega arith in
    rw (same, count_months-one month_start m (n + 1) dates h.1, e)

consume_up_to-one :
    (month_start : ℕ → ℕ) (limit chat_id user_id m d : ℕ) (dates : List ℕ) (usage : Usage)
    → All (λ d. month_start d ≡ m) (d ∷ dates)
    → (consume_up_to month_start limit chat_id user_id (d ∷ dates) usage).0
      ≡ leb (used usage chat_id user_id m + length (d ∷ dates)) limit
unfolding consume_up_to check_months count_day count_months
consume_up_to-one month_start limit chat_id user_id m d dates usage h =
    rw (h.0, count_months-one month_start m 1 dates h.1) (ground arith)

-- A gap that lies within one month is covered exactly when the days used in that month and the
-- missing days together stay within the limit: three days in the base repository, and in the
-- premium one five for the owner and for a VIP in force, three for anyone else.
pub gap_is_covered :
    (month_start : ℕ → ℕ) (owner : Option ℕ) (grant : Option GrantView)
    (now chat_id user_id m d : ℕ) (dates : List ℕ) (usage : Usage)
    → All (λ d. month_start d ≡ m) (d ∷ dates)
    → let days = used usage chat_id user_id m + length (d ∷ dates) in
      ((consume_protections month_start chat_id user_id (d ∷ dates) usage).0 ≡ leb days 3)
      × ((consume_protections_premium month_start owner grant now chat_id user_id
            (d ∷ dates)
            usage).0
          ≡ leb days (if is_bot_owner owner user_id || grant_in_force grant now then 5 else 3))
unfolding consume_protections consume_protections_premium
gap_is_covered month_start owner grant now chat_id user_id m d dates usage h = (
  consume_up_to-one month_start 3 chat_id user_id m d dates usage h,
  consume_up_to-one month_start
      (if is_bot_owner owner user_id || grant_in_force grant now then 5 else 3) chat_id user_id m d
      dates usage h,
)
