-- ===== src/Streak.antt =====
-- Daily streaks and the monthly protection days: `_advance_streak` and `_consume_protections` of
-- app/repositories/gamification.py and app/repositories/gamification_v2.py.
-- A date is its day number; the first day of its month is the calendar's, an argument.
pub mod Protection
pub mod Advance
mod Tests
use chat_pulse.Prelude.{
  ℕ, zero, suc, ◌+◌, ◌-◌, max, Bool, true, false, ◌&&◌, ◌||◌, Option, none, some, List, [], ◌∷◌,
  Table3, put3, get_or, ltb, leb, ◌==◌, if◌then◌else◌,
}

abbrev pub monthly_protection_days : ℕ
monthly_protection_days = 3

abbrev pub vip_monthly_protection_days : ℕ
vip_monthly_protection_days = 5

-- `used_days` by chat, user and month.
abbrev pub Usage : Type 0
Usage = Table3 ℕ

-- One more day of `month`, as `Counter` counts it: months stay in the order of their first day.
pub count_day : ℕ → List (ℕ × ℕ) → List (ℕ × ℕ)
count_day month [] = (month, 1) ∷ []
count_day month ((m, n) ∷ rest) =
    if m == month then (m, n + 1) ∷ rest else (m, n) ∷ count_day month rest

-- `Counter(item.replace(day=1) for item in missing_dates)`, over what is counted so far.
pub count_months : (ℕ → ℕ) → List ℕ → List (ℕ × ℕ) → List (ℕ × ℕ)
count_months month_start [] counted = counted
count_months month_start (d ∷ dates) counted =
    count_months month_start dates (count_day (month_start d) counted)

-- The first loop: whether every month has room, and the usage with a row made for each month that
-- it came to. It stops at the first month without room.
pub check_months : ℕ → ℕ → ℕ → List (ℕ × ℕ) → Usage → Bool × Usage
check_months limit chat_id user_id [] usage = (true, usage)
check_months limit chat_id user_id ((month, needed) ∷ required) usage =
    let used = get_or (usage chat_id user_id month) 0 in
    let made = put3 usage chat_id user_id month used in
    let rest = check_months limit chat_id user_id required made in
    if ltb limit (used + needed) then (false, made) else rest

-- The second loop: `usages[month_start].used_days += needed`.
pub use_months : ℕ → ℕ → List (ℕ × ℕ) → Usage → Usage
use_months chat_id user_id [] usage = usage
use_months chat_id user_id ((month, needed) ∷ required) usage =
    use_months chat_id user_id required
      (put3 usage chat_id user_id month (get_or (usage chat_id user_id month) 0 + needed))

-- The body of both versions of `_consume_protections`, which differ in the limit.
pub consume_up_to : (ℕ → ℕ) → ℕ → ℕ → ℕ → List ℕ → Usage → Bool × Usage
unfolding check_months use_months count_months count_day
consume_up_to month_start limit chat_id user_id [] usage = (true, usage)
consume_up_to month_start limit chat_id user_id (d ∷ dates) usage =
    let required = count_months month_start (d ∷ dates) [] in
    let (room, made) = check_months limit chat_id user_id required usage in
    if room then (true, use_months chat_id user_id required made) else (false, made)

pub consume_protections : (ℕ → ℕ) → ℕ → ℕ → List ℕ → Usage → Bool × Usage
unfolding consume_up_to
consume_protections month_start = consume_up_to month_start monthly_protection_days

-- The part of a `VipGrant` row that decides whether it is in force.
pub record GrantView : Type 0 where
  pub is_active : Bool
  pub expires_at : Option ℕ

pub grant_in_force : Option GrantView → ℕ → Bool
grant_in_force none now = false
grant_in_force (some grant) now =
    grant.is_active && elim grant.expires_at [ none ↦ true | some t ↦ ltb now t ]

-- Whether the primary row of `BotOwner`, by its user, is there and is this user's.
abbrev pub is_bot_owner : Option ℕ → ℕ → Bool
is_bot_owner none user_id = false
is_bot_owner (some owner) user_id = owner == user_id

-- The override of gamification_v2.py: five days for the owner and for a VIP.
pub consume_protections_premium :
    (ℕ → ℕ) → Option ℕ → Option GrantView → ℕ → ℕ → ℕ → List ℕ → Usage → Bool × Usage
unfolding consume_up_to grant_in_force
consume_protections_premium month_start owner grant now chat_id user_id =
    consume_up_to month_start
      (if is_bot_owner owner user_id || grant_in_force grant now
        then vip_monthly_protection_days
        else monthly_protection_days)
      chat_id user_id

-- The streak fields of a `GroupMember` row.
pub record StreakState : Type 0 where
  pub current_streak : ℕ
  pub longest_streak : ℕ
  pub last_streak_date : Option ℕ

-- The days strictly between: `previous + offset` for `offset` in `range(1, gap)`.
pub days_after : ℕ → ℕ → List ℕ
days_after previous zero = []
days_after previous (suc n) = (previous + 1) ∷ days_after (previous + 1) n

pub missing_dates : ℕ → ℕ → List ℕ
unfolding days_after
missing_dates previous active_date = days_after previous (active_date - previous - 1)

-- The three assignments at the end of `_advance_streak`.
pub close_streak : StreakState → ℕ → ℕ → StreakState
close_streak s current active_date = record {
  current_streak = current;
  longest_streak = max s.longest_streak current;
  last_streak_date = some active_date;
}

pub bridge_gap : StreakState → ℕ → Bool × Usage → StreakState × Usage
unfolding close_streak
bridge_gap s active_date (covered, usage) =
    (close_streak s (if covered then s.current_streak + 1 else 1) active_date, usage)

-- `_advance_streak`, over the `_consume_protections` of its class for one member.
pub advance_streak_from :
    (List ℕ → Usage → Bool × Usage) → Option ℕ → StreakState → ℕ → Usage → StreakState × Usage
unfolding close_streak bridge_gap missing_dates
advance_streak_from consume none s active_date usage = (close_streak s 1 active_date, usage)
advance_streak_from consume (some previous) s active_date usage =
    if leb active_date previous
    then (s, usage)
    else bridge_gap s active_date (consume (missing_dates previous active_date) usage)

pub advance_streak : (List ℕ → Usage → Bool × Usage) → StreakState → ℕ → Usage → StreakState × Usage
unfolding advance_streak_from
advance_streak consume s active_date usage =
    advance_streak_from consume s.last_streak_date s active_date usage
