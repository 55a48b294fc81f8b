-- ===== src/Streak/Protection.antt =====
-- How protection days are taken.
use chat_pulse.Prelude.{
  ℕ, ◌+◌, ◌≤◌, ◌≡◌, refl, true, false, ◌&&◌, List, [], ◌∷◌, ◌==◌, if◌then◌else◌, get_or, put3, inl,
  inr, Bool-cases, ==_iff, arith, ◌⊎◌,
}
use chat_pulse.Streak.{Usage, count_day, count_months, check_months, use_months, consume_up_to}

-- How many of the dates fall in a month.
abbrev pub days_in : (ℕ → ℕ) → ℕ → List ℕ → ℕ
days_in month_start month [] = 0
days_in month_start month (d ∷ dates) =
    (if month_start d == month then 1 else 0) + days_in month_start month dates

-- What a counter holds for a month.
abbrev counted_for : ℕ → List (ℕ × ℕ) → ℕ
counted_for month [] = 0
counted_for month ((m, n) ∷ rest) = (if m == month then n else 0) + counted_for month rest

-- The days used in a month: 0 where there is no row.
abbrev pub used : Usage → ℕ → ℕ → ℕ → ℕ
used usage chat_id user_id month = get_or (usage chat_id user_id month) 0

counted-count_day :
    (month m : ℕ) (l : List (ℕ × ℕ))
    → counted_for m (count_day month l) ≡ (if month == m then 1 else 0) + counted_for m l
unfolding count_day
counted-count_day month m [] = ground arith
counted-count_day month m ((k, n) ∷ l) = ground (arith, counted-count_day month m l)

counted-count_months :
    (month_start : ℕ → ℕ) (m : ℕ) (dates : List ℕ) (l : List (ℕ × ℕ))
    → counted_for m (count_months month_start dates l)
      ≡ days_in month_start m dates + counted_for m l
unfolding count_months
counted-count_months month_start m [] l = omega arith
counted-count_months month_start m (d ∷ dates) l = omega (
  arith,
  counted-count_months month_start m dates (count_day (month_start d) l),
  counted-count_day (month_start d) m l,
)

-- No month is listed twice.
abbrev Fresh : ℕ → List (ℕ × ℕ) → Type 0
Fresh m [] = Unit
Fresh m ((k, n) ∷ l) = ((k == m) ≡ false) × Fresh m l

abbrev Distinct : List (ℕ × ℕ) → Type 0
Distinct [] = Unit
Distinct ((k, n) ∷ l) = Fresh k l × Distinct l

Fresh-count_day :
    (month m : ℕ) (l : List (ℕ × ℕ))
    → (month == m) ≡ false
    → Fresh m l
    → Fresh m (count_day month l)
unfolding count_day
Fresh-count_day month m [] ne h = (ne, tt)
Fresh-count_day month m ((k, n) ∷ l) ne h = elim (Bool-cases (k == month)) [
  | inl same ↦ rw same h
  | inr other ↦ rw other (h.0, Fresh-count_day month m l ne h.1)
]

Distinct-count_day : (month : ℕ) (l : List (ℕ × ℕ)) → Distinct l → Distinct (count_day month l)
unfolding count_day
Distinct-count_day month [] h = (tt, tt)
Distinct-count_day month ((k, n) ∷ l) h = elim (Bool-cases (k == month)) [
  | inl same ↦ rw same h
  | inr other ↦
      rw other (Fresh-count_day month k l (ground arith) h.0, Distinct-count_day month l h.1)
]

Distinct-count_months :
    (month_start : ℕ → ℕ) (dates : List ℕ) (l : List (ℕ × ℕ))
    → Distinct l
    → Distinct (count_months month_start dates l)
unfolding count_months
Distinct-count_months month_start [] l h = h
Distinct-count_months month_start (d ∷ dates) l h =
    Distinct-count_months month_start dates (count_day (month_start d) l)
      (Distinct-count_day (month_start d) l h)

counted-Fresh : (m : ℕ) (l : List (ℕ × ℕ)) → Fresh m l → counted_for m l ≡ 0
counted-Fresh m [] h = refl
counted-Fresh m ((k, n) ∷ l) h = ground (arith, counted-Fresh m l h.1)

module _ (limit chat_id user_id : ℕ) where
  -- The rows that the first loop makes hold what was used before.
  used-check_months :
      (required : List (ℕ × ℕ)) (usage : Usage) (c u m : ℕ)
      → used (check_months limit chat_id user_id required usage).1 c u m ≡ used usage c u m
  unfolding check_months
  used-check_months [] usage c u m = refl
  used-check_months ((k, n) ∷ l) usage c u m = ground (
    arith,
    used-check_months l (put3 usage chat_id user_id k (get_or (usage chat_id user_id k) 0)) c u m,
  )

  -- Where it finds room, every month has room.
  check_months-room :
      (required : List (ℕ × ℕ)) (usage : Usage) (m : ℕ)
      → Distinct required
      → (check_months limit chat_id user_id required usage).0 ≡ true
      → (counted_for m required ≡ 0)
        ⊎ (used usage chat_id user_id m + counted_for m required ≤ limit)
  unfolding check_months
  check_months-room [] usage m d h = inl refl
  check_months-room ((k, n) ∷ l) usage m d h =
      let made : Usage = put3 usage chat_id user_id k (get_or (usage chat_id user_id k) 0) in
      elim (Bool-cases (k == m)) [
        | inl same ↦ ground (arith, counted-Fresh k l d.0, ==_iff k m)
        | inr other ↦ ground (arith, check_months-room l made m d.1)
      ]

used-use_months :
    (chat_id user_id : ℕ) (required : List (ℕ × ℕ)) (usage : Usage) (c u m : ℕ)
    → used (use_months chat_id user_id required usage) c u m
      ≡ used usage c u m + (if (chat_id == c) && (user_id == u) then counted_for m required else 0)
unfolding use_months
used-use_months chat_id user_id [] usage c u m = ground arith
used-use_months chat_id user_id ((k, n) ∷ l) usage c u m = ground (
  arith,
  used-use_months chat_id user_id l
      (put3 usage chat_id user_id k (get_or (usage chat_id user_id k) 0 + n)) c u m,
)

-- Whichever limit applies, protection is all or nothing. If it is granted, each month's use grows
-- by the number of missing days in that month, and no month with a missing day passes the limit;
-- if it is refused, no use changes. Other members' days never change.
pub consume_up_to_all_or_nothing :
    (month_start : ℕ → ℕ) (limit chat_id user_id : ℕ) (dates : List ℕ) (usage : Usage) (c u m : ℕ)
    → let (covered, after) = consume_up_to month_start limit chat_id user_id dates usage in
      (used after c u m
        ≡ used usage c u m
          + (if covered && ((chat_id == c) && (user_id == u))
              then days_in month_start m dates
              else 0))
      × ((covered ≡ false)
          ⊎ (days_in month_start m dates ≡ 0)
          ⊎ (used after chat_id user_id m ≤ limit))
unfolding consume_up_to
consume_up_to_all_or_nothing month_start limit chat_id user_id [] usage c u m = ground arith
consume_up_to_all_or_nothing month_start limit chat_id user_id (d ∷ dates) usage c u m =
    let required = count_months month_start (d ∷ dates) [] in
    let made = (check_months limit chat_id user_id required usage).1 in
    ground (
      arith,
      counted-count_months month_start m (d ∷ dates) [],
      used-check_months limit chat_id user_id required usage c u m,
      used-check_months limit chat_id user_id required usage chat_id user_id m,
      check_months-room limit chat_id user_id required usage m
          (Distinct-count_months month_start (d ∷ dates) [] tt),
      used-use_months chat_id user_id required made c u m,
      used-use_months chat_id user_id required made chat_id user_id m,
    )
