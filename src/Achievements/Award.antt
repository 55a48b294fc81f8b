-- ===== src/Achievements/Award.antt =====
-- What `evaluate_achievements` awards.
use chat_pulse.Prelude.{
  ℕ, String, ◌≡◌, refl, Bool, true, false, ◌||◌, ◌&&◌, not, List, [], ◌∷◌, ◌++◌, leb, str_eq,
  str_eq_iff, arith,
}
use chat_pulse.Achievements.{
  Metric, AchievementDefinition, achievements, contains, AchievementEarned, evaluate_from,
  evaluate_achievements,
}

-- The codes of what was earned.
abbrev pub codes : List AchievementEarned → List String
codes [] = []
codes (a ∷ l) = a.code ∷ codes l

-- Whether a list of definitions has one with the code whose threshold is reached.
abbrev pub is_reached : (Metric → ℕ) → String → List AchievementDefinition → Bool
is_reached stats code [] = false
is_reached stats code (d ∷ l) =
    (str_eq code d.code && leb d.threshold (stats d.field)) || is_reached stats code l

pub contains-append :
    (code : String) (xs ys : List String)
    → contains code (xs ++ ys) ≡ (contains code xs || contains code ys)
unfolding contains
contains-append code [] ys = refl
contains-append code (x ∷ xs) ys = ground (arith, contains-append code xs ys)

contains-evaluate_from :
    (stats : Metric → ℕ) (existing : List String) (code : String) (l : List AchievementDefinition)
    → contains code (codes (evaluate_from stats existing l))
      ≡ (not (contains code existing) && is_reached stats code l)
unfolding evaluate_from contains
contains-evaluate_from stats existing code [] = ground arith
contains-evaluate_from stats existing code (d ∷ l) =
    ground (arith, contains-evaluate_from stats existing code l, str_eq_iff code d.code)

-- A code is awarded exactly when it is not held yet and some definition with that code has its
-- threshold reached.
pub contains-evaluate_achievements :
    (stats : Metric → ℕ) (existing : List String) (code : String)
    → contains code (codes (evaluate_achievements stats existing))
      ≡ (not (contains code existing) && is_reached stats code achievements)
unfolding evaluate_achievements
contains-evaluate_achievements stats existing code =
    contains-evaluate_from stats existing code achievements

evaluate_from_none :
    (stats : Metric → ℕ) (held : List String) (l : List AchievementDefinition)
    → ((code : String) → is_reached stats code l ≡ true → contains code held ≡ true)
    → evaluate_from stats held l ≡ []
unfolding evaluate_from
evaluate_from_none stats held [] h = refl
evaluate_from_none stats held (d ∷ l) h = ground (
  arith,
  h d.code,
  str_eq_iff d.code d.code,
  evaluate_from_none stats held l (λ code r. h code (ground (arith))),
)

-- Once what was earned is held, the same statistics earn nothing more.
pub evaluate_achievements-again :
    (stats : Metric → ℕ) (existing : List String)
    → evaluate_achievements stats (existing ++ codes (evaluate_achievements stats existing)) ≡ []
unfolding evaluate_achievements
evaluate_achievements-again stats existing = evaluate_from_none stats _ achievements (λ code r.
    rw (contains-append, contains-evaluate_from stats existing code achievements) (ground arith))
