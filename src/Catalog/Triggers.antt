-- ===== src/Catalog/Triggers.antt =====
-- The lookups of app/achievements/catalog.py: the definitions of a trigger and of a code.
use chat_pulse.Prelude.{
  ℕ, zero, suc, String, Bool, true, false, not, ◌&&◌, ◌≡◌, refl, sym, ◌∙◌, none, some, arith, List,
  [], ◌∷◌, ◌++◌, where_, get_elem?, any, str_eq, str_eq_iff, Bool-cases, inl, inr,
}
use mathlib.Core.List.{append-nil, append_assoc}
use chat_pulse.Catalog.{
  chain, chain_stage, AchievementTrigger, AchievementDefinition, trigger_text, grouped_with,
  group_from, definitions_for_trigger, achievement_by_code,
}
use chat_pulse.Catalog.Singles.{catalog}

-- Whether the definition is evaluated at the trigger.
abbrev pub is_of : AchievementTrigger → AchievementDefinition → Bool
is_of t d = str_eq (trigger_text d.trigger) (trigger_text t)

group_from-where :
    (grouped : AchievementTrigger → List AchievementDefinition) (l : List AchievementDefinition)
    (t : AchievementTrigger)
    → group_from grouped l t ≡ grouped t ++ where_ (is_of t) l
unfolding group_from
group_from-where grouped [] t = sym (append-nil (grouped t))
group_from-where grouped (d ∷ l) t = elim (Bool-cases (is_of t d)) [
  | inl e ↦
      group_from-where (grouped_with grouped d) l t
      ∙ rw e (append_assoc (grouped t) (d ∷ []) (where_ (is_of t) l))
  | inr e ↦ group_from-where (grouped_with grouped d) l t ∙ rw e refl
]

-- The grouped table answers what a scan of all definitions would, in their order.
pub definitions_for_trigger-where :
    (l : List AchievementDefinition) (t : AchievementTrigger)
    → definitions_for_trigger l t ≡ where_ (is_of t) l
unfolding definitions_for_trigger
definitions_for_trigger-where l t = group_from-where (λ _. []) l t

-- No two definitions of the list have one code.
abbrev pub codes_differ : List AchievementDefinition → Bool
codes_differ [] = true
codes_differ (d ∷ l) = not (any (λ e. str_eq e.code d.code) l) && codes_differ l

by_code_absent :
    (l : List AchievementDefinition) (code : String)
    → any (λ e. str_eq e.code code) l ≡ false
    → achievement_by_code l code ≡ none
unfolding achievement_by_code
by_code_absent [] code h = refl
by_code_absent (d ∷ l) code h = ground (arith, by_code_absent l code)

by_code_found :
    (l : List AchievementDefinition) (i : ℕ) (d : AchievementDefinition)
    → codes_differ l ≡ true
    → get_elem? l i ≡ some d
    → achievement_by_code l d.code ≡ some d
unfolding achievement_by_code
by_code_found [] i d h e = absurd (cc)
by_code_found (x ∷ l) zero d h e = ground (arith, by_code_absent l d.code, str_eq_iff d.code d.code)
by_code_found (x ∷ l) (suc i) d h e = ground (arith, by_code_found l i d)

-- Every definition of the catalog is found again by its code: no code is used twice.
pub achievement_by_code-catalog :
    (i : ℕ) (d : AchievementDefinition)
    → get_elem? catalog i ≡ some d
    → achievement_by_code catalog d.code ≡ some d
unfolding chain chain_stage
achievement_by_code-catalog i d e = by_code_found catalog i d refl e
