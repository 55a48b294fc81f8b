-- ===== src/Catalog/Due.antt =====
-- Which definitions are due at the events that app/repositories/achievements.py records, one event
-- after the other, as lists.
use chat_pulse.Prelude.{
  String, ◌≡◌, refl, ap, Bool, true, false, not, ◌&&◌, List, [], ◌∷◌, ◌++◌, map, All, any, where_,
  str_eq, arith, Bool-cases, inl, inr,
}
use chat_pulse.Achievements.{contains}
use chat_pulse.Achievements.Award.{contains-append}
use chat_pulse.Catalog.{AchievementDefinition, chain, chain_stage}
use chat_pulse.Catalog.Singles.{catalog}
use chat_pulse.Catalog.Triggers.{is_of, codes_differ, definitions_for_trigger-where}
use chat_pulse.Catalog.Engine.{
  AchievementEvent, AchievementSnapshot, unlock_of, matches, has_scope, evaluate_from,
  evaluate_event,
}
use chat_pulse.Catalog.Met.{is_open}

abbrev pub codes_of : List AchievementDefinition → List String
codes_of = map (λ d. d.code)

-- The definitions that are due at an event, among those of its trigger: not held, in a scope that
-- the event has, and with a threshold that the values meet.
abbrev pub is_due :
    AchievementEvent → AchievementSnapshot → List String → AchievementDefinition → Bool
is_due e snapshot held d = not (contains d.code held) && is_open e snapshot d

abbrev pub due_at :
    AchievementEvent → AchievementSnapshot → List String → List AchievementDefinition
due_at e snapshot held = where_ (is_due e snapshot held) (where_ (is_of e.trigger) catalog)

-- At one event after the other, those that became due before being held.
abbrev pub due :
    AchievementSnapshot → List String → List AchievementEvent → List AchievementDefinition
due snapshot held [] = []
due snapshot held (e ∷ l) =
    due_at e snapshot held ++ due snapshot (held ++ codes_of (due_at e snapshot held)) l

abbrev pub Fresh : List String → List AchievementDefinition → Type 0
Fresh held = All (λ d. contains d.code held ≡ false)

evaluate_from-where :
    (e : AchievementEvent) (snapshot : AchievementSnapshot) (held : List String)
    (l : List AchievementDefinition)
    → evaluate_from e snapshot held l
      ≡ map (unlock_of e snapshot) (where_ (is_due e snapshot held) l)
unfolding evaluate_from
evaluate_from-where e snapshot held [] = refl
evaluate_from-where e snapshot held (d ∷ l) =
    let rest = evaluate_from-where e snapshot held l in
    elim (Bool-cases (contains d.code held)) [
      | inl known ↦ rw known rest
      | inr new ↦ elim (Bool-cases (has_scope d.scope e.telegram_chat_id)) [
        | inr out ↦ rw (new, out) rest
        | inl scoped ↦ elim (Bool-cases (matches d (snapshot.value d.metric))) [
          | inr below ↦ rw (new, scoped, below) rest
          | inl met ↦ rw (new, scoped, met) (ap (λ v. unlock_of e snapshot d ∷ v) rest)
        ]
      ]
    ]

pub evaluate_event-due :
    (e : AchievementEvent) (snapshot : AchievementSnapshot) (held : List String)
    → evaluate_event e snapshot held ≡ map (unlock_of e snapshot) (due_at e snapshot held)
unfolding evaluate_event
evaluate_event-due e snapshot held =
    rw (definitions_for_trigger-where catalog e.trigger)
      (evaluate_from-where e snapshot held (where_ (is_of e.trigger) catalog))

pub due-Fresh :
    (e : AchievementEvent) (snapshot : AchievementSnapshot) (held : List String)
    (l : List AchievementDefinition)
    → Fresh held (where_ (is_due e snapshot held) l)
due-Fresh e snapshot held [] = tt
due-Fresh e snapshot held (d ∷ l) = elim (Bool-cases (is_due e snapshot held d)) [
  | inl h ↦ rw h (ground (arith, h), due-Fresh e snapshot held l)
  | inr h ↦ rw h (due-Fresh e snapshot held l)
]

none_where :
    (code : String) (p : AchievementDefinition → Bool) (l : List AchievementDefinition)
    → any (λ e. str_eq e.code code) l ≡ false
    → any (λ e. str_eq e.code code) (where_ p l) ≡ false
none_where code p [] h = refl
none_where code p (d ∷ l) h = elim (Bool-cases (p d)) [
  | inl k ↦ rw k (ground (arith, h, none_where code p l))
  | inr k ↦ rw k (ground (arith, h, none_where code p l))
]

pub codes_differ-where :
    (p : AchievementDefinition → Bool) (l : List AchievementDefinition)
    → codes_differ l ≡ true
    → codes_differ (where_ p l) ≡ true
codes_differ-where p [] h = refl
codes_differ-where p (d ∷ l) h = elim (Bool-cases (p d)) [
  | inl k ↦ rw k (ground (arith, h, none_where d.code p l, codes_differ-where p l))
  | inr k ↦ rw k (ground (arith, h, codes_differ-where p l))
]

pub catalog-differ : codes_differ catalog ≡ true
unfolding chain chain_stage
catalog-differ = refl

pub Fresh-next :
    (held : List String) (d : AchievementDefinition) (l : List AchievementDefinition)
    → any (λ e. str_eq e.code d.code) l ≡ false
    → Fresh held l
    → Fresh (held ++ (d.code ∷ [])) l
unfolding contains
Fresh-next held d [] h f = tt
Fresh-next held d (x ∷ l) h (f, fs) =
    (rw contains-append (ground (arith, h, f)), Fresh-next held d l (ground (arith, h)) fs)
