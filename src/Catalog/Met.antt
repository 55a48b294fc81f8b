-- ===== src/Catalog/Met.antt =====
-- What `evaluate_event` of app/achievements/engine.py unlocks, stated on codes.
use chat_pulse.Prelude.{
  ℕ, String, ◌≡◌, refl, Bool, true, false, ◌||◌, ◌&&◌, not, List, [], ◌∷◌, All, str_eq, str_eq_iff,
  arith, Bool-cases, inl, inr, where_, Option,
}
use chat_pulse.Achievements.{contains}
use chat_pulse.Catalog.{AchievementDefinition}
use chat_pulse.Catalog.Singles.{catalog}
use chat_pulse.Catalog.Triggers.{is_of, definitions_for_trigger-where}
use chat_pulse.Catalog.Engine.{
  AchievementEvent, AchievementSnapshot, AchievementUnlock, matches, has_scope, chat_of,
  evaluate_from, evaluate_event,
}

-- Whether one of the unlocks has the code.
abbrev pub unlocks_code : String → List AchievementUnlock → Bool
unlocks_code code [] = false
unlocks_code code (u ∷ l) = str_eq code u.definition.code || unlocks_code code l

-- Whether the event can unlock the definition with these values.
abbrev pub is_open : AchievementEvent → AchievementSnapshot → AchievementDefinition → Bool
is_open e snapshot d = has_scope d.scope e.telegram_chat_id && matches d (snapshot.value d.metric)

-- Whether a definition with this code in the list is met.
abbrev pub is_met :
    AchievementEvent → AchievementSnapshot → String → List AchievementDefinition → Bool
is_met e snapshot code [] = false
is_met e snapshot code (d ∷ l) =
    (str_eq code d.code && is_open e snapshot d) || is_met e snapshot code l

unlocks-evaluate_from :
    (e : AchievementEvent) (snapshot : AchievementSnapshot) (existing : List String) (code : String)
    (l : List AchievementDefinition)
    → unlocks_code code (evaluate_from e snapshot existing l)
      ≡ (not (contains code existing) && is_met e snapshot code l)
unfolding evaluate_from contains
unlocks-evaluate_from e snapshot existing code [] = ground arith
unlocks-evaluate_from e snapshot existing code (d ∷ l) =
    ground (arith, unlocks-evaluate_from e snapshot existing code l, str_eq_iff code d.code)

-- An event unlocks exactly the codes that are not held and of which the catalog has a definition
-- for its trigger, in a scope that the event has, whose threshold the snapshot meets.
pub unlocks-evaluate_event :
    (e : AchievementEvent) (snapshot : AchievementSnapshot) (existing : List String) (code : String)
    → unlocks_code code (evaluate_event e snapshot existing)
      ≡ (not (contains code existing) && is_met e snapshot code (where_ (is_of e.trigger) catalog))
unfolding evaluate_event
unlocks-evaluate_event e snapshot existing code =
    rw (definitions_for_trigger-where catalog e.trigger)
      (unlocks-evaluate_from e snapshot existing code (where_ (is_of e.trigger) catalog))

evaluate_from_none :
    (e : AchievementEvent) (snapshot : AchievementSnapshot) (held : List String)
    (l : List AchievementDefinition)
    → ((code : String) → is_met e snapshot code l ≡ true → contains code held ≡ true)
    → evaluate_from e snapshot held l ≡ []
unfolding evaluate_from
evaluate_from_none e snapshot held [] h = refl
evaluate_from_none e snapshot held (d ∷ l) h = ground (
  arith,
  h d.code,
  str_eq_iff d.code d.code,
  evaluate_from_none e snapshot held l (λ code r. h code (ground (arith))),
)

pub evaluate_event_none :
    (e : AchievementEvent) (snapshot : AchievementSnapshot) (held : List String)
    → ((code : String)
        → is_met e snapshot code (where_ (is_of e.trigger) catalog) ≡ true
        → contains code held ≡ true)
    → evaluate_event e snapshot held ≡ []
unfolding evaluate_event
evaluate_event_none e snapshot held h =
    rw (definitions_for_trigger-where catalog e.trigger)
      (evaluate_from_none e snapshot held (where_ (is_of e.trigger) catalog) h)

-- The unlock is of the user, of the chat where its scope is the group, and in scope.
pub record IsOf (user : ℕ) (chat : Option ℕ) (u : AchievementUnlock) : Type 0 where
  pub user_same : u.telegram_user_id ≡ user
  pub chat_same : u.telegram_chat_id ≡ chat_of u.definition.scope chat
  pub scoped : has_scope u.definition.scope chat ≡ true

evaluate_from-IsOf :
    (e : AchievementEvent) (snapshot : AchievementSnapshot) (existing : List String)
    (l : List AchievementDefinition)
    → All (IsOf e.telegram_user_id e.telegram_chat_id) (evaluate_from e snapshot existing l)
unfolding evaluate_from
evaluate_from-IsOf e snapshot existing [] = tt
evaluate_from-IsOf e snapshot existing (d ∷ l) =
    let rest = evaluate_from-IsOf e snapshot existing l in
    elim (Bool-cases (contains d.code existing)) [
      | inl held ↦ rw held rest
      | inr new ↦ elim (Bool-cases (has_scope d.scope e.telegram_chat_id)) [
        | inr out ↦ rw (new, out) rest
        | inl scoped ↦ elim (Bool-cases (matches d (snapshot.value d.metric))) [
          | inr below ↦ rw (new, scoped, below) rest
          | inl met ↦
              rw (new, scoped, met)
                (record { user_same = refl; chat_same = refl; scoped = scoped }, rest)
        ]
      ]
    ]

pub evaluate_event-IsOf :
    (e : AchievementEvent) (snapshot : AchievementSnapshot) (existing : List String)
    → All (IsOf e.telegram_user_id e.telegram_chat_id) (evaluate_event e snapshot existing)
unfolding evaluate_event
evaluate_event-IsOf e snapshot existing = evaluate_from-IsOf e snapshot existing _
