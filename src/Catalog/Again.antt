-- ===== src/Catalog/Again.antt =====
-- `record_events` of app/repositories/achievements.py over a list of events, and over it again.
use chat_pulse.Prelude.{
  ℕ, String, ◌≡◌, refl, sym, ◌∙◌, ap, Bool, true, false, ◌||◌, Option, none, some, List, [], ◌∷◌,
  All, str_eq, str_eq_iff, arith, where_,
}
use mathlib.Core.Path.{subst}
use chat_pulse.Achievements.{contains, AchievementEarned}
use chat_pulse.Achievements.Award.{contains-append}
use chat_pulse.Catalog.Singles.{catalog}
use chat_pulse.Catalog.Triggers.{is_of}
use chat_pulse.Catalog.Engine.{
  AchievementEvent, AchievementSnapshot, AchievementUnlock, evaluate_event,
}
use chat_pulse.Catalog.Met.{
  IsOf, unlocks_code, is_met, unlocks-evaluate_event, evaluate_event_none, evaluate_event-IsOf,
}
use chat_pulse.Catalog.Record.{
  achievement_scope_key, Store, chat_exists, insert_unlock, after_insert, Recording, record_unlock,
  record_unlocks, record_each, and_then, existing_codes_of, started, finished, record_events,
}
use chat_pulse.Catalog.Tracks.{Tracks, Inserted, insert_unlock-Inserted, key_in_scope}

-- Whether one of the events meets a definition with this code.
abbrev pub met_by : AchievementSnapshot → List AchievementEvent → String → Bool
met_by snapshot [] code = false
met_by snapshot (e ∷ l) code =
    is_met e snapshot code (where_ (is_of e.trigger) catalog) || met_by snapshot l code

module _ (user : ℕ) (chat : Option ℕ) where
  -- The rounds end, keep the two sets together, and add the codes of which `added` says so.
  abbrev pub Ends : Recording → (String → Bool) → Option Recording → Type 0
  Ends r added none = ⊥
  Ends r added (some r') =
      Tracks user chat r'
      × ((code : String)
          → contains code r'.existing_codes ≡ (added code || contains code r.existing_codes))

  pub after_insert-Ends :
      (r : Recording) (u : AchievementUnlock) (o : Option Store)
      → Tracks user chat r
      → Inserted user chat u.definition.code r.store o
      → Ends r (λ code. str_eq code u.definition.code) (some (after_insert r u.definition o))
  unfolding contains
  after_insert-Ends r u none t found = (
    t,
    λ code.
        ground (
          arith,
          t.known code,
          t.known u.definition.code,
          found,
          str_eq_iff code u.definition.code,
        ),
  )
  after_insert-Ends r u (some s) t (codes, users, chats) = (
    record {
      known = λ code. rw (contains-append, codes code, t.known code) (ground arith);
      user_exists = ap (λ f. f user) users ∙ t.user_exists;
      chat_is_there = ap (λ f. chat_exists f chat) chats ∙ t.chat_is_there;
    },
    λ code. rw contains-append (ground arith),
  )

  pub record_unlock-Ends :
      (ce : Bool) (r : Recording) (u : AchievementUnlock)
      → Tracks user chat r
      → IsOf user chat u
      → Ends r (λ code. str_eq code u.definition.code) (record_unlock ce r u)
  unfolding record_unlock
  record_unlock-Ends ce r u t h =
      let (key, found, sc) = key_in_scope u.definition.scope chat h.scoped in
      let key_found : achievement_scope_key u.definition.scope u.telegram_chat_id ≡ some key =
        ap (achievement_scope_key u.definition.scope) h.chat_same ∙ found in
      rw (record_unlock, key_found)
        (after_insert-Ends r u (insert_unlock ce r.store u key) t
          (insert_unlock-Inserted user chat u h ce r.store key sc t.user_exists t.chat_is_there))

  and_then-Ends :
      (r : Recording) (a b : String → Bool) (o : Option Recording)
      (k : Recording → Option Recording)
      → Ends r a o
      → ((r' : Recording) → Tracks user chat r' → Ends r' b (k r'))
      → Ends r (λ code. a code || b code) (and_then o k)
  and_then-Ends r a b none k h f = absurd h
  and_then-Ends r a b (some r') k (t, h) f = joined (k r') (f r' t)
    where
      joined : (o : Option Recording) → Ends r' b o → Ends r (λ code. a code || b code) o
      joined none e = absurd e
      joined (some r'') (t', h') = (t', λ code. ground (arith, h code, h' code))

  record_unlocks-Ends :
      (ce : Bool) (r : Recording) (l : List AchievementUnlock)
      → Tracks user chat r
      → All (IsOf user chat) l
      → Ends r (λ code. unlocks_code code l) (record_unlocks ce r l)
  unfolding record_unlocks
  record_unlocks-Ends ce r [] t h = (t, λ code. refl)
  record_unlocks-Ends ce r (u ∷ l) t (h, hs) =
      and_then-Ends r _ _ (record_unlock ce r u) _ (record_unlock-Ends ce r u t h)
        (λ r' t'. record_unlocks-Ends ce r' l t' hs)

  abbrev pub IsOne : AchievementEvent → Type 0
  IsOne e = (e.telegram_user_id ≡ user) × (e.telegram_chat_id ≡ chat)

  Ends-weaken :
      (r : Recording) (a b : String → Bool) (o : Option Recording)
      → ((code : String)
          → (a code || contains code r.existing_codes) ≡ (b code || contains code r.existing_codes))
      → Ends r a o
      → Ends r b o
  Ends-weaken r a b none h e = e
  Ends-weaken r a b (some r') h (t, e) = (t, λ code. e code ∙ h code)

  record_event-Ends :
      (ce : Bool) (snapshot : AchievementSnapshot) (r : Recording) (e : AchievementEvent)
      → Tracks user chat r
      → IsOne e
      → Ends r
          (λ code. is_met e snapshot code (where_ (is_of e.trigger) catalog))
          (record_unlocks ce r (evaluate_event e snapshot r.existing_codes))
  record_event-Ends ce snapshot r e t (same_user, same_chat) =
      Ends-weaken r _ _ (record_unlocks ce r (evaluate_event e snapshot r.existing_codes))
        (λ code. ground (arith, unlocks-evaluate_event e snapshot r.existing_codes code))
        (record_unlocks-Ends ce r _ t (
          subst (λ v. All (IsOf v chat) (evaluate_event e snapshot r.existing_codes)) same_user
            (subst
              (λ c. All (IsOf e.telegram_user_id c) (evaluate_event e snapshot r.existing_codes))
              same_chat (evaluate_event-IsOf e snapshot r.existing_codes))))

  record_each-Ends :
      (ce : Bool) (snapshot : AchievementSnapshot) (r : Recording) (l : List AchievementEvent)
      → Tracks user chat r
      → All IsOne l
      → Ends r (met_by snapshot l) (record_each ce snapshot r l)
  unfolding record_each
  record_each-Ends ce snapshot r [] t h = (t, λ code. refl)
  record_each-Ends ce snapshot r (e ∷ l) t (h, hs) =
      and_then-Ends r _ _ _ _ (record_event-Ends ce snapshot r e t h)
        (λ r' t'. record_each-Ends ce snapshot r' l t' hs)

  -- Where all that the events meet is held, they change nothing.
  record_each_none :
      (ce : Bool) (snapshot : AchievementSnapshot) (r : Recording) (l : List AchievementEvent)
      → ((code : String) → met_by snapshot l code ≡ true → contains code r.existing_codes ≡ true)
      → record_each ce snapshot r l ≡ some r
  unfolding record_each record_unlocks
  record_each_none ce snapshot r [] h = refl
  record_each_none ce snapshot r (e ∷ l) h =
      rw (evaluate_event_none e snapshot r.existing_codes (λ code met. h code (ground (arith))))
        (record_each_none ce snapshot r l (λ code met. h code (ground arith)))

  -- What recording the events leaves, and what recording them again does then.
  abbrev Settled : Bool → Store → AchievementSnapshot → List AchievementEvent → Recording → Type 0
  Settled ce s snapshot l r =
      ((code : String)
        → contains code (existing_codes_of r.store user chat)
          ≡ (met_by snapshot l code || contains code (existing_codes_of s user chat)))
      × (finished (record_each ce snapshot (started r.store user chat) l) ≡ some (r.store, []))

  record_each-Settled :
      (ce : Bool) (s : Store) (snapshot : AchievementSnapshot) (l : List AchievementEvent)
      (r : Recording)
      → Ends (started s user chat) (met_by snapshot l) (some r)
      → Settled ce s snapshot l r
  record_each-Settled ce s snapshot l r (t, codes) =
      let held = λ (code : String). sym (t.known code) ∙ codes code in
      (
        held,
        rw
            (record_each_none ce snapshot (started r.store user chat) l
              (λ code met. ground (arith, held code, met)))
            refl,
      )

  Ends-returns :
      (r : Recording) (added : String → Bool) (o : Option Recording)
      → Ends r added o
      → (r' : Recording) × (o ≡ some r') × Ends r added (some r')
  Ends-returns r added none h = absurd h
  Ends-returns r added (some r') h = (r', refl, h)

-- Recording events of one user in one chat, whose rows exist, never raises. Afterwards a code is
-- held exactly when it was before or one of the events meets a definition with it; and recording
-- the same events again earns nothing and changes no table.
pub record_events-again :
    (ce ce' : Bool) (s : Store) (snapshot : AchievementSnapshot) (e : AchievementEvent)
    (l : List AchievementEvent)
    → All (IsOne e.telegram_user_id e.telegram_chat_id) l
    → s.has_user e.telegram_user_id ≡ true
    → chat_exists s.has_chat e.telegram_chat_id ≡ true
    → (r : Store × List AchievementEarned) × (record_events ce s snapshot (e ∷ l) ≡ some r)
      × ((code : String)
          → contains code (existing_codes_of r.0 e.telegram_user_id e.telegram_chat_id) ≡ (
              met_by snapshot (e ∷ l) code
              || contains code (existing_codes_of s e.telegram_user_id e.telegram_chat_id)))
      × (record_events ce' r.0 snapshot (e ∷ l) ≡ some (r.0, []))
unfolding record_events
record_events-again ce ce' s snapshot e l same hu hc =
    let user : ℕ = e.telegram_user_id in
    let chat : Option ℕ = e.telegram_chat_id in
    let tracked : Tracks user chat (started s user chat) = record {
      known = λ code. refl;
      user_exists = hu;
      chat_is_there = hc;
    } in
    let (r, returned, ended) = Ends-returns user chat (started s user chat) _ _ (
      record_each-Ends user chat ce snapshot (started s user chat) (e ∷ l) tracked
        ((refl, refl), same)) in
    let (held, again) = record_each-Settled user chat ce' s snapshot (e ∷ l) r ended in
    ((r.store, r.earned), ap finished returned, held, again)
