-- ===== src/Catalog/Earned.antt =====
-- Which achievements `record_events` of app/repositories/achievements.py answers, as a list.
use mathlib.Core.Path.{subst}
use mathlib.Core.List.{append-nil, append_assoc, map-append}
use chat_pulse.Prelude.{
  ℕ, ◌≡◌, refl, sym, ◌∙◌, ap, Bool, true, false, Option, none, some, List, [], ◌∷◌, ◌++◌, map, All,
  where_, arith,
}
use chat_pulse.Achievements.{contains, AchievementEarned}
use chat_pulse.Catalog.{AchievementDefinition}
use chat_pulse.Catalog.Singles.{catalog}
use chat_pulse.Catalog.Triggers.{is_of, codes_differ}
use chat_pulse.Catalog.Engine.{
  AchievementEvent, AchievementSnapshot, AchievementUnlock, unlock_of, evaluate_event,
}
use chat_pulse.Catalog.Met.{IsOf, evaluate_event-IsOf}
use chat_pulse.Catalog.Record.{
  achievement_scope_key, Store, chat_exists, insert_unlock, earned_of, after_insert, Recording,
  record_unlock, record_unlocks, record_each, and_then, existing_codes_of, started, finished,
  record_events,
}
use chat_pulse.Catalog.Tracks.{Tracks, Inserted, insert_unlock-Inserted, key_in_scope}
use chat_pulse.Catalog.Again.{IsOne, after_insert-Ends}
use chat_pulse.Catalog.Due.{
  codes_of, is_due, due_at, due, Fresh, evaluate_event-due, due-Fresh, codes_differ-where,
  catalog-differ, Fresh-next,
}

module _ (user : ℕ) (chat : Option ℕ) where
  -- The rounds end, keep the two sets together, and earn these definitions, in this order.
  record Earns (r : Recording) (ds : List AchievementDefinition) (r' : Recording) : Type 0 where
    tracked : Tracks user chat r'
    earned_same : r'.earned ≡ r.earned ++ map earned_of ds
    held_same : r'.existing_codes ≡ r.existing_codes ++ codes_of ds

  Exactly : Recording → List AchievementDefinition → Option Recording → Type 0
  Exactly r ds none = ⊥
  Exactly r ds (some r') = Earns r ds r'

  -- The row of a code that is not held is inserted.
  after_insert-Exactly :
      (r : Recording) (u : AchievementUnlock) (o : Option Store)
      → Tracks user chat r
      → contains u.definition.code r.existing_codes ≡ false
      → Inserted user chat u.definition.code r.store o
      → Exactly r (u.definition ∷ []) (some (after_insert r u.definition o))
  unfolding Exactly
  after_insert-Exactly r u none t fresh found =
      absurd (cc (t.known u.definition.code, fresh, found))
  after_insert-Exactly r u (some s) t fresh inserted = record {
    tracked = (after_insert-Ends user chat r u (some s) t inserted).0;
    earned_same = refl;
    held_same = refl;
  }

  record_unlock-Exactly :
      (ce : Bool) (r : Recording) (u : AchievementUnlock)
      → Tracks user chat r
      → contains u.definition.code r.existing_codes ≡ false
      → IsOf user chat u
      → Exactly r (u.definition ∷ []) (record_unlock ce r u)
  unfolding record_unlock
  record_unlock-Exactly ce r u t fresh h =
      let (key, found, sc) = key_in_scope u.definition.scope chat h.scoped in
      let key_found : achievement_scope_key u.definition.scope u.telegram_chat_id ≡ some key =
        ap (achievement_scope_key u.definition.scope) h.chat_same ∙ found in
      rw (record_unlock, key_found)
        (after_insert-Exactly r u (insert_unlock ce r.store u key) t fresh
          (insert_unlock-Inserted user chat u h ce r.store key sc t.user_exists t.chat_is_there))

  Earns-then :
      (r r' r'' : Recording) (ds ds' : List AchievementDefinition)
      → Earns r ds r'
      → Earns r' ds' r''
      → Earns r (ds ++ ds') r''
  Earns-then r r' r'' ds ds' a b = record {
    tracked = b.tracked;
    earned_same =
        b.earned_same
        ∙ ap (λ l. l ++ map earned_of ds') a.earned_same
        ∙ append_assoc r.earned (map earned_of ds) (map earned_of ds')
        ∙ ap (λ l. r.earned ++ l) (sym (map-append earned_of ds ds'));
    held_same =
        b.held_same
        ∙ ap (λ l. l ++ codes_of ds') a.held_same
        ∙ append_assoc r.existing_codes (codes_of ds) (codes_of ds')
        ∙ ap (λ l. r.existing_codes ++ l) (sym (map-append (λ d. d.code) ds ds'));
  }

  and_then-Exactly :
      (r : Recording) (ds ds' : List AchievementDefinition) (o : Option Recording)
      (k : Recording → Option Recording)
      → Exactly r ds o
      → ((r' : Recording) → Earns r ds r' → Exactly r' ds' (k r'))
      → Exactly r (ds ++ ds') (and_then o k)
  unfolding Exactly
  and_then-Exactly r ds ds' none k h f = absurd h
  and_then-Exactly r ds ds' (some r') k h f = joined (k r') (f r' h)
    where
      joined : (o : Option Recording) → Exactly r' ds' o → Exactly r (ds ++ ds') o
      joined none e = absurd e
      joined (some r'') e = Earns-then r r' r'' ds ds' h e

  record_unlocks-Exactly :
      (ce : Bool) (snapshot : AchievementSnapshot) (e : AchievementEvent) (r : Recording)
      (ds : List AchievementDefinition)
      → Tracks user chat r
      → codes_differ ds ≡ true
      → Fresh r.existing_codes ds
      → All (IsOf user chat) (map (unlock_of e snapshot) ds)
      → Exactly r ds (record_unlocks ce r (map (unlock_of e snapshot) ds))
  unfolding record_unlocks Exactly
  record_unlocks-Exactly ce snapshot e r [] t differ fresh of = record {
    tracked = t;
    earned_same = sym (append-nil r.earned);
    held_same = sym (append-nil r.existing_codes);
  }
  record_unlocks-Exactly ce snapshot e r (d ∷ ds) t differ (f, fs) (h, hs) =
      and_then-Exactly r (d ∷ []) ds (record_unlock ce r (unlock_of e snapshot d)) _
        (record_unlock-Exactly ce r (unlock_of e snapshot d) t f h)
        (λ r' earns.
          record_unlocks-Exactly ce snapshot e r' ds earns.tracked (ground (arith, differ))
            (subst (λ l. Fresh l ds) (sym earns.held_same)
              (Fresh-next r.existing_codes d ds (ground (arith, differ)) fs))
            hs)

  record_event-Exactly :
      (ce : Bool) (snapshot : AchievementSnapshot) (r : Recording) (e : AchievementEvent)
      → Tracks user chat r
      → IsOne user chat e
      → Exactly r
          (due_at e snapshot r.existing_codes)
          (record_unlocks ce r (evaluate_event e snapshot r.existing_codes))
  record_event-Exactly ce snapshot r e t (same_user, same_chat) =
      let ds = due_at e snapshot r.existing_codes in
      let same = evaluate_event-due e snapshot r.existing_codes in
      let of : All (IsOf user chat) (evaluate_event e snapshot r.existing_codes) =
        subst (λ v. All (IsOf v chat) (evaluate_event e snapshot r.existing_codes)) same_user
          (subst (λ c. All (IsOf e.telegram_user_id c) (evaluate_event e snapshot r.existing_codes))
            same_chat (evaluate_event-IsOf e snapshot r.existing_codes)) in
      subst (λ l. Exactly r ds (record_unlocks ce r l)) (sym same)
        (record_unlocks-Exactly ce snapshot e r ds t
          (codes_differ-where (is_due e snapshot r.existing_codes)
            (where_ (is_of e.trigger) catalog)
            (codes_differ-where (is_of e.trigger) catalog catalog-differ))
          (due-Fresh e snapshot r.existing_codes (where_ (is_of e.trigger) catalog))
          (subst (All (IsOf user chat)) same of))

  record_each-Exactly :
      (ce : Bool) (snapshot : AchievementSnapshot) (r : Recording) (l : List AchievementEvent)
      → Tracks user chat r
      → All (IsOne user chat) l
      → Exactly r (due snapshot r.existing_codes l) (record_each ce snapshot r l)
  unfolding record_each Exactly
  record_each-Exactly ce snapshot r [] t h = record {
    tracked = t;
    earned_same = sym (append-nil r.earned);
    held_same = sym (append-nil r.existing_codes);
  }
  record_each-Exactly ce snapshot r (e ∷ l) t (h, hs) =
      let now = due_at e snapshot r.existing_codes in
      and_then-Exactly r now (due snapshot (r.existing_codes ++ codes_of now) l) _ _
        (record_event-Exactly ce snapshot r e t h)
        (λ r' earns.
          subst (λ held. Exactly r' (due snapshot held l) (record_each ce snapshot r' l))
            earns.held_same (record_each-Exactly ce snapshot r' l earns.tracked hs))

  Exactly-answer :
      (s : Store) (ds : List AchievementDefinition) (o : Option Recording)
      (r : Store × List AchievementEarned)
      → Exactly (started s user chat) ds o
      → finished o ≡ some r
      → r.1 ≡ map earned_of ds
  unfolding Exactly
  Exactly-answer s ds none r h e = absurd h
  Exactly-answer s ds (some r') r h e =
      let is_it : (r'.store, r'.earned) ≡ r = cc in ap (λ x. x.1) (sym is_it) ∙ h.earned_same

-- What recording events of one user in one chat, whose rows exist, answers: the definitions that
-- are due, each once, in the order of the events and of the catalog.
pub record_events-due :
    (ce : Bool) (s : Store) (snapshot : AchievementSnapshot) (e : AchievementEvent)
    (l : List AchievementEvent) (r : Store × List AchievementEarned)
    → All (IsOne e.telegram_user_id e.telegram_chat_id) l
    → s.has_user e.telegram_user_id ≡ true
    → chat_exists s.has_chat e.telegram_chat_id ≡ true
    → record_events ce s snapshot (e ∷ l) ≡ some r
    → r.1
      ≡ map earned_of
          (due snapshot (existing_codes_of s e.telegram_user_id e.telegram_chat_id) (e ∷ l))
unfolding record_events
record_events-due ce s snapshot e l r same hu hc returned =
    let user : ℕ = e.telegram_user_id in
    let chat : Option ℕ = e.telegram_chat_id in
    let tracked : Tracks user chat (started s user chat) = record {
      known = λ code. refl;
      user_exists = hu;
      chat_is_there = hc;
    } in
    Exactly-answer user chat s _ _ r
      (record_each-Exactly user chat ce snapshot (started s user chat) (e ∷ l) tracked
        ((refl, refl), same))
      returned
