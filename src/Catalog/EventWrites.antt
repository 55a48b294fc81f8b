-- ===== src/Catalog/EventWrites.antt =====
-- What writes to the events of app/repositories/achievements.py, and that none of it brings back an
-- event that a user has seen.
use chat_pulse.Prelude.{
  ℕ, ◌<◌, String, Bool, true, false, not, ◌≡◌, refl, Option, none, some, List, [], ◌∷◌, ◌++◌, ◌==◌,
  All, any, if◌then◌else◌, Bool-cases, inl, inr, arith,
}
use chat_pulse.Catalog.{AchievementDefinition}
use chat_pulse.Catalog.Engine.{
  AchievementEvent, AchievementSnapshot, AchievementUnlock, evaluate_event,
}
use chat_pulse.Catalog.Record.{
  Store, AchievementEventRecord, ScopeKey, achievement_scope_key, insert_unlock, after_insert,
  Recording, record_unlock, record_unlocks, record_each, and_then, started, finished, record_events,
}
use chat_pulse.Achievements.{AchievementEarned}
use chat_pulse.Catalog.Marks.{
  MarkField, seen, shared, first_time, with_mark, is_event, mark_rows, mark_event,
  add_collection_update_event,
}
use chat_pulse.Catalog.Pending.{is_pending, unset, deliver_rows, page, list_pending_events}
use chat_pulse.Catalog.Seen.{Hidden, unset-first_time, and_false, and_last}

-- What writes to the table of the events: marks, lists, updates and new unlocks.
pub data EventWrite : Type 0 where
  marks : MarkField → ℕ → ℕ → ℕ → EventWrite
  lists : List AchievementDefinition → ℕ → ℕ → ℕ → EventWrite
  updates : ℕ → ℕ → ℕ → List String → Option ℕ → EventWrite
  records : Bool → AchievementSnapshot → List AchievementEvent → EventWrite

-- An error rolls its transaction back.
abbrev pub or_same : Store → Option Store → Store
or_same s none = s
or_same s (some s') = s'

abbrev pub stored : Store → Option (Store × List AchievementEarned) → Store
stored s none = s
stored s (some r) = r.0

abbrev pub event_write : Store → EventWrite → Store
event_write s (marks field now user id) = (mark_event field now s user id).1
event_write s (lists catalog now user limit) = (list_pending_events catalog now s user limit).1
event_write s (updates now user count codes at) =
    or_same s (add_collection_update_event now s user count codes at)
event_write s (records create_events snapshot events) =
    stored s (record_events create_events s snapshot events)

abbrev pub event_writes : Store → List EventWrite → Store
event_writes s [] = s
event_writes s (w ∷ l) = event_writes (event_write s w) l

-- The number is taken, and not pending for the user.
pub record Gone (user id : ℕ) (s : Store) : Type 0 where
  pub hidden : All (Hidden user id) s.events
  pub taken : id < s.next_event

module _ (user id : ℕ) where
  with_mark-Hidden :
      (field : MarkField) (now : ℕ) (e : AchievementEventRecord)
      → Hidden user id e
      → Hidden user id (with_mark field now e)
  with_mark-Hidden seen now e h =
      and_last (e.telegram_user_id == user) (unset (first_time now e.seen_at)) (e.id == id)
        (unset-first_time now e.seen_at)
  with_mark-Hidden shared now e h = h

  mark_rows-stay :
      (field : MarkField) (now u i : ℕ) (l : List AchievementEventRecord)
      → All (Hidden user id) l
      → All (Hidden user id) (mark_rows field now u i l).1
  unfolding mark_rows
  mark_rows-stay field now u i [] hs = tt
  mark_rows-stay field now u i (e ∷ l) hs = elim (Bool-cases (is_event u i e)) [
    | inl mine ↦ rw mine (with_mark-Hidden field now e hs.0, hs.1)
    | inr other ↦ rw other (hs.0, mark_rows-stay field now u i l hs.1)
  ]

  deliver_rows-stay :
      (now : ℕ) (shown l : List AchievementEventRecord)
      → All (Hidden user id) l
      → All (Hidden user id) (deliver_rows now shown l)
  deliver_rows-stay now shown [] hs = tt
  deliver_rows-stay now shown (e ∷ l) hs =
      let rest = deliver_rows-stay now shown l hs.1 in
      elim (Bool-cases (any (λ p. p.id == e.id) shown)) [
        | inl in_page ↦ rw in_page (hs.0, rest)
        | inr out ↦ rw out (hs.0, rest)
      ]

  All-append-one :
      (l : List AchievementEventRecord) (e : AchievementEventRecord)
      → All (Hidden user id) l
      → Hidden user id e
      → All (Hidden user id) (l ++ (e ∷ []))
  All-append-one [] e hs h = (h, tt)
  All-append-one (x ∷ l) e hs h = (hs.0, All-append-one l e hs.1 h)

  -- A row with the next number is hidden.
  new-Hidden :
      (s : Store) (e : AchievementEventRecord)
      → Gone user id s
      → e.id ≡ s.next_event
      → Hidden user id e
  new-Hidden s e g is_next =
      let below = g.taken in
      and_false (is_pending user e) (e.id == id) (ground (arith, below, is_next))

  appended :
      (s : Store) (e : AchievementEventRecord)
      → Gone user id s
      → e.id ≡ s.next_event
      → All (Hidden user id) (s.events ++ (e ∷ []))
  appended s e g is_next = All-append-one s.events e g.hidden (new-Hidden s e g is_next)

  OnStore : Option Store → Type 0
  OnStore none = Unit
  OnStore (some s) = Gone user id s

  either-Gone :
      (found there : Bool) (s' : Store)
      → Gone user id s'
      → OnStore (if found then none else if not there then none else some s')
  unfolding OnStore
  either-Gone true there s' g = tt
  either-Gone false false s' g = tt
  either-Gone false true s' g = g

  insert_unlock-Gone :
      (ce : Bool) (s : Store) (u : AchievementUnlock) (key : ScopeKey)
      → Gone user id s
      → OnStore (insert_unlock ce s u key)
  unfolding insert_unlock
  insert_unlock-Gone true s u key g =
      either-Gone _ _ _ (record { hidden = appended s _ g refl; taken = omega (arith, g.taken) })
  insert_unlock-Gone false s u key g =
      either-Gone _ _ _ (record { hidden = g.hidden; taken = g.taken })

  OnRecording : Option Recording → Type 0
  OnRecording none = Unit
  OnRecording (some r) = Gone user id r.store

  after_insert-Gone :
      (r : Recording) (d : AchievementDefinition) (o : Option Store)
      → Gone user id r.store
      → OnStore o
      → Gone user id (after_insert r d o).store
  unfolding OnStore
  after_insert-Gone r d none g h = g
  after_insert-Gone r d (some s) g h = h

  record_unlock-Gone :
      (ce : Bool) (r : Recording) (u : AchievementUnlock)
      → Gone user id r.store
      → OnRecording (record_unlock ce r u)
  unfolding record_unlock OnRecording
  record_unlock-Gone ce r u g = keyed (achievement_scope_key u.definition.scope u.telegram_chat_id)
    where
      keyed :
          (o : Option ScopeKey)
          → OnRecording (elim o [
            | none ↦ none
            | some key ↦ some (after_insert r u.definition (insert_unlock ce r.store u key))
          ])
      keyed none = tt
      keyed (some key) =
          after_insert-Gone r u.definition _ g (insert_unlock-Gone ce r.store u key g)

  and_then-Gone :
      (o : Option Recording) (k : Recording → Option Recording)
      → OnRecording o
      → ((r : Recording) → Gone user id r.store → OnRecording (k r))
      → OnRecording (and_then o k)
  unfolding OnRecording
  and_then-Gone none k h f = tt
  and_then-Gone (some r) k h f = f r h

  record_unlocks-Gone :
      (ce : Bool) (r : Recording) (l : List AchievementUnlock)
      → Gone user id r.store
      → OnRecording (record_unlocks ce r l)
  unfolding record_unlocks OnRecording
  record_unlocks-Gone ce r [] g = g
  record_unlocks-Gone ce r (u ∷ l) g =
      and_then-Gone _ _ (record_unlock-Gone ce r u g) (λ r' g'. record_unlocks-Gone ce r' l g')

  record_each-Gone :
      (ce : Bool) (snapshot : AchievementSnapshot) (r : Recording) (l : List AchievementEvent)
      → Gone user id r.store
      → OnRecording (record_each ce snapshot r l)
  unfolding record_each OnRecording
  record_each-Gone ce snapshot r [] g = g
  record_each-Gone ce snapshot r (e ∷ l) g =
      and_then-Gone _ _ (record_unlocks-Gone ce r (evaluate_event e snapshot r.existing_codes) g)
        (λ r' g'. record_each-Gone ce snapshot r' l g')

  stored-Gone :
      (s : Store) (o : Option Recording)
      → Gone user id s
      → OnRecording o
      → Gone user id (stored s (finished o))
  unfolding OnRecording
  stored-Gone s none g h = g
  stored-Gone s (some r) g h = h

  event_write-Gone : (s : Store) (w : EventWrite) → Gone user id s → Gone user id (event_write s w)
  unfolding mark_event list_pending_events add_collection_update_event record_events
  event_write-Gone s (marks field now u i) g = record {
    hidden = mark_rows-stay field now u i s.events g.hidden;
    taken = g.taken;
  }
  event_write-Gone s (lists catalog now u limit) g = record {
    hidden = deliver_rows-stay now (page u limit s) s.events g.hidden;
    taken = g.taken;
  }
  event_write-Gone s (updates now u count codes at) g = elim (Bool-cases (s.has_user u)) [
    | inl there ↦ rw there (record { hidden = appended s _ g refl; taken = omega (arith, g.taken) })
    | inr missing ↦ rw missing g
  ]
  event_write-Gone s (records ce snapshot []) g = g
  event_write-Gone s (records ce snapshot (e ∷ l)) g =
      stored-Gone s _ g
        (record_each-Gone ce snapshot (started s e.telegram_user_id e.telegram_chat_id) (e ∷ l) g)

  pub event_writes-Gone :
      (s : Store) (l : List EventWrite) → Gone user id s → Gone user id (event_writes s l)
  event_writes-Gone s [] g = g
  event_writes-Gone s (w ∷ l) g = event_writes-Gone (event_write s w) l (event_write-Gone s w g)
