-- ===== src/Access/Flight.antt =====
-- The loads of one key, over sequences of sections.
use chat_pulse.Prelude.{
  ℕ, ◌≡◌, ◌⊎◌, refl, sym, ap, ◌∙◌, Bool, true, false, ◌&&◌, Option, none, some, leb, ◌==◌,
  Bool-cases, inl, inr, arith,
}
use chat_pulse.Access.{
  Key, same_key, CacheEntry, CachedTelegramStatus, Cache, Entered, answered, waiting, lookup,
  remove, is_current, join_load, start_load, enter_from, enter, end_load, loaded, fall_back, failed,
  invalidate, clear,
}
use chat_pulse.Access.Loads.{same_key-eq}
use chat_pulse.Access.Sections.{
  Step, Reach, enters, loads, fails, invalidates, clears, here, next, lookup-remove-other,
}

-- Any load may end but the one with this task, by the call that made it.
abbrev pub NotYet : Key → ℕ → Key → ℕ → Bool → Type 0
NotYet key task k t created = (same_key k key && (created && (t == task))) ≡ false

not_mine :
    (o : Option ℕ) (task t : ℕ) (created : Bool)
    → o ≡ some task
    → (created && (t == task)) ≡ false
    → (created && is_current o t) ≡ true
    → ⊥
unfolding is_current
not_mine none task t created e others ended = cc e
not_mine (some u) task t created e others ended = ground (arith, e, others, ended)

module _ {V : Type 0} (key : Key) (task : ℕ) where
  -- The task runs for the key.
  abbrev InFlight : Cache V → Type 0
  InFlight s = lookup key s.inflight ≡ some task

  join-InFlight :
      (s : Cache V) (k : Key) (stale : Option (CacheEntry V)) (o : Option ℕ)
      → lookup k s.inflight ≡ o
      → InFlight s
      → InFlight (join_load s k stale o).0
  unfolding join_load lookup
  join-InFlight s k stale (some t) e h = h
  join-InFlight s k stale none e h = elim (Bool-cases (same_key k key)) [
    | inl same ↦
        let missing : lookup key s.inflight ≡ none =
          ap (λ j. lookup j s.inflight) (sym (same_key-eq k key same)) ∙ e in
        absurd (cc (h, missing))
    | inr other ↦ rw other h
  ]

  start-InFlight :
      (s : Cache V) (k : Key) (stale : Option (CacheEntry V))
      → InFlight s
      → InFlight (start_load s k stale).0
  unfolding start_load
  start-InFlight s k stale h = join-InFlight s k stale (lookup k s.inflight) refl h

  enter_from-InFlight :
      (s : Cache V) (k : Key) (o : Option (CacheEntry V)) (now : ℕ)
      → InFlight s
      → InFlight (enter_from s k o now).0
  unfolding enter_from
  enter_from-InFlight s k none now h = start-InFlight s k none h
  enter_from-InFlight s k (some e) now h = elim (Bool-cases (leb now e.fresh_until)) [
    | inl fresh ↦ rw fresh h
    | inr old ↦ elim (Bool-cases (leb now e.stale_until)) [
      | inl usable ↦ rw (old, usable) (start-InFlight s k (some e) h)
      | inr gone ↦
          rw (old, gone) (start-InFlight (record s { entries = remove k s.entries }) k none h)
    ]
  ]

  end_load-InFlight :
      (s : Cache V) (k : Key) (t : ℕ) (created : Bool)
      → NotYet key task k t created
      → InFlight s
      → InFlight (end_load s k t created)
  unfolding end_load
  end_load-InFlight s k t created others h =
      elim (Bool-cases (created && is_current (lookup k s.inflight) t)) [
        | inr kept ↦ rw kept h
        | inl ended ↦ elim (Bool-cases (same_key k key)) [
          | inr other ↦ rw ended (lookup-remove-other key k s.inflight other ∙ h)
          | inl same ↦
              let mine : lookup k s.inflight ≡ some task =
                ap (λ j. lookup j s.inflight) (same_key-eq k key same) ∙ h in
              absurd (not_mine (lookup k s.inflight) task t created mine (rw same at others) ended)
        ]
      ]

  fall_back-InFlight :
      (s : Cache V) (k : Key) (o stale : Option (CacheEntry V)) (now : ℕ)
      → InFlight s
      → InFlight (fall_back s k o stale now).0
  unfolding fall_back
  fall_back-InFlight s k none stale now h = h
  fall_back-InFlight s k (some e) stale now h = ground (arith, h)

  Step-InFlight :
      {m : ℕ} {s s' : Cache V} → Step m (NotYet key task) s s' → InFlight s → InFlight s'
  unfolding enter loaded failed invalidate clear
  Step-InFlight (enters {s} k now) h = enter_from-InFlight s k (lookup k s.entries) now h
  Step-InFlight (loads {s} k t created value policy now e) h = end_load-InFlight s k t created e h
  Step-InFlight (fails {s} k t created stale now e) h =
      let s' = end_load s k t created in
      fall_back-InFlight s' k (lookup k s'.entries) stale now (end_load-InFlight s k t created e h)
  Step-InFlight (invalidates {s} predicate) h = h
  Step-InFlight (clears {s}) h = h

  Reach-InFlight :
      {m : ℕ} {s s' : Cache V} → Reach m (NotYet key task) s s' → InFlight s → InFlight s'
  Reach-InFlight here h = h
  Reach-InFlight (next r st) h = Step-InFlight st (Reach-InFlight r h)

  -- A call that makes no load of its own.
  abbrev pub Joins : Entered V → Type 0
  Joins e =
      ((status : CachedTelegramStatus V) × (e ≡ answered status))
      ⊎ ((stale : Option (CacheEntry V)) × (e ≡ waiting task false stale))

  start-Joins :
      (s : Cache V) (stale : Option (CacheEntry V)) → InFlight s → Joins (start_load s key stale).1
  unfolding start_load join_load
  start-Joins s stale h = rw h (inr (stale, refl))

  enter_from-Joins :
      (s : Cache V) (o : Option (CacheEntry V)) (now : ℕ)
      → InFlight s
      → Joins (enter_from s key o now).1
  unfolding enter_from
  enter_from-Joins s none now h = start-Joins s none h
  enter_from-Joins s (some e) now h = elim (Bool-cases (leb now e.fresh_until)) [
    | inl fresh ↦ rw fresh (inl (_, refl))
    | inr old ↦ elim (Bool-cases (leb now e.stale_until)) [
      | inl usable ↦ rw (old, usable) (start-Joins s (some e) h)
      | inr gone ↦ rw (old, gone) (start-Joins (record s { entries = remove key s.entries }) none h)
    ]
  ]

  -- While a load of a key is in flight, no call of that key starts another one: whatever calls,
  -- ends of other loads and invalidations come between, it is answered from the cache or waits
  -- for the same task.
  pub one_load_at_a_time :
      (m : ℕ) (s s' : Cache V) (now : ℕ)
      → lookup key s.inflight ≡ some task
      → Reach m (NotYet key task) s s'
      → Joins (enter s' key now).1
  unfolding enter
  one_load_at_a_time m s s' now h between =
      enter_from-Joins s' (lookup key s'.entries) now (Reach-InFlight between h)
