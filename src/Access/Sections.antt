-- ===== src/Access/Sections.antt =====
-- Sequences of sections of `get_or_load`, by any number of calls, with invalidations between them.
use chat_pulse.Prelude.{
  ℕ, ◌≤◌, ◌≡◌, refl, ap, ◌∙◌, Bool, false, Option, none, some, List, [], ◌∷◌, length, length-append,
  leb, Bool-cases, Option-cases, inl, inr, arith,
}
use chat_pulse.Access.{
  TtlPolicy, Key, same_key, CacheEntry, Cache, lookup, remove, put_last, evict, drop_where,
  join_load, start_load, enter_from, enter, end_load, loaded, fall_back, failed, invalidate, clear,
}
use chat_pulse.Access.Loads.{same_key-eq}

-- One section, or an invalidation. `Ends` says which loads may end.
pub data Step {V : Type 0} (max_entries : ℕ) (Ends : Key → ℕ → Bool → Type 0)
    : Cache V → Cache V → Type 0 where
  enters : {s : Cache V} (key : Key) (now : ℕ) → Step max_entries Ends s (enter s key now).0
  loads :
      {s : Cache V} (key : Key) (task : ℕ) (created : Bool) (value : Option V)
      (policy : TtlPolicy V) (now : ℕ)
      → Ends key task created
      → Step max_entries Ends s (loaded max_entries s key task created value policy now).0
  fails :
      {s : Cache V} (key : Key) (task : ℕ) (created : Bool) (stale : Option (CacheEntry V))
      (now : ℕ)
      → Ends key task created
      → Step max_entries Ends s (failed s key task created stale now).0
  invalidates :
      {s : Cache V} (predicate : Key → Bool) → Step max_entries Ends s (invalidate predicate s)
  clears : {s : Cache V} → Step max_entries Ends s (clear s)

pub data Reach {V : Type 0} (max_entries : ℕ) (Ends : Key → ℕ → Bool → Type 0) (s : Cache V)
    : Cache V → Type 0 where
  here : Reach max_entries Ends s s
  next :
      {t u : Cache V}
      → Reach max_entries Ends s t
      → Step max_entries Ends t u
      → Reach max_entries Ends s u

module _ {A : Type 0} where
  length-remove : (key : Key) (l : List (Key × A)) → length (remove key l) ≤ length l
  unfolding remove
  length-remove key [] = omega arith
  length-remove key ((k, a) ∷ l) = ground (arith, length-remove key l)

  -- Moving a key to the end makes the dictionary no longer.
  length-put_last :
      (key : Key) (a b : A) (l : List (Key × A))
      → lookup key l ≡ some b
      → length (put_last key a l) ≤ length l
  unfolding lookup put_last remove
  length-put_last key a b [] h = cc h
  length-put_last key a b ((k, c) ∷ l) h = elim (Bool-cases (same_key k key)) [
    | inl same ↦
        rw same (omega (arith, length-append (remove key l) ((key, a) ∷ []), length-remove key l))
    | inr other ↦ rw other (omega (arith, length-put_last key a b l (rw other at h)))
  ]

  length-evict : (m : ℕ) (l : List (Key × A)) → length (evict m l) ≤ m
  unfolding evict
  length-evict m [] = omega arith
  length-evict m (x ∷ l) = ground (arith, length-evict m l)

  length-drop_where :
      (predicate : Key → Bool) (l : List (Key × A)) → length (drop_where predicate l) ≤ length l
  unfolding drop_where
  length-drop_where predicate [] = omega arith
  length-drop_where predicate ((k, a) ∷ l) = ground (arith, length-drop_where predicate l)

  pub lookup-remove-other :
      (key k : Key) (l : List (Key × A))
      → same_key k key ≡ false
      → lookup key (remove k l) ≡ lookup key l
  unfolding lookup remove
  lookup-remove-other key k [] h = refl
  lookup-remove-other key k ((j, a) ∷ l) h = elim (Bool-cases (same_key j k)) [
    | inl same ↦
        let e : same_key j key ≡ false = ap (λ i. same_key i key) (same_key-eq j k same) ∙ h in
        rw (same, e) (lookup-remove-other key k l h)
    | inr other ↦ rw other (ground (arith, lookup-remove-other key k l h))
  ]

module _ {V : Type 0} where
  join-entries :
      (s : Cache V) (key : Key) (stale : Option (CacheEntry V)) (o : Option ℕ)
      → (join_load s key stale o).0.entries ≡ s.entries
  unfolding join_load
  join-entries s key stale none = refl
  join-entries s key stale (some t) = refl

  pub start-entries :
      (s : Cache V) (key : Key) (stale : Option (CacheEntry V))
      → (start_load s key stale).0.entries ≡ s.entries
  unfolding start_load
  start-entries s key stale = join-entries s key stale (lookup key s.inflight)

  enter-size :
      (s : Cache V) (key : Key) (now : ℕ) → length (enter s key now).0.entries ≤ length s.entries
  unfolding enter
  enter-size s key now = elim (Option-cases (lookup key s.entries)) [
    | inl missing ↦ rw (missing, enter_from, start-entries s key none) (omega arith)
    | inr (e, found) ↦ elim (Bool-cases (leb now e.fresh_until)) [
      | inl fresh ↦ rw (found, enter_from, fresh) (length-put_last key e e s.entries found)
      | inr old ↦ elim (Bool-cases (leb now e.stale_until)) [
        | inl usable ↦
            rw (found, enter_from, old, usable, start-entries s key (some e)) (omega arith)
        | inr gone ↦
            rw
              (
                found,
                enter_from,
                old,
                gone,
                start-entries (record s { entries = remove key s.entries }) key none,
              )
              (length-remove key s.entries)
      ]
    ]
  ]

  end_load-entries :
      (s : Cache V) (key : Key) (task : ℕ) (created : Bool)
      → (end_load s key task created).entries ≡ s.entries
  unfolding end_load
  end_load-entries s key task created = ground arith

  failed-size :
      (s : Cache V) (key : Key) (task : ℕ) (created : Bool) (stale : Option (CacheEntry V))
      (now : ℕ)
      → length (failed s key task created stale now).0.entries ≤ length s.entries
  unfolding failed
  failed-size s key task created stale now =
      rw (end_load-entries s key task created) elim (Option-cases (lookup key s.entries)) [
        | inl missing ↦ rw (missing, fall_back, end_load-entries s key task created) (omega arith)
        | inr (e, found) ↦ elim (Bool-cases (leb now e.stale_until)) [
          | inl usable ↦
              rw (found, fall_back, usable, end_load-entries s key task created)
                (length-put_last key e e s.entries found)
          | inr gone ↦
              rw (found, fall_back, gone, end_load-entries s key task created) (omega arith)
        ]
      ]

  Step-size :
      {m : ℕ} {Ends : Key → ℕ → Bool → Type 0} {s s' : Cache V}
      → Step m Ends s s'
      → length s.entries ≤ m
      → length s'.entries ≤ m
  unfolding loaded invalidate clear
  Step-size (enters {s} key now) h = omega (arith, enter-size s key now)
  Step-size {m} (loads {s} key task created value policy now e) h = length-evict m _
  Step-size (fails {s} key task created stale now e) h =
      omega (arith, failed-size s key task created stale now)
  Step-size (invalidates {s} predicate) h = omega (arith, length-drop_where predicate s.entries)
  Step-size (clears {s}) h = omega arith

  -- The cache never holds more than `max_entries` entries: from one within the bound, the empty one
  -- included, every sequence of sections of calls and of invalidations ends within it.
  pub cache_is_bounded :
      (m : ℕ) (Ends : Key → ℕ → Bool → Type 0) (s s' : Cache V)
      → length s.entries ≤ m
      → Reach m Ends s s'
      → length s'.entries ≤ m
  cache_is_bounded m Ends s s' h here = h
  cache_is_bounded m Ends s s' h (next {t} r st) = Step-size st (cache_is_bounded m Ends s t h r)
