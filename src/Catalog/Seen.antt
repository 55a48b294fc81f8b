-- ===== src/Catalog/Seen.antt =====
-- What `list_pending_events` of app/repositories/achievements.py shows, and what `mark_seen` hides.
use chat_pulse.Prelude.{
  ℕ, zero, suc, min, max, ◌≤◌, Bool, true, false, ◌&&◌, ◌≡◌, refl, Option, none, some, List, [],
  ◌∷◌, map, ◌==◌, where_, All, length, Bool-cases, inl, inr, arith,
}
use chat_pulse.Catalog.{AchievementDefinition}
use chat_pulse.Catalog.Record.{Store, AchievementEventRecord}
use chat_pulse.Catalog.Marks.{first_time, is_event, seen, mark_rows}
use chat_pulse.Catalog.Pending.{
  unset, is_pending, before, put_in_order, in_order, limited, safe_limit, page, delivered,
  has_payload, list_pending_events,
}

-- What is true of an event that the list may show.
abbrev pub IsShown : ℕ → AchievementEventRecord → Type 0
IsShown user e = (is_pending user e ≡ true) × (unset e.delivered_at ≡ false)

abbrev pub Pends : ℕ → AchievementEventRecord → Type 0
Pends user e = is_pending user e ≡ true

module _ (P : AchievementEventRecord → Type 0) where
  All-where_ :
      (user : ℕ) (l : List AchievementEventRecord)
      → All P l
      → All (λ e. Pends user e × P e) (where_ (is_pending user) l)
  All-where_ user [] hs = tt
  All-where_ user (e ∷ l) hs = elim (Bool-cases (is_pending user e)) [
    | inl h ↦ rw h ((h, hs.0), All-where_ user l hs.1)
    | inr h ↦ rw h (All-where_ user l hs.1)
  ]

  All-put_in_order :
      (e : AchievementEventRecord) (l : List AchievementEventRecord)
      → P e
      → All P l
      → All P (put_in_order e l)
  All-put_in_order e [] h hs = (h, tt)
  All-put_in_order e (f ∷ l) h hs = elim (Bool-cases (before e f)) [
    | inl b ↦ rw b (h, hs)
    | inr b ↦ rw b (hs.0, All-put_in_order e l h hs.1)
  ]

  All-in_order : (l : List AchievementEventRecord) → All P l → All P (in_order l)
  All-in_order [] hs = tt
  All-in_order (e ∷ l) hs = All-put_in_order e (in_order l) hs.0 (All-in_order l hs.1)

  All-limited : (n : ℕ) (l : List AchievementEventRecord) → All P l → All P (limited n l)
  All-limited zero l hs = tt
  All-limited (suc n) [] hs = tt
  All-limited (suc n) (e ∷ l) hs = (hs.0, All-limited n l hs.1)

  All-map-where_ :
      (Q : AchievementEventRecord → Type 0) (f : AchievementEventRecord → AchievementEventRecord)
      (test : AchievementEventRecord → Bool)
      → ((e : AchievementEventRecord) → P e → Q (f e))
      → (l : List AchievementEventRecord) → All P l
      → All Q (where_ test (map f l))
  All-map-where_ Q f test step [] hs = tt
  All-map-where_ Q f test step (e ∷ l) hs = elim (Bool-cases (test (f e))) [
    | inl h ↦ rw h (step e hs.0, All-map-where_ Q f test step l hs.1)
    | inr h ↦ rw h (All-map-where_ Q f test step l hs.1)
  ]

-- What the rows of the table have, and what follows of a row of the page once it is delivered.
pub list_pending_events-All :
    (P Q : AchievementEventRecord → Type 0) (catalog : List AchievementDefinition) (now : ℕ)
    (s : Store) (user limit : ℕ)
    → ((e : AchievementEventRecord) → Pends user e → P e → Q (delivered now e))
    → All P s.events
    → All Q (list_pending_events catalog now s user limit).0
unfolding list_pending_events
list_pending_events-All P Q catalog now s user limit step hs =
    let R : AchievementEventRecord → Type 0 = λ e. Pends user e × P e in
    let rows = where_ (is_pending user) s.events in
    All-map-where_ R Q (delivered now) (has_payload catalog s.unlocks) (λ e h. step e h.0 h.1)
      (page user limit s)
      (All-limited R (safe_limit limit) (in_order rows)
        (All-in_order R rows (All-where_ P user s.events hs)))

pub unset-first_time : (now : ℕ) (o : Option ℕ) → unset (first_time now o) ≡ false
unset-first_time now none = refl
unset-first_time now (some at) = refl

abbrev Whatever : AchievementEventRecord → Type 0
Whatever e = Unit

All-trivial : (l : List AchievementEventRecord) → All Whatever l
All-trivial [] = tt
All-trivial (e ∷ l) = (tt, All-trivial l)

length-limited : (n : ℕ) (l : List AchievementEventRecord) → length (limited n l) ≤ n
length-limited zero l = omega arith
length-limited (suc n) [] = omega arith
length-limited (suc n) (e ∷ l) = omega (arith, length-limited n l)

length-where_ :
    (now : ℕ) (test : AchievementEventRecord → Bool) (l : List AchievementEventRecord)
    → length (where_ test (map (delivered now) l)) ≤ length l
length-where_ now test [] = omega arith
length-where_ now test (e ∷ l) = elim (Bool-cases (test (delivered now e))) [
  | inl h ↦ rw h (omega (arith, length-where_ now test l))
  | inr h ↦ rw h (omega (arith, length-where_ now test l))
]

-- No two events have one number, as the primary key has it.
abbrev pub DistinctIds : List AchievementEventRecord → Type 0
DistinctIds [] = Unit
DistinctIds (e ∷ l) = All (λ f. (f.id == e.id) ≡ false) l × DistinctIds l

-- Not pending for the user under this number.
abbrev pub Hidden : ℕ → ℕ → AchievementEventRecord → Type 0
Hidden user id e = (is_pending user e && (e.id == id)) ≡ false

and_swap : (a b c : Bool) → (a && b) ≡ false → ((b && c) && a) ≡ false
and_swap true true c h = absurd (cc)
and_swap true false c h = refl
and_swap false true true h = refl
and_swap false true false h = refl
and_swap false false c h = refl

pub and_false : (a b : Bool) → b ≡ false → (a && b) ≡ false
and_false true b h = h
and_false false b h = refl

pub and_last : (a b c : Bool) → b ≡ false → ((a && b) && c) ≡ false
and_last true true c h = absurd (cc)
and_last true false c h = refl
and_last false b c h = refl

and_left : (a b : Bool) → (a && b) ≡ true → a ≡ true
and_left true b h = refl
and_left false b h = absurd (cc)

same_id : (a b c : ℕ) → (a == b) ≡ false → (b == c) ≡ true → (a == c) ≡ false
same_id a b c h k = ground arith

Hidden-others :
    (user id : ℕ) (e : AchievementEventRecord) (l : List AchievementEventRecord)
    → (e.id == id) ≡ true
    → All (λ f. (f.id == e.id) ≡ false) l
    → All (Hidden user id) l
Hidden-others user id e [] k hs = tt
Hidden-others user id e (f ∷ l) k hs = (
  and_false (is_pending user f) (f.id == id) (same_id f.id e.id id hs.0 k),
  Hidden-others user id e l k hs.1,
)

pub mark_rows-Hidden :
    (now user id : ℕ) (l : List AchievementEventRecord)
    → DistinctIds l
    → All (Hidden user id) (mark_rows seen now user id l).1
unfolding mark_rows
mark_rows-Hidden now user id [] d = tt
mark_rows-Hidden now user id (e ∷ l) d = elim (Bool-cases (is_event user id e)) [
  | inl mine ↦ rw mine (
    and_last (e.telegram_user_id == user) (unset (first_time now e.seen_at)) (e.id == id)
        (unset-first_time now e.seen_at),
    Hidden-others user id e l (and_left (e.id == id) (e.telegram_user_id == user) mine) d.0,
  )
  | inr other ↦ rw other (
    and_swap (e.id == id) (e.telegram_user_id == user) (unset e.seen_at) other,
    mark_rows-Hidden now user id l d.1,
  )
]

-- The list shows only events of the user that have no time of being seen, each with a time of
-- delivery, and at most 25 of them, and at most `limit` where that is 1 or more.
pub list_pending_events-IsShown :
    (catalog : List AchievementDefinition) (now : ℕ) (s : Store) (user limit : ℕ)
    → All (IsShown user) (list_pending_events catalog now s user limit).0
      × (length (list_pending_events catalog now s user limit).0 ≤ min (max limit 1) 25)
unfolding list_pending_events
list_pending_events-IsShown catalog now s user limit = (
  list_pending_events-All Whatever (IsShown user) catalog now s user limit
      (λ e h _. (h, unset-first_time now e.delivered_at)) (All-trivial s.events),
  omega (
    arith,
    length-where_ now (has_payload catalog s.unlocks) (page user limit s),
    length-limited (safe_limit limit) (in_order (where_ (is_pending user) s.events)),
  ),
)
