-- ===== src/Catalog/Marks.antt =====
-- The marks of an achievement event: `mark_seen`, `mark_shared` and `add_collection_update_event`
-- of app/repositories/achievements.py.
use chat_pulse.Prelude.{
  ℕ, ◌+◌, String, Bool, true, false, ◌&&◌, ◌≡◌, refl, Option, none, some, List, [], ◌∷◌, ◌++◌, ◌==◌,
  if◌then◌else◌, Bool-cases, inl, inr,
}
use chat_pulse.Catalog.Record.{Store, AchievementEventRecord, collection_update}

-- The two fields that `_mark_event` is called with.
pub data MarkField : Type 0 where
  seen shared : MarkField

-- A time that is set stays.
abbrev pub first_time : ℕ → Option ℕ → Option ℕ
first_time now none = some now
first_time now (some at) = some at

abbrev pub with_mark : MarkField → ℕ → AchievementEventRecord → AchievementEventRecord
with_mark seen now e = record e { seen_at = first_time now e.seen_at }
with_mark shared now e = record e { shared_at = first_time now e.shared_at }

abbrev pub is_event : ℕ → ℕ → AchievementEventRecord → Bool
is_event user id e = (e.id == id) && (e.telegram_user_id == user)

-- The row that the query finds is marked; the answer says whether there is one.
unfoldable pub mark_rows :
    MarkField → ℕ → ℕ → ℕ → List AchievementEventRecord → Bool × List AchievementEventRecord
mark_rows field now user id [] = (false, [])
mark_rows field now user id (e ∷ l) =
    let rest = mark_rows field now user id l in
    if is_event user id e then (true, with_mark field now e ∷ l) else (rest.0, e ∷ rest.1)

unfoldable pub mark_event : MarkField → ℕ → Store → ℕ → ℕ → Bool × Store
unfolding mark_rows
mark_event field now s user id =
    let marked = mark_rows field now user id s.events in (marked.0, record s { events = marked.1 })

abbrev pub mark_seen : ℕ → Store → ℕ → ℕ → Bool × Store
mark_seen = mark_event seen

abbrev pub mark_shared : ℕ → Store → ℕ → ℕ → Bool × Store
mark_shared = mark_event shared

-- `rarest_codes[:3]`
abbrev pub first_three : List String → List String
first_three [] = []
first_three (a ∷ []) = a ∷ []
first_three (a ∷ b ∷ []) = a ∷ b ∷ []
first_three (a ∷ b ∷ c ∷ l) = a ∷ b ∷ c ∷ []

-- `created_at or utc_now()`
abbrev pub created_or : ℕ → Option ℕ → ℕ
created_or now none = now
created_or now (some at) = at

-- `none` is the foreign key of the user; a count is never negative here.
unfoldable pub add_collection_update_event :
    ℕ → Store → ℕ → ℕ → List String → Option ℕ → Option Store
add_collection_update_event now s user count rarest_codes created_at =
    if s.has_user user
    then some record s {
      events =
          s.events
          ++ (record {
            id = s.next_event;
            telegram_user_id = user;
            achievement_unlock_id = none;
            event_type = collection_update;
            count = count;
            rarest_codes = first_three rarest_codes;
            created_at = created_or now created_at;
            delivered_at = none;
            seen_at = none;
            shared_at = none;
          }
              ∷ []);
      next_event = s.next_event + 1;
    }
    else none

first_time-again : (t now : ℕ) (o : Option ℕ) → first_time t (first_time now o) ≡ first_time now o
first_time-again t now none = refl
first_time-again t now (some at) = refl

with_mark-again :
    (field : MarkField) (t now : ℕ) (e : AchievementEventRecord)
    → with_mark field t (with_mark field now e) ≡ with_mark field now e
with_mark-again seen t now e = rw (first_time-again t now e.seen_at) refl
with_mark-again shared t now e = rw (first_time-again t now e.shared_at) refl

is_event-with_mark :
    (field : MarkField) (user id now : ℕ) (e : AchievementEventRecord)
    → is_event user id (with_mark field now e) ≡ is_event user id e
is_event-with_mark seen user id now e = refl
is_event-with_mark shared user id now e = refl

mark_rows-again :
    (field : MarkField) (t now user id : ℕ) (l : List AchievementEventRecord)
    → mark_rows field t user id (mark_rows field now user id l).1 ≡ mark_rows field now user id l
unfolding mark_rows
mark_rows-again field t now user id [] = refl
mark_rows-again field t now user id (e ∷ l) = elim (Bool-cases (is_event user id e)) [
  | inl mine ↦
      rw (mine, is_event-with_mark field user id now e, mine, with_mark-again field t now e) refl
  | inr other ↦ rw (other, other, mark_rows-again field t now user id l) refl
]

-- Marking an event a second time, at any later or earlier time, gives the same answer and changes
-- nothing: the time of the first mark stays.
mark_event-again :
    (field : MarkField) (t now : ℕ) (s : Store) (user id : ℕ)
    → mark_event field t (mark_event field now s user id).1 user id ≡ mark_event field now s user id
unfolding mark_event
mark_event-again field t now s user id = rw (mark_rows-again field t now user id s.events) refl
