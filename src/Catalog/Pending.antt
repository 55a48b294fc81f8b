-- ===== src/Catalog/Pending.antt =====
-- `list_pending_events` of app/repositories/achievements.py: the events that a user is yet to see.
-- What is shown of an event is given by its row; the dictionary made of it is display.
use chat_pulse.Prelude.{
  ℕ, zero, suc, min, max, Bool, true, false, ◌&&◌, ◌||◌, Option, none, some, List, [], ◌∷◌, map,
  ◌==◌, leb, ltb, if◌then◌else◌, find?, where_, any,
}
use chat_pulse.Catalog.{AchievementDefinition, achievement_by_code}
use chat_pulse.Catalog.Record.{
  Store, AchievementEventRecord, AchievementUnlockRecord, unlock, collection_update,
}
use chat_pulse.Catalog.Marks.{first_time}

abbrev pub unset : Option ℕ → Bool
unset none = true
unset (some at) = false

abbrev pub is_pending : ℕ → AchievementEventRecord → Bool
is_pending user e = (e.telegram_user_id == user) && unset e.seen_at

-- `ORDER BY created_at, id`
abbrev pub before : AchievementEventRecord → AchievementEventRecord → Bool
before a b = ltb a.created_at b.created_at || (a.created_at == b.created_at) && leb a.id b.id

abbrev pub put_in_order :
    AchievementEventRecord → List AchievementEventRecord → List AchievementEventRecord
put_in_order e [] = e ∷ []
put_in_order e (f ∷ l) = let rest = put_in_order e l in if before e f then e ∷ f ∷ l else f ∷ rest

abbrev pub in_order : List AchievementEventRecord → List AchievementEventRecord
in_order [] = []
in_order (e ∷ l) = put_in_order e (in_order l)

abbrev pub limited : ℕ → List AchievementEventRecord → List AchievementEventRecord
limited zero l = []
limited (suc n) [] = []
limited (suc n) (e ∷ l) = e ∷ limited n l

-- A limit below 0 is as 0 is.
abbrev pub safe_limit : ℕ → ℕ
safe_limit limit = min (max limit 1) 25

abbrev pub page : ℕ → ℕ → Store → List AchievementEventRecord
page user limit s = limited (safe_limit limit) (in_order (where_ (is_pending user) s.events))

abbrev pub delivered : ℕ → AchievementEventRecord → AchievementEventRecord
delivered now e = record e { delivered_at = first_time now e.delivered_at }

-- The outer join with the unlocks.
abbrev pub unlock_of : Option ℕ → List AchievementUnlockRecord → Option AchievementUnlockRecord
unlock_of none rows = none
unlock_of (some id) rows = find? (λ u. u.id == id) rows

abbrev pub is_known : List AchievementDefinition → Option AchievementUnlockRecord → Bool
is_known catalog none = false
is_known catalog (some u) = elim (achievement_by_code catalog u.achievement_code) [
  | none ↦ false
  | some d ↦ true
]

-- Where `_event_payload` is not None.
abbrev pub has_payload :
    List AchievementDefinition → List AchievementUnlockRecord → AchievementEventRecord → Bool
has_payload catalog rows e = elim e.event_type [
  | collection_update ↦ true
  | unlock ↦ is_known catalog (unlock_of e.achievement_unlock_id rows)
]

-- The rows of the page are written back with their time of delivery.
abbrev pub deliver_rows :
    ℕ → List AchievementEventRecord → List AchievementEventRecord → List AchievementEventRecord
deliver_rows now shown [] = []
deliver_rows now shown (e ∷ l) =
    (if any (λ p. p.id == e.id) shown then delivered now e else e) ∷ deliver_rows now shown l

unfoldable pub list_pending_events :
    List AchievementDefinition → ℕ → Store → ℕ → ℕ → List AchievementEventRecord × Store
list_pending_events catalog now s user limit =
    let shown = page user limit s in
    (
      where_ (has_payload catalog s.unlocks) (map (delivered now) shown),
      record s { events = deliver_rows now shown s.events },
    )
