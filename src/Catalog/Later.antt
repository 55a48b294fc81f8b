-- ===== src/Catalog/Later.antt =====
-- An event of app/repositories/achievements.py that was marked as seen, through whatever is written
-- after that.
use chat_pulse.Prelude.{
  ℕ, ◌≤◌, ◌<◌, min, max, Bool, true, false, ◌&&◌, ◌≡◌, List, [], ◌∷◌, ◌==◌, All, length, Bool-cases,
  inl, inr, arith,
}
use chat_pulse.Catalog.{AchievementDefinition}
use chat_pulse.Catalog.Record.{Store, AchievementEventRecord}
use chat_pulse.Catalog.Marks.{seen, is_event, mark_rows, mark_event, mark_seen}
use chat_pulse.Catalog.Pending.{is_pending, list_pending_events}
use chat_pulse.Catalog.Seen.{
  IsShown, DistinctIds, Hidden, mark_rows-Hidden, list_pending_events-All,
  list_pending_events-IsShown,
}
use chat_pulse.Catalog.EventWrites.{EventWrite, event_writes, Gone, event_writes-Gone}

-- Every number in the table was given out.
abbrev pub Below : ℕ → List AchievementEventRecord → Type 0
Below next = All (λ e. e.id < next)

marked-Below :
    (now user id next : ℕ) (l : List AchievementEventRecord)
    → Below next l
    → (mark_rows seen now user id l).0 ≡ true
    → id < next
unfolding mark_rows
marked-Below now user id next [] hs there = absurd (cc)
marked-Below now user id next (e ∷ l) hs there = elim (Bool-cases (is_event user id e)) [
  | inl mine ↦ let below = hs.0 in ground (arith, below, mine)
  | inr other ↦ marked-Below now user id next l hs.1 (rw other at there)
]

cleared : (a b : Bool) → a ≡ true → (a && b) ≡ false → b ≡ false
cleared true b h k = k
cleared false b h k = absurd (cc)

-- Where the numbers of the table are distinct and were all given out, an event that a user has
-- marked as seen is never listed to that user again. Whatever is marked, listed and recorded by
-- whomever after that, a list shows events of the user only, at most 25 and none of them seen, and
-- none of them has the number that was marked.
pub mark_seen-list_pending_events :
    (catalog : List AchievementDefinition) (at now : ℕ) (s : Store) (user id limit : ℕ)
    (l : List EventWrite)
    → DistinctIds s.events
    → Below s.next_event s.events
    → (mark_seen at s user id).0 ≡ true
    → let later = event_writes (mark_seen at s user id).1 l in
      let listed = (list_pending_events catalog now later user limit).0 in
      All (IsShown user) listed
      × All (λ e. (e.id == id) ≡ false) listed
      × (length listed ≤ min (max limit 1) 25)
unfolding mark_event
mark_seen-list_pending_events catalog at now s user id limit l d below there =
    let later = event_writes (mark_seen at s user id).1 l in
    let shown = list_pending_events-IsShown catalog now later user limit in
    let gone : Gone user id later = event_writes-Gone user id (mark_seen at s user id).1 l (record {
      hidden = mark_rows-Hidden at user id s.events d;
      taken = marked-Below at user id s.next_event s.events below there;
    }) in
    (
      shown.0,
      list_pending_events-All (Hidden user id) (λ e. (e.id == id) ≡ false) catalog now later user
          limit (λ e h k. cleared (is_pending user e) (e.id == id) h k) gone.hidden,
      shown.1,
    )
