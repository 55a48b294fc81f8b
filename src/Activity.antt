-- ===== src/Activity.antt =====
-- app/repositories/activity/writes.py and shared.py: what a message and a reaction count.
pub mod Recount
pub mod Writes
pub mod Counts
pub mod Authors
mod Tests
use chat_pulse.Prelude.{
  ℕ, ◌+◌, ◌-◌, String, Bool, true, false, not, ◌&&◌, ◌||◌, Option, none, some, List, [], ◌∷◌, Table,
  Table2, Table3, put2, put3, get_or, is_some, ltb, leb, ◌==◌, str_eq, if◌then◌else◌, length,
}
use chat_pulse.Antispam.{MessageActivity}

-- `COUNTER_FIELDS`, the counters that a member and a day of a member have.
pub record Counters : Type 0 where
  pub messages_count : ℕ
  pub media_count : ℕ
  pub replies_count : ℕ
  pub reactions_received : ℕ
  pub photo_count : ℕ
  pub voice_count : ℕ
  pub night_messages_count : ℕ
  pub morning_messages_count : ℕ

abbrev pub no_counts : Counters
no_counts = record {
  messages_count = 0;
  media_count = 0;
  replies_count = 0;
  reactions_received = 0;
  photo_count = 0;
  voice_count = 0;
  night_messages_count = 0;
  morning_messages_count = 0;
}

pub record ChatGroup : Type 0 where
  pub timezone : String
  pub is_active : Bool
  pub is_paused : Bool
  pub track_messages : Bool
  pub track_media : Bool
  pub track_replies : Bool
  pub track_reactions : Bool

pub record UserData : Type 0 where
  pub telegram_id : ℕ
  pub display_name : String
  pub username : Option String

pub record GroupMember : Type 0 where
  pub display_name : String
  pub username : Option String
  pub counters : Counters
  pub first_seen_at : ℕ
  pub last_seen_at : ℕ

pub record MessageAuthor : Type 0 where
  pub telegram_user_id : ℕ
  pub created_at : ℕ

-- `emoji` is `DailyReactionEmoji`, by chat, day and key, and `states` the rows of
-- `MessageReactionState`, by chat and message: the emoji keys with their counts.
pub record Store : Type 0 where
  pub groups : Table ChatGroup
  pub members : Table2 GroupMember
  pub daily : Table3 Counters
  pub authors : Table2 MessageAuthor
  pub emoji : ℕ → ℕ → String → Option ℕ
  pub states : ℕ → ℕ → List (String × ℕ)

-- `ZoneInfo`: the date and the hour of an instant in a time zone.
pub record Zone : Type 0 where
  pub local_date : String → ℕ → ℕ
  pub local_hour : String → ℕ → ℕ

abbrev pub int : Bool → ℕ
int b = if b then 1 else 0

-- What a message adds to the counters of its author, and of the author's day.
unfoldable pub counted : ChatGroup → MessageActivity → ℕ → Counters → Counters
counted g a hour c = record c {
  messages_count = c.messages_count + int g.track_messages;
  media_count = c.media_count + int (a.is_media && g.track_media);
  replies_count = c.replies_count + int (a.is_reply && g.track_replies);
  photo_count = c.photo_count + int (a.is_photo && g.track_media);
  voice_count = c.voice_count + int (a.is_voice && g.track_media);
  night_messages_count = c.night_messages_count + int (g.track_messages && ltb hour 6);
  morning_messages_count =
      c.morning_messages_count + int (g.track_messages && (leb 6 hour && ltb hour 10));
}

-- Whether anything of the message is tracked.
abbrev pub is_tracked : ChatGroup → MessageActivity → Bool
is_tracked g a =
    g.track_messages || ((a.is_media && g.track_media) || (a.is_reply && g.track_replies))

-- `_get_or_create_member`
unfoldable pub member_or_new : Option GroupMember → UserData → ℕ → GroupMember
member_or_new none user timestamp = record {
  display_name = user.display_name;
  username = user.username;
  counters = no_counts;
  first_seen_at = timestamp;
  last_seen_at = timestamp;
}
member_or_new (some m) user timestamp = record m {
  display_name = user.display_name;
  username = user.username;
}

-- The author's row, unless there is one.
abbrev pub author_or_new : Option MessageAuthor → ℕ → ℕ → MessageAuthor
author_or_new none user timestamp = record { telegram_user_id = user; created_at = timestamp }
author_or_new (some a) user timestamp = a

abbrev pub with_author : Table2 MessageAuthor → ℕ → Option ℕ → ℕ → ℕ → Table2 MessageAuthor
with_author t chat_id none user timestamp = t
with_author t chat_id (some message_id) user timestamp =
    put2 t chat_id message_id (author_or_new (t chat_id message_id) user timestamp)

-- The writes of a message that is tracked.
unfoldable pub write_message :
    Zone → Store → ℕ → ChatGroup → UserData → MessageActivity → ℕ → Option ℕ → Store
unfolding member_or_new counted
write_message z s chat_id g user activity timestamp message_id =
    let date = z.local_date g.timezone timestamp in
    let hour = z.local_hour g.timezone timestamp in
    let member = member_or_new (s.members chat_id user.telegram_id) user timestamp in
    let daily = get_or (s.daily chat_id user.telegram_id date) no_counts in
    record s {
      members = put2 s.members chat_id user.telegram_id record member {
        counters = counted g activity hour member.counters;
        last_seen_at = timestamp;
      };
      daily = put3 s.daily chat_id user.telegram_id date (counted g activity hour daily);
      authors = with_author s.authors chat_id message_id user.telegram_id timestamp;
    }

-- `group is None or not group.is_active or group.is_paused`
abbrev pub is_open : ChatGroup → Bool
is_open g = g.is_active && not g.is_paused

unfoldable pub record_from :
    Zone → Store → Option ChatGroup → ℕ → UserData → MessageActivity → ℕ → Option ℕ → Store × Bool
unfolding write_message
record_from z s none chat_id user activity timestamp message_id = (s, false)
record_from z s (some g) chat_id user activity timestamp message_id =
    if is_open g && is_tracked g activity
    then (write_message z s chat_id g user activity timestamp message_id, true)
    else (s, false)

-- `record_message_in_session`, but for the user's own row (`_upsert_user`: names and times).
unfoldable pub record_message :
    Zone → Store → ℕ → UserData → MessageActivity → ℕ → Option ℕ → Store × Bool
unfolding record_from
record_message z s chat_id user activity timestamp message_id =
    record_from z s (s.groups chat_id) chat_id user activity timestamp message_id

-- `max(0, count + delta)` where `delta` is the difference of two counts.
abbrev pub moved : ℕ → ℕ → ℕ → ℕ
moved count new old = count + new - old

-- `Counter(reactions)[key]`
abbrev pub count_of : String → List String → ℕ
count_of key [] = 0
count_of key (r ∷ l) = if str_eq r key then 1 + count_of key l else count_of key l

-- The row of an emoji on a day: a missing row is made by a rise only.
abbrev pub emoji_after : Option ℕ → ℕ → ℕ → Option ℕ
emoji_after none new old = if ltb old new then some (new - old) else none
emoji_after (some count) new old = some (moved count new old)

abbrev pub reacted : List String → List String → Counters → Counters
reacted old new c = record c {
  reactions_received = moved c.reactions_received (length new) (length old);
}

-- The writes of a reaction to a known message. Each key of the two counters is visited once, and a
-- key of neither has no difference, so the loop is written key by key.
unfoldable pub write_reaction : Store → ℕ → ℕ → GroupMember → ℕ → List String → List String → Store
write_reaction s chat_id user m date old new = record s {
  members = put2 s.members chat_id user record m { counters = reacted old new m.counters };
  daily =
      put3 s.daily chat_id user date
        (reacted old new (get_or (s.daily chat_id user date) no_counts));
  emoji = λ c d key.
      if (c == chat_id) && (d == date)
      then emoji_after (s.emoji c d key) (count_of key new) (count_of key old)
      else s.emoji c d key;
}

unfoldable pub react_by :
    Zone
    → Store
    → ChatGroup
    → ℕ
    → ℕ
    → Option GroupMember
    → List String
    → List String
    → ℕ
    → Store × Bool
unfolding write_reaction
react_by z s g chat_id user none old new timestamp = (s, false)
react_by z s g chat_id user (some m) old new timestamp =
    (write_reaction s chat_id user m (z.local_date g.timezone timestamp) old new, true)

unfoldable pub react_to :
    Zone
    → Store
    → ChatGroup
    → ℕ
    → Option MessageAuthor
    → List String
    → List String
    → ℕ
    → Store × Bool
unfolding react_by
react_to z s g chat_id none old new timestamp = (s, false)
react_to z s g chat_id (some a) old new timestamp =
    react_by z s g chat_id a.telegram_user_id (s.members chat_id a.telegram_user_id) old new
      timestamp

unfoldable pub react_in :
    Zone → Store → Option ChatGroup → ℕ → ℕ → List String → List String → ℕ → Store × Bool
unfolding react_to
react_in z s none chat_id message_id old new timestamp = (s, false)
react_in z s (some g) chat_id message_id old new timestamp =
    if is_open g && g.track_reactions
    then react_to z s g chat_id (s.authors chat_id message_id) old new timestamp
    else (s, false)

-- `record_reaction_in_session`
unfoldable pub record_reaction : Zone → Store → ℕ → ℕ → List String → List String → ℕ → Store × Bool
unfolding react_in
record_reaction z s chat_id message_id old new timestamp =
    react_in z s (s.groups chat_id) chat_id message_id old new timestamp
