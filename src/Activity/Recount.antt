-- ===== src/Activity/Recount.antt =====
-- record_reaction_count_in_session of app/repositories/activity/writes.py, for reactions that come as
-- counts, and reset_group_stats of app/repositories/activity/settings.py.
use chat_pulse.Prelude.{
  ℕ, ◌+◌, String, Bool, true, false, ◌&&◌, Option, none, some, List, [], ◌∷◌, put2, put3, get_or,
  where_, ltb, ◌==◌, str_eq, if◌then◌else◌,
}
use chat_pulse.Activity.{
  Counters, no_counts, ChatGroup, GroupMember, MessageAuthor, Store, Zone, moved, emoji_after,
  is_open,
}

-- `sum(counts.values())` and `counts.get(key, 0)`, of a dictionary as its items.
abbrev pub sum_of : List (String × ℕ) → ℕ
sum_of [] = 0
sum_of (r ∷ l) = r.1 + sum_of l

abbrev pub value_of : String → List (String × ℕ) → ℕ
value_of key [] = 0
value_of key (r ∷ l) = if str_eq r.0 key then r.1 else value_of key l

abbrev pub recounted : List (String × ℕ) → List (String × ℕ) → Counters → Counters
recounted old new c = record c {
  reactions_received = moved c.reactions_received (sum_of new) (sum_of old);
}

-- The writes, key by key as in `write_reaction`. The rows of the message's state are then those of
-- the counts that are not 0.
unfoldable pub write_reaction_count :
    Store → ℕ → ℕ → ℕ → GroupMember → ℕ → List (String × ℕ) → Store
write_reaction_count s chat_id message_id user m date counts =
    let old = s.states chat_id message_id in
    record s {
      members = put2 s.members chat_id user record m { counters = recounted old counts m.counters };
      daily =
          put3 s.daily chat_id user date
            (recounted old counts (get_or (s.daily chat_id user date) no_counts));
      emoji = λ c d key.
          if (c == chat_id) && (d == date)
          then emoji_after (s.emoji c d key) (value_of key counts) (value_of key old)
          else s.emoji c d key;
      states = λ c i.
          if (c == chat_id) && (i == message_id)
          then where_ (λ r. ltb 0 r.1) counts
          else s.states c i;
    }

unfoldable pub recount_by :
    Zone → Store → ChatGroup → ℕ → ℕ → ℕ → Option GroupMember → List (String × ℕ) → ℕ → Store × Bool
unfolding write_reaction_count
recount_by z s g chat_id message_id user none counts timestamp = (s, false)
recount_by z s g chat_id message_id user (some m) counts timestamp = (
  write_reaction_count s chat_id message_id user m (z.local_date g.timezone timestamp) counts,
  true,
)

unfoldable pub recount_to :
    Zone → Store → ChatGroup → ℕ → ℕ → Option MessageAuthor → List (String × ℕ) → ℕ → Store × Bool
unfolding recount_by
recount_to z s g chat_id message_id none counts timestamp = (s, false)
recount_to z s g chat_id message_id (some a) counts timestamp =
    recount_by z s g chat_id message_id a.telegram_user_id (s.members chat_id a.telegram_user_id)
      counts timestamp

unfoldable pub recount_in :
    Zone → Store → Option ChatGroup → ℕ → ℕ → List (String × ℕ) → ℕ → Store × Bool
unfolding recount_to
recount_in z s none chat_id message_id counts timestamp = (s, false)
recount_in z s (some g) chat_id message_id counts timestamp =
    if is_open g && g.track_reactions
    then recount_to z s g chat_id message_id (s.authors chat_id message_id) counts timestamp
    else (s, false)

-- `record_reaction_count_in_session`
unfoldable pub record_reaction_count : Zone → Store → ℕ → ℕ → List (String × ℕ) → ℕ → Store × Bool
unfolding recount_in
record_reaction_count z s chat_id message_id counts timestamp =
    recount_in z s (s.groups chat_id) chat_id message_id counts timestamp

-- `reset_group_stats`: the rows of the chat are deleted from the five tables.
abbrev pub reset_group_stats : Store → ℕ → Store
reset_group_stats s chat_id = record s {
  emoji = λ c d key. if c == chat_id then none else s.emoji c d key;
  states = λ c i. if c == chat_id then [] else s.states c i;
  authors = λ c i. if c == chat_id then none else s.authors c i;
  daily = λ c u d. if c == chat_id then none else s.daily c u d;
  members = λ c u. if c == chat_id then none else s.members c u;
}
