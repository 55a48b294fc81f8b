-- ===== src/Activity/Counts.antt =====
-- What the counters keep, over any sequence of messages, reactions, settings and resets.
use mathlib.Core.Path.{subst}
use chat_pulse.Prelude.{
  ℕ, ◌+◌, ◌≤◌, ◌≡◌, refl, Bool, true, false, Option, none, some, List, [], ◌∷◌, get_or, ◌==◌,
  if◌then◌else◌, arith,
}
use chat_pulse.Antispam.{MessageActivity}
use chat_pulse.Activity.Recount.{write_reaction_count}
use chat_pulse.Activity.{
  Counters, no_counts, ChatGroup, UserData, GroupMember, Store, Zone, counted, member_or_new,
  write_message, write_reaction,
}
use chat_pulse.Activity.Writes.{
  Write, message, reaction, counts, settings, reset, write_all, resets_only, Keeps, write_all-Keeps,
}

any_chat : ℕ → Bool
any_chat chat = true

resets_any : (l : List Write) → resets_only any_chat l ≡ true
unfolding any_chat
resets_any [] = refl
resets_any (reset chat ∷ l) = resets_any l
resets_any (message chat user a at id ∷ l) = resets_any l
resets_any (reaction chat id old new at ∷ l) = resets_any l
resets_any (counts chat id new at ∷ l) = resets_any l
resets_any (settings chat g ∷ l) = resets_any l

-- Night and morning messages are different messages, and each of them is counted as one.
abbrev pub PartsFit : Counters → Type 0
PartsFit c = c.night_messages_count + c.morning_messages_count ≤ c.messages_count

abbrev counters_of : Option GroupMember → Counters
counters_of none = no_counts
counters_of (some m) = m.counters

-- So it is for every member, and for every day of a member.
pub record DayParts (s : Store) : Type 0 where
  pub of_member : (chat user : ℕ) → PartsFit (counters_of (s.members chat user))
  pub of_day : (chat user date : ℕ) → PartsFit (get_or (s.daily chat user date) no_counts)

counted-PartsFit :
    (g : ChatGroup) (a : MessageActivity) (hour : ℕ) (c : Counters)
    → PartsFit c
    → PartsFit (counted g a hour c)
unfolding counted
counted-PartsFit g a hour c h = ground (arith, h)

new-PartsFit :
    (o : Option GroupMember) (user : UserData) (at : ℕ)
    → PartsFit (counters_of o)
    → PartsFit (member_or_new o user at).counters
unfolding member_or_new
new-PartsFit none user at h = h
new-PartsFit (some m) user at h = h

picked_member :
    (b : Bool) (m : GroupMember) (o : Option GroupMember)
    → PartsFit m.counters
    → PartsFit (counters_of o)
    → PartsFit (counters_of (if b then some m else o))
picked_member true m o new old = new
picked_member false m o new old = old

picked_day :
    (b : Bool) (c : Counters) (o : Option Counters)
    → PartsFit c
    → PartsFit (get_or o no_counts)
    → PartsFit (get_or (if b then some c else o) no_counts)
picked_day true c o new old = new
picked_day false c o new old = old

emptied_member :
    (b : Bool) (o : Option GroupMember)
    → PartsFit (counters_of o)
    → PartsFit (counters_of (if b then none else o))
emptied_member true o h = omega arith
emptied_member false o h = h

emptied_day :
    (b : Bool) (o : Option Counters)
    → PartsFit (get_or o no_counts)
    → PartsFit (get_or (if b then none else o) no_counts)
emptied_day true o h = omega arith
emptied_day false o h = h

DayParts-Keeps : (z : Zone) → Keeps z any_chat DayParts
unfolding write_message write_reaction write_reaction_count
DayParts-Keeps z = record {
  by_message = λ s chat g user a at id h. record {
    of_member = λ c u.
        picked_member _ _ (s.members c u)
          (counted-PartsFit g a (z.local_hour g.timezone at)
            (member_or_new (s.members chat user.telegram_id) user at).counters
            (new-PartsFit (s.members chat user.telegram_id) user at
              (h.of_member chat user.telegram_id)))
          (h.of_member c u);
    of_day = λ c u d.
        picked_day _ _ (s.daily c u d)
          (counted-PartsFit g a (z.local_hour g.timezone at)
            (get_or (s.daily chat user.telegram_id (z.local_date g.timezone at)) no_counts)
            (h.of_day chat user.telegram_id (z.local_date g.timezone at)))
          (h.of_day c u d);
  };
  by_reaction = λ s chat user m date old new e h. record {
    of_member = λ c u.
        picked_member _ _ (s.members c u)
          (subst (λ o. PartsFit (counters_of o)) e (h.of_member chat user)) (h.of_member c u);
    of_day = λ c u d. picked_day _ _ (s.daily c u d) (h.of_day chat user date) (h.of_day c u d);
  };
  by_counts = λ s chat id user m date new e h. record {
    of_member = λ c u.
        picked_member _ _ (s.members c u)
          (subst (λ o. PartsFit (counters_of o)) e (h.of_member chat user)) (h.of_member c u);
    of_day = λ c u d. picked_day _ _ (s.daily c u d) (h.of_day chat user date) (h.of_day c u d);
  };
  by_reset = λ s chat _ h. record {
    of_member = λ c u. emptied_member (c == chat) (s.members c u) (h.of_member c u);
    of_day = λ c u d. emptied_day (c == chat) (s.daily c u d) (h.of_day c u d);
  };
  by_settings = λ s chat g h. record { of_member = h.of_member; of_day = h.of_day };
}

-- Whatever messages and reactions are written, one by one or as counts, under whatever settings and
-- with whatever resets, the night and the morning
-- messages of a member, and of each day of a member, together are never more than the messages.
pub write_all-DayParts :
    (z : Zone) (s : Store) (l : List Write) → DayParts s → DayParts (write_all z s l)
write_all-DayParts z s l h =
    write_all-Keeps z any_chat DayParts s l (DayParts-Keeps z) (resets_any l) h
