-- ===== src/Activity/Tests.antt =====
-- Runs and witnesses for the counters.
use chat_pulse.Prelude.{
  ◌≡◌, refl, true, false, none, some, List, [], ◌∷◌, ltb, arith, if◌then◌else◌,
}
use chat_pulse.Antispam.{MessageActivity}
use chat_pulse.Activity.{
  ChatGroup, UserData, Store, Zone, counted, member_or_new, write_message, record_from,
  record_message, write_reaction, react_by, react_to, react_in, record_reaction,
}
use chat_pulse.Activity.Writes.{Write, message, reaction, counts, settings, reset, write_all}
use chat_pulse.Activity.Recount.{
  record_reaction_count, write_reaction_count, recount_by, recount_to, recount_in,
}
use chat_pulse.Activity.Counts.{DayParts, write_all-DayParts}
use chat_pulse.Activity.Authors.{author_stays}

abbrev zone : Zone
zone = record { local_date = λ _ t. 0; local_hour = λ _ t. t }

abbrev group : ChatGroup
group = record {
  timezone = "Europe/Kyiv";
  is_active = true;
  is_paused = false;
  track_messages = true;
  track_media = true;
  track_replies = true;
  track_reactions = true;
}

abbrev ann : UserData
ann = record { telegram_id = 1; display_name = "Ann"; username = none }

abbrev bob : UserData
bob = record { telegram_id = 2; display_name = "Bob"; username = none }

abbrev photo : MessageActivity
photo = record {
  is_media = true;
  is_reply = false;
  is_photo = true;
  is_voice = false;
  content_length = 0;
  content_fingerprint = none;
  content_simhash = none;
  has_qualifying_text = false;
}

abbrev s : Store
s = record {
  groups = λ c. some group;
  members = λ c u. none;
  daily = λ c u d. none;
  authors = λ c m. if ltb m 5 then some record { telegram_user_id = 1; created_at = 0 } else none;
  emoji = λ c d k. none;
  states = λ c i. [];
}

-- Ann at three, Bob at eight under an id of Ann's, reactions to it, one by one and then as counts,
-- the reset of another group, and a message in a paused group.
abbrev writes : List Write
writes =
    message 9 ann photo 3 (some 7)
    ∷ message 9 bob photo 8 (some 4)
    ∷ reaction 9 4 [] ("fire" ∷ "fire" ∷ []) 9
    ∷ counts 9 4 (("fire", 1) ∷ ("heart", 2) ∷ []) 9
    ∷ reset 8
    ∷ settings 9 record group { is_paused = true }
    ∷ message 9 ann photo 10 none
    ∷ []

write_all-run :
    let s' = write_all zone s writes in
    (s'.emoji 9 0 "fire" ≡ some 3)
    × (s'.states 9 4 ≡ ("fire", 1) ∷ ("heart", 2) ∷ [])
    × (s'.authors 9 7 ≡ some record { telegram_user_id = 1; created_at = 3 })
unfolding record_message record_from write_message counted member_or_new record_reaction react_in
    react_to react_by write_reaction record_reaction_count recount_in recount_to recount_by
    write_reaction_count
write_all-run = (refl, refl, refl)

write_all-DayParts_example : DayParts (write_all zone s writes)
write_all-DayParts_example =
    write_all-DayParts zone s writes
      (record { of_member = λ c u. omega arith; of_day = λ c u d. omega arith })

author_stays_example :
    let later = write_all zone s writes in
    (later.authors 9 4 ≡ some record { telegram_user_id = 1; created_at = 0 })
    × ((record_reaction zone later 9 4 [] ("fire" ∷ []) 12).0.members 9 2 ≡ later.members 9 2)
    × ((record_reaction_count zone later 9 4 (("fire", 5) ∷ []) 12).0.members 9 2
        ≡ later.members 9 2)
author_stays_example =
    author_stays zone s writes 9 4 (record { telegram_user_id = 1; created_at = 0 }) []
      ("fire" ∷ []) (("fire", 5) ∷ []) 12 9 2 refl refl refl
