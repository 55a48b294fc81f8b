-- ===== src/Xp/Tests.antt =====
-- Runs and witnesses for the XP pipeline.
use chat_pulse.Prelude.{
  ℕ, ◌+◌, ◌-◌, ◌*◌, ◌/◌, ◌%◌, ◌≡◌, refl, true, false, none, some, [], ◌∷◌, arith, min,
}
use chat_pulse.Prelude.Int.{pos}
use chat_pulse.Levels.{xp_threshold_for_level, climb, descend, level_for_xp}
use chat_pulse.Antispam.{
  MessageActivity, message_base_xp, burst_multiplier, adjusted_message_xp, near,
}
use chat_pulse.Xp.Store.{Env, ChatGroup, User, GroupMember, MessageAuthor, Store, second, author_of}
use chat_pulse.Xp.Pay.{lock_from, lock_xp_context, group_award_of, apply_xp}
use chat_pulse.Xp.Message.{
  in_window, insert_newest, newest_first, recent_messages, cooling, exact_duplicate, near_duplicate,
  duplicate_of, requested_xp_of, awarded, award_in_context, award_from, award_message_xp,
}
use chat_pulse.Xp.Caps.{CapsHold, award_message_xp-CapsHold}
use chat_pulse.Xp.Accounts.{MemberInSync, UserInSync, apply_xp_accounts}
use chat_pulse.Xp.Retry.{award_message_xp-again}

-- Days of UTC, and months of thirty days.
abbrev env : Env
env = record {
  estimate = λ x. 1;
  local_date = λ _ t. t / 86400000000;
  month_start = λ d. d - d % 30;
}

abbrev group : ChatGroup
group = record {
  telegram_chat_id = 7;
  timezone = "Europe/Kyiv";
  report_card_theme = "classic";
  report_hour = 20;
  report_minute = 0;
}

abbrev ann : User
ann = record { telegram_id = 3; global_xp_total = 0; global_level = 1 }

abbrev member : GroupMember
member = record {
  telegram_chat_id = 7;
  telegram_user_id = 3;
  messages_count = 2;
  media_count = 0;
  night_messages_count = 0;
  morning_messages_count = 0;
  reactions_received = 0;
  replies_count = 0;
  photo_count = 0;
  voice_count = 0;
  xp_total = 0;
  level = 1;
  streak = record { current_streak = 0; longest_streak = 0; last_streak_date = none };
}

abbrev message : ℕ → ℕ → ℕ → MessageAuthor
message id xp at = record {
  telegram_chat_id = 7;
  message_id = id;
  telegram_user_id = 3;
  content_fingerprint = none;
  content_simhash = none;
  content_length = 0;
  xp_awarded = xp;
  reactions_count = 0;
  created_at = at;
}

-- One message that earned an XP at twenty seconds, and a new one.
abbrev s : Store
s = record {
  groups = λ c. some group;
  users = λ u. some ann;
  members = λ c u. some member;
  authors = message 1 1 (20 * second) ∷ message 2 0 (60 * second) ∷ [];
  daily = λ c u d. none;
  global_daily = λ u d. none;
  usage = λ c u m. none;
  earned = [];
}

-- A text of forty characters with a photo.
abbrev activity : MessageActivity
activity = record {
  is_media = true;
  is_reply = false;
  is_photo = true;
  is_voice = false;
  content_length = 40;
  content_fingerprint = some "f";
  content_simhash = some 12;
  has_qualifying_text = true;
}

award_message_xp_run : (award_message_xp env s 7 3 2 activity (60 * second)).1.group_xp_awarded ≡ 3
unfolding award_message_xp award_from award_in_context awarded apply_xp lock_xp_context lock_from
    author_of requested_xp_of recent_messages newest_first insert_newest in_window cooling
    duplicate_of exact_duplicate near_duplicate group_award_of adjusted_message_xp message_base_xp
    burst_multiplier near
award_message_xp_run = refl

award_message_xp-again_example :
    let s' = (award_message_xp env s 7 3 2 activity (60 * second)).0 in
    let (s'', update) = award_message_xp env s' 7 3 2 activity (90 * second) in
    (s'' ≡ s') × (update.group_xp_awarded ≡ 0) × (update.global_xp_awarded ≡ 0)
award_message_xp-again_example =
    award_message_xp-again env s 7 3 2 activity activity (60 * second) (90 * second)
      (omega (arith, award_message_xp_run))

abbrev nothing_yet : CapsHold s
nothing_yet = record { in_group = λ c u d. omega arith; overall = λ u d. omega arith }

award_message_xp-CapsHold_example : CapsHold (award_message_xp env s 7 3 2 activity (60 * second)).0
award_message_xp-CapsHold_example =
    award_message_xp-CapsHold env s 7 3 2 activity (60 * second) nothing_yet

level_one : 1 ≡ level_for_xp env.estimate (pos 0)
unfolding level_for_xp climb descend xp_threshold_for_level
level_one = refl

apply_xp_accounts_example :
    let (s', update) = apply_xp env s group member ann 250 (60 * second) in
    (update.group_xp_awarded ≡ min 250 (200 - 0))
    × (update.global_xp_awarded ≡ min update.group_xp_awarded (400 - 0))
    × (s'.daily 7 3 (env.local_date group.timezone (60 * second))
        ≡ some (0 + update.group_xp_awarded))
    × (s'.global_daily 3 (60 * second / 86400000000) ≡ some (0 + update.global_xp_awarded))
    × (m' : GroupMember) × (s'.members 7 3 ≡ some m')
    × (m'.xp_total ≡ 0 + update.group_xp_awarded)
    × MemberInSync env m'
    × (update.new_group_level ≡ m'.level)
    × (u' : User) × (s'.users 3 ≡ some u')
    × (u'.global_xp_total ≡ 0 + update.global_xp_awarded)
    × UserInSync env u'
    × (update.new_global_level ≡ u'.global_level)
apply_xp_accounts_example =
    apply_xp_accounts env s group member ann 250 (60 * second) level_one level_one
