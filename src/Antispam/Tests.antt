-- ===== src/Antispam/Tests.antt =====
-- Runs and witnesses for the XP of messages.
use chat_pulse.Prelude.{◌≡◌, refl, true, false, none, some, [], ◌∷◌}
use chat_pulse.Antispam.{
  MessageActivity, bits, bit_count, hamming_distance, near, is_near_duplicate,
}

-- A reply with a photo and text.
abbrev photo_reply : MessageActivity
photo_reply = record {
  is_media = true;
  is_reply = true;
  is_photo = true;
  is_voice = false;
  content_length = 40;
  content_fingerprint = some "f";
  content_simhash = some 12;
  has_qualifying_text = true;
}

is_near_duplicate_run : is_near_duplicate (some 12) (none ∷ some 1023 ∷ some 9 ∷ []) ≡ true
unfolding is_near_duplicate near hamming_distance bit_count bits
is_near_duplicate_run = refl

is_near_duplicate_far : is_near_duplicate (some 0) (some 15 ∷ []) ≡ false
unfolding is_near_duplicate near hamming_distance bit_count bits
is_near_duplicate_far = refl
