-- ===== src/Antispam.antt =====
-- What a message is worth before the daily caps: app/services/gamification.py, and
-- `MessageActivity` of app/domain.py.
pub mod Worth
mod Tests
use chat_pulse.Prelude.{
  ℕ, zero, suc, ◌+◌, ◌*◌, ◌/◌, ◌%◌, max, bit_xor, String, Bool, true, false, ◌&&◌, ◌||◌, Option,
  none, some, List, any, ltb, leb, ◌==◌, if◌then◌else◌,
}

pub record MessageActivity : Type 0 where
  pub is_media : Bool
  pub is_reply : Bool
  pub is_photo : Bool
  pub is_voice : Bool
  pub content_length : ℕ
  pub content_fingerprint : Option String
  pub content_simhash : Option ℕ
  pub has_qualifying_text : Bool

unfoldable pub message_base_xp : MessageActivity → ℕ
message_base_xp activity =
    let text_xp : ℕ = if activity.has_qualifying_text then 1 else 0 in
    let media_xp : ℕ = if activity.is_photo || activity.is_voice then 2 else 0 in
    let reply_xp : ℕ =
      if activity.is_reply && (activity.has_qualifying_text || ltb 0 media_xp) then 2 else 0 in
    text_xp + media_xp + reply_xp

-- The multiplier in quarters: 1.0, 0.5, 0.25 and 0.0.
unfoldable pub burst_multiplier : ℕ → ℕ
burst_multiplier recent_messages =
    if leb recent_messages 20
    then 4
    else if leb recent_messages 30
    then 2
    else if leb recent_messages 40
    then 1
    else 0

-- `math.floor(base_xp * multiplier)` is exact in floats at these multipliers.
unfoldable pub adjusted_message_xp : ℕ → ℕ → ℕ
unfolding burst_multiplier
adjusted_message_xp base_xp recent_messages =
    let multiplier = burst_multiplier recent_messages in
    if base_xp == 0 then 0 else if multiplier == 0 then 0 else max 1 (base_xp * multiplier / 4)

-- `int.bit_count`. The fuel `n` for a number `n` is enough: it halves.
bits : ℕ → ℕ → ℕ
bits zero n = 0
bits (suc fuel) n = let rest = bits fuel (n / 2) in if n == 0 then 0 else n % 2 + rest

pub bit_count : ℕ → ℕ
unfolding bits
bit_count n = bits n n

pub hamming_distance : ℕ → ℕ → ℕ
unfolding bit_count
hamming_distance left right = bit_count (bit_xor left right)

-- The test of one stored fingerprint against a new one, inside `any`.
unfoldable pub near : ℕ → Option ℕ → Bool
near candidate none = false
near candidate (some value) = leb (hamming_distance candidate value) 3

pub is_near_duplicate : Option ℕ → List (Option ℕ) → Bool
unfolding near
is_near_duplicate none previous = false
is_near_duplicate (some candidate) previous = any (near candidate) previous
