-- ===== src/Antispam/Worth.antt =====
-- Bounds on the XP of a message, and what a burst of messages does to it.
use chat_pulse.Prelude.{ℕ, ◌≤◌, ◌≡◌, ◌==◌, ltb, true, false, ◌||◌, if◌then◌else◌, arith}
use chat_pulse.Antispam.{MessageActivity, message_base_xp, adjusted_message_xp}

-- A message is worth at most five XP, and nothing exactly when it has neither qualifying text nor
-- a photo nor a voice: a bare reply earns nothing.
pub message_base_xp_bounds :
    (a : MessageActivity)
    → (message_base_xp a ≤ 5)
      × ((message_base_xp a == 0)
          ≡ (if a.has_qualifying_text || (a.is_photo || a.is_voice) then false else true))
unfolding message_base_xp
message_base_xp_bounds a = ground arith

-- Over the whole scale of message counts: the XP paid never exceeds the base, never grows with
-- the number of recent messages, is at least one for a message worth anything up to forty
-- messages, and is zero from the forty-first.
pub adjusted_message_xp_law :
    (base n m : ℕ)
    → n ≤ m
    → (adjusted_message_xp base n ≤ base)
      × (adjusted_message_xp base m ≤ adjusted_message_xp base n)
      × ((adjusted_message_xp base n == 0) ≡ ((base == 0) || ltb 40 n))
unfolding adjusted_message_xp
adjusted_message_xp_law base n m h = ground arith

-- A plain text message (base one) is paid in full up to the fortieth message: the reductions
-- from the twenty-first on round up to one XP.
pub text_is_never_reduced : (n : ℕ) → n ≤ 40 → adjusted_message_xp 1 n ≡ 1
unfolding adjusted_message_xp
text_is_never_reduced n h = ground arith
