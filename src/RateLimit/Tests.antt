-- ===== src/RateLimit/Tests.antt =====
-- Runs and witnesses for the rate limits.
use chat_pulse.Prelude.{◌+◌, ◌*◌, ◌≤◌, ◌≡◌, refl, true, false, none, some, [], ◌∷◌, arith}
use chat_pulse.RateLimit.{
  policies, billing, Bucket, refilled, take_token, token_bucket, live, Settings, check, answer,
  enforce_rate_limit, rate_limited, passed,
}
use chat_pulse.RateLimit.Window.{allowed_of, window_bound}
use chat_pulse.RateLimit.Retry.{expiry_is_invisible}
use chat_pulse.RateLimit.Enforce.{retry_after_suffices}

-- Billing allows three requests at once and ten in a minute.
allowed_of_run : allowed_of (policies billing) none (0 ∷ 1 ∷ 2 ∷ 3 ∷ 6003 ∷ []) ≡ 4
unfolding allowed_of token_bucket take_token refilled
allowed_of_run = refl

window_bound_example :
    allowed_of (policies billing) none (0 ∷ 1 ∷ 2 ∷ 3 ∷ 6003 ∷ []) * 60000 ≤ 3 * 60000 + 6003 * 10
window_bound_example =
    window_bound (policies billing) none 0 (1 ∷ 2 ∷ 3 ∷ 6003 ∷ [])
      (omega arith, (omega arith, (omega arith, (omega arith, tt))))

-- A bucket with half a token at 1000.
abbrev half : Bucket
half = record { tokens = 30000; updated_at = 1000 }

expiry_is_invisible_example :
    token_bucket (policies billing) (live (policies billing) (some half) 500000) 500000
    ≡ token_bucket (policies billing) (some half) 500000
expiry_is_invisible_example = expiry_is_invisible billing (some half) 500000

rejected : (token_bucket (policies billing) (some half) 1500).1.allowed ≡ false
unfolding token_bucket take_token refilled
rejected = refl

abbrev production : Settings
production = record { redis_required = true; production = true }

abbrev waiting : Bucket
waiting = record { tokens = 35000; updated_at = 1500 }

told :
    enforce_rate_limit production true (policies billing) true "u" (some half) 1500
    ≡ (some waiting, rate_limited 3)
unfolding enforce_rate_limit check answer token_bucket take_token refilled live
told = refl

retry_after_suffices_example :
    (enforce_rate_limit production true (policies billing) true "u" (some waiting) (1500 + 3001)).1
    ≡ passed
retry_after_suffices_example =
    retry_after_suffices production billing "u" (some half) waiting 1500 3 3001 refl told
      (omega arith)
