-- ===== src/RateLimit.antt =====
-- Rate limits: the token bucket of app/operations/rate_limits.py, and app/api/rate_limit.py.
-- An instant is in milliseconds. A token is cut into as many units as a period has milliseconds,
-- so that the tokens refilled in a millisecond are a whole number of units: the script's numbers,
-- exactly, where Lua counts in floats.
pub mod Window
pub mod Retry
pub mod Enforce
mod Tests
use chat_pulse.Prelude.{
  ℕ, ◌+◌, ◌-◌, ◌*◌, ◌/◌, min, max, String, Bool, true, false, not, ◌&&◌, ◌||◌, Option, none, some,
  leb, str_eq, if◌then◌else◌,
}

pub data PolicyName : Type 0 where
  miniapp_read miniapp_write billing owner_safe owner_destructive invalid_auth scheduler :
      PolicyName

pub record RateLimitPolicy : Type 0 where
  pub requests : ℕ
  pub period_seconds : ℕ
  pub burst : ℕ
  pub fail_open : Bool

abbrev pub policy : ℕ → ℕ → ℕ → Bool → RateLimitPolicy
policy requests period_seconds burst fail_open = record {
  requests = requests;
  period_seconds = period_seconds;
  burst = burst;
  fail_open = fail_open;
}

-- `POLICIES`
abbrev pub policies : PolicyName → RateLimitPolicy
policies miniapp_read = policy 120 60 30 true
policies miniapp_write = policy 30 60 10 true
policies billing = policy 10 60 3 false
policies owner_safe = policy 60 60 60 false
policies owner_destructive = policy 10 60 3 false
policies invalid_auth = policy 30 300 30 true
policies scheduler = policy 30 60 30 false

-- The units of a token. `refill_per_ms` is `requests` units.
abbrev pub token : RateLimitPolicy → ℕ
token p = p.period_seconds * 1000

-- What the Redis key of a policy and an identity holds; `tokens` is in units.
pub record Bucket : Type 0 where
  pub tokens : ℕ
  pub updated_at : ℕ

-- What the script returns; the third is in milliseconds.
pub record ScriptReply : Type 0 where
  pub allowed : Bool
  pub tokens_left : ℕ
  pub retry_ms : ℕ

-- The tokens that there are at `now_ms`. Where the clock went back, nothing is refilled.
unfoldable pub refilled : RateLimitPolicy → Option Bucket → ℕ → ℕ
refilled p none now_ms = p.burst * token p
refilled p (some b) now_ms =
    min (p.burst * token p) (b.tokens + (now_ms - b.updated_at) * p.requests)

-- `math.ceil(a / b)`
abbrev pub ceil_div : ℕ → ℕ → ℕ
ceil_div a b = (a + b - 1) / b

unfoldable pub take_token : RateLimitPolicy → ℕ → ℕ → Bucket × ScriptReply
take_token p tokens now_ms =
    if leb (token p) tokens
    then (
      record { tokens = tokens - token p; updated_at = now_ms },
      record { allowed = true; tokens_left = (tokens - token p) / token p; retry_ms = 0 },
    )
    else (
      record { tokens = tokens; updated_at = now_ms },
      record {
        allowed = false;
        tokens_left = tokens / token p;
        retry_ms = ceil_div (token p - tokens) p.requests;
      },
    )

-- `_TOKEN_BUCKET_SCRIPT`, which Redis runs at once.
unfoldable pub token_bucket : RateLimitPolicy → Option Bucket → ℕ → Bucket × ScriptReply
unfolding take_token refilled
token_bucket p stored now_ms = take_token p (refilled p stored now_ms) now_ms

abbrev pub ttl_ms : RateLimitPolicy → ℕ
ttl_ms p = max (p.period_seconds * 2000) 1000

-- `PEXPIRE`: the key is gone once its time to live has passed.
unfoldable pub live : RateLimitPolicy → Option Bucket → ℕ → Option Bucket
live p none now_ms = none
live p (some b) now_ms = if leb (b.updated_at + ttl_ms p) now_ms then none else some b

pub record RateLimitDecision : Type 0 where
  pub allowed : Bool
  pub remaining : ℕ
  pub retry_after_seconds : ℕ

pub data Checked : Type 0 where
  decided : RateLimitDecision → Checked
  empty_identity unavailable : Checked

-- `check`, on the bucket of the identity. `redis_works` says whether Redis is available and the
-- script returns.
unfoldable pub check : RateLimitPolicy → Bool → String → Option Bucket → ℕ → Option Bucket × Checked
unfolding token_bucket live
check p redis_works identity stored now_ms =
    let (bucket, reply) = token_bucket p (live p stored now_ms) now_ms in
    if str_eq identity ""
    then (stored, empty_identity)
    else if not redis_works
    then (stored, unavailable)
    else (
      some bucket,
      decided (record {
        allowed = reply.allowed;
        remaining = reply.tokens_left;
        retry_after_seconds = ceil_div reply.retry_ms 1000;
      }),
    )

pub record Settings : Type 0 where
  pub redis_required : Bool
  pub production : Bool

unfoldable pub may_bypass : Settings → Bool → Bool
may_bypass settings fail_open =
    fail_open || (not settings.redis_required && not settings.production)

pub data Enforced : Type 0 where
  passed dependency_unavailable invalid_identity : Enforced
  rate_limited : ℕ → Enforced

unfoldable pub answer : Settings → RateLimitPolicy → Checked → Enforced
answer settings p empty_identity = invalid_identity
answer settings p unavailable =
    if may_bypass settings p.fail_open then passed else dependency_unavailable
answer settings p (decided d) =
    if d.allowed then passed else rate_limited (max 1 d.retry_after_seconds)

-- `enforce_rate_limit`; `has_service` says whether the application has the service.
unfoldable pub enforce_rate_limit :
    Settings → Bool → RateLimitPolicy → Bool → String → Option Bucket → ℕ → Option Bucket × Enforced
enforce_rate_limit settings has_service p redis_works identity stored now_ms =
    let (bucket, checked) = check p redis_works identity stored now_ms in
    if has_service
    then (bucket, answer settings p checked)
    else (stored, answer settings p unavailable)
