-- ===== src/RateLimit/Retry.antt =====
-- The answers of the service under the policies that it has.
use chat_pulse.Prelude.{
  ℕ, ◌+◌, ◌-◌, ◌≤◌, ◌<◌, ◌≡◌, refl, sym, ap, ◌∙◌, leb→le, false, Option, none, some, leb,
  Bool-cases, inl, inr, arith,
}
use chat_pulse.RateLimit.{
  PolicyName, RateLimitPolicy, policies, token, Bucket, refilled, take_token, token_bucket,
  ceil_div, ttl_ms, live, miniapp_read, miniapp_write, billing, owner_safe, owner_destructive,
  invalid_auth, scheduler,
}

expired-full :
    (n : PolicyName) (b : Bucket) (now : ℕ)
    → b.updated_at + ttl_ms (policies n) ≤ now
    → refilled (policies n) (some b) now ≡ refilled (policies n) none now
unfolding refilled
expired-full miniapp_read b now h = omega arith
expired-full miniapp_write b now h = omega arith
expired-full billing b now h = omega arith
expired-full owner_safe b now h = omega arith
expired-full owner_destructive b now h = omega arith
expired-full invalid_auth b now h = omega arith
expired-full scheduler b now h = omega arith

-- The expiry of a key is never seen: under each policy, by the time that Redis drops a bucket it
-- would be full again, so the script answers and stores the same with the bucket and without it.
pub expiry_is_invisible :
    (n : PolicyName) (stored : Option Bucket) (now : ℕ)
    → token_bucket (policies n) (live (policies n) stored now) now
      ≡ token_bucket (policies n) stored now
unfolding live token_bucket
expiry_is_invisible n none now = refl
expiry_is_invisible n (some b) now =
    elim (Bool-cases (leb (b.updated_at + ttl_ms (policies n)) now)) [
      | inl gone ↦ rw gone (
          ap (λ tokens. take_token (policies n) tokens now)
            (sym (expired-full n b now (leb→le _ _ gone))))
      | inr kept ↦ rw kept
    ]

refill-reaches :
    (n : PolicyName) (tokens now k : ℕ)
    → tokens < token (policies n)
    → leb
        (token (policies n))
        (refilled (policies n) (some (record { tokens = tokens; updated_at = now })) (now + k))
      ≡ leb (ceil_div (token (policies n) - tokens) (policies n).requests) k
unfolding refilled
refill-reaches miniapp_read tokens now k h = ground arith
refill-reaches miniapp_write tokens now k h = ground arith
refill-reaches billing tokens now k h = ground arith
refill-reaches owner_safe tokens now k h = ground arith
refill-reaches owner_destructive tokens now k h = ground arith
refill-reaches invalid_auth tokens now k h = ground arith
refill-reaches scheduler tokens now k h = ground arith

take-allowed :
    (p : RateLimitPolicy) (tokens now : ℕ)
    → (take_token p tokens now).1.allowed ≡ leb (token p) tokens
unfolding take_token
take-allowed p tokens now = ground arith

-- What a rejected request learns is exact: under each policy, if no other request comes between,
-- a request after `k` milliseconds is allowed if and only if `k` is at least the delay that the
-- script gave.
pub retry_is_exact :
    (n : PolicyName) (stored : Option Bucket) (now k : ℕ)
    → (token_bucket (policies n) stored now).1.allowed ≡ false
    → let (bucket, reply) = token_bucket (policies n) stored now in
      (token_bucket (policies n) (some bucket) (now + k)).1.allowed ≡ leb reply.retry_ms k
unfolding token_bucket
retry_is_exact n stored now k rejected =
    let tokens = refilled (policies n) stored now in
    let few : leb (token (policies n)) tokens ≡ false =
      sym (take-allowed (policies n) tokens now) ∙ rejected in
    take-allowed (policies n) _ (now + k)
    ∙ rw (take_token, few) (refill-reaches n tokens now k (ground (arith, few)))
