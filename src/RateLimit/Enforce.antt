-- ===== src/RateLimit/Enforce.antt =====
-- A client that is told to wait, and waits.
use chat_pulse.Prelude.{
  ℕ, ◌+◌, ◌*◌, ◌<◌, ◌≡◌, sym, ap, ◌∙◌, String, true, false, Option, some, leb, max, str_eq,
  if◌then◌else◌, Bool-cases, inl, inr, arith,
}
use chat_pulse.RateLimit.{
  PolicyName, policies, Bucket, ScriptReply, token_bucket, ceil_div, Settings, Enforced, check,
  answer, enforce_rate_limit, rate_limited, passed,
}
use chat_pulse.RateLimit.Retry.{expiry_is_invisible, retry_is_exact}

-- The answer to a reply of the script.
abbrev reply_answer : ScriptReply → Enforced
reply_answer r = if r.allowed then passed else rate_limited (max 1 (ceil_div r.retry_ms 1000))

enforce-works :
    (settings : Settings) (n : PolicyName) (identity : String) (stored : Option Bucket) (now : ℕ)
    → str_eq identity "" ≡ false
    → enforce_rate_limit settings true (policies n) true identity stored now ≡ (
      some (token_bucket (policies n) stored now).0,
      reply_answer (token_bucket (policies n) stored now).1,
    )
unfolding enforce_rate_limit check answer
enforce-works settings n identity stored now named = rw (named, expiry_is_invisible n stored now)

reply-rejected :
    (r : ScriptReply) (seconds : ℕ)
    → reply_answer r ≡ rate_limited seconds
    → (r.allowed ≡ false) × (leb r.retry_ms (seconds * 1000) ≡ true)
reply-rejected r seconds h = elim (Bool-cases r.allowed) [
  | inl yes_ ↦ absurd (cc (rw yes_ at h))
  | inr no_ ↦ (no_, ground (arith, rw no_ at h))
]

-- A client that waits longer than the Retry-After of a rejected request, by a millisecond or by any
-- time, and that sends no other request, passes, under each policy.
pub retry_after_suffices :
    (settings : Settings) (n : PolicyName) (identity : String) (stored : Option Bucket)
    (bucket : Bucket) (now seconds wait : ℕ)
    → str_eq identity "" ≡ false
    → enforce_rate_limit settings true (policies n) true identity stored now
      ≡ (some bucket, rate_limited seconds)
    → seconds * 1000 < wait
    → (enforce_rate_limit settings true (policies n) true identity (some bucket) (now + wait)).1
      ≡ passed
retry_after_suffices settings n identity stored bucket now seconds wait named told longer =
    let first = sym (enforce-works settings n identity stored now named) ∙ told in
    let same : some (token_bucket (policies n) stored now).0 ≡ some bucket = ap (λ r. r.0) first in
    let (rejected, long_enough) =
      reply-rejected (token_bucket (policies n) stored now).1 seconds (ap (λ r. r.1) first) in
    let exact = retry_is_exact n stored now wait rejected in
    let waited : leb (token_bucket (policies n) stored now).1.retry_ms wait ≡ true =
      ground (arith, long_enough, longer) in
    ap (λ r. r.1) (enforce-works settings n identity (some bucket) (now + wait) named)
    ∙ (ap (λ o. reply_answer (token_bucket (policies n) o (now + wait)).1) (sym same)
        ∙ rw (exact ∙ waited))
