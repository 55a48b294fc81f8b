-- ===== src/RateLimit/Window.antt =====
-- How many requests get through in a span of time.
use chat_pulse.Prelude.{
  ℕ, ◌+◌, ◌-◌, ◌*◌, ◌≤◌, ◌≡◌, refl, Option, none, some, List, [], ◌∷◌, leb, if◌then◌else◌,
  Bool-cases, inl, inr, arith,
}
use chat_pulse.RateLimit.{RateLimitPolicy, token, Bucket, refilled, take_token, token_bucket}

-- The clock does not go back.
abbrev pub InOrder : ℕ → List ℕ → Type 0
InOrder t [] = Unit
InOrder t (now ∷ times) = (t ≤ now) × InOrder now times

abbrev pub last_of : ℕ → List ℕ → ℕ
last_of t [] = t
last_of t (now ∷ times) = last_of now times

-- The balance of one request and of those after it.
spend :
    (a n token_ left tokens base up now last r : ℕ)
    → a * token_ + left ≡ tokens
    → n * token_ ≤ left + (last - now) * r
    → tokens ≤ base + (now - up) * r
    → up ≤ now
    → now ≤ last
    → (a + n) * token_ ≤ base + (last - up) * r
spend a n token_ left tokens base up now last r balance rest limit first later =
    let sum : (a + n) * token_ ≡ a * token_ + n * token_ = grind arith in
    let span : last - up ≡ (now - up) + (last - now) = omega arith in
    let split : (last - up) * r ≡ (now - up) * r + (last - now) * r = rw span (grind arith) in
    omega (arith, sum, split)

module _ (p : RateLimitPolicy) where
  -- How many of the requests at these times are allowed, one after another.
  unfoldable pub allowed_of : Option Bucket → List ℕ → ℕ
  allowed_of stored [] = 0
  allowed_of stored (now ∷ times) =
      let (bucket, reply) = token_bucket p stored now in
      (if reply.allowed then 1 else 0) + allowed_of (some bucket) times

  -- What a token costs is taken from the bucket.
  take-balance :
      (tokens now : ℕ)
      → let (bucket, reply) = take_token p tokens now in
        ((if reply.allowed then 1 else 0) * token p + bucket.tokens ≡ tokens)
        × (bucket.updated_at ≡ now)
  unfolding take_token
  take-balance tokens now = elim (Bool-cases (leb (token p) tokens)) [
    | inl enough ↦ rw enough (ground (arith, enough), refl)
    | inr too_few ↦ rw too_few (ground arith, refl)
  ]

  le_last : (t : ℕ) (times : List ℕ) → InOrder t times → t ≤ last_of t times
  le_last t [] h = omega arith
  le_last t (now ∷ times) h = omega (arith, le_last now times h.1, h.0)

  refilled-le :
      (b : Bucket) (now : ℕ)
      → refilled p (some b) now ≤ b.tokens + (now - b.updated_at) * p.requests
  unfolding refilled
  refilled-le b now = omega arith

  refilled-full : (stored : Option Bucket) (now : ℕ) → refilled p stored now ≤ p.burst * token p
  unfolding refilled
  refilled-full none now = omega arith
  refilled-full (some b) now = omega arith

  -- From a bucket, over requests at times that do not go back.
  allowed_of-bucket :
      (b : Bucket) (times : List ℕ)
      → InOrder b.updated_at times
      → allowed_of (some b) times * token p
        ≤ b.tokens + (last_of b.updated_at times - b.updated_at) * p.requests
  unfolding allowed_of token_bucket
  allowed_of-bucket b [] h = omega arith
  allowed_of-bucket b (now ∷ times) h =
      let r = take_token p (refilled p (some b) now) now in
      let (balance, at_) = take-balance (refilled p (some b) now) now in
      let rest = allowed_of-bucket r.0 times (rw at_ h.1) in
      let limit = refilled-le b now in
      let later = le_last now times h.1 in
      spend (if r.1.allowed then 1 else 0) (allowed_of (some r.0) times) (token p) r.0.tokens
        (refilled p (some b) now) b.tokens b.updated_at now (last_of now times) p.requests balance
        (rw at_ at rest) limit h.0 later

  -- In a span of time at most the burst and what is refilled in the span get through, whatever the
  -- bucket held before: for requests at times in order, the tokens of those allowed are at most
  -- those of a full bucket and those refilled between the first and the last.
  pub window_bound :
      (stored : Option Bucket) (first : ℕ) (times : List ℕ)
      → InOrder first times
      → allowed_of stored (first ∷ times) * token p
        ≤ p.burst * token p + (last_of first times - first) * p.requests
  unfolding allowed_of token_bucket
  window_bound stored first times h =
      let r = take_token p (refilled p stored first) first in
      let (balance, at_) = take-balance (refilled p stored first) first in
      let rest = allowed_of-bucket r.0 times (rw at_ h) in
      let full = refilled-full stored first in
      spend (if r.1.allowed then 1 else 0) (allowed_of (some r.0) times) (token p) r.0.tokens
        (refilled p stored first) (p.burst * token p) first first (last_of first times) p.requests
        balance (rw at_ at rest) (omega (arith, full)) (omega arith) (le_last first times h)
