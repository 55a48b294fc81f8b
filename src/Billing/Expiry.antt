-- ===== src/Billing/Expiry.antt =====
-- How long a granted payment gives access.
use chat_pulse.Prelude.{
  ap, ◌∙◌, ℕ, ◌+◌, ◌*◌, ◌≤◌, ◌≡◌, refl, true, false, Option, none, some, get_or, ltb, ==_iff, arith,
  max, if◌then◌else◌, Bool-cases, inl, inr,
}
use chat_pulse.Billing.Plans.{VipPlanCode, vip_plans, trial_7d, monthly_30d, quarter_90d, year_365d}
use chat_pulse.Billing.Store.{VipGrant, Store, ok, day, in_force}
use chat_pulse.Billing.Payments.{
  PaymentInput, PaymentOutcome, PaymentResult, duplicate_of, refuse_trial, granted_by,
  grant_paid_vip, paid_from, paid_until, record_payment,
}
use chat_pulse.Billing.Cases.{Ensures, Ensures-ok, record_payment-cases}

pub code-vip_plans : (c : VipPlanCode) → (vip_plans c).code ≡ c
code-vip_plans trial_7d = refl
code-vip_plans monthly_30d = refl
code-vip_plans quarter_90d = refl
code-vip_plans year_365d = refl

-- The end that a granted payment sets.
abbrev pub new_end : Store → PaymentInput → PaymentResult → ℕ → ℕ
new_end s p r current =
    paid_until (s.grants p.user_id) (vip_plans r.product_code)
      (get_or p.subscription_expiration_date 0) current

-- A granted result says until when, and the stored grant agrees at every instant.
pub record GrantsUntil (user_id until : ℕ) (r : Store × PaymentResult) : Type 0 where
  pub reported : r.1.expires_at ≡ some until
  pub stored : (t : ℕ) → in_force (r.0.grants user_id) t ≡ ltb t until

granted-GrantsUntil :
    (s : Store) (p : PaymentInput) (current : ℕ)
    → Ensures
        (λ (r : Store × PaymentResult).
          r.1.status ≡ PaymentOutcome.granted → GrantsUntil p.user_id (new_end s p r.1 current) r)
        (record_payment s p current)
unfolding refuse_trial granted_by duplicate_of grant_paid_vip in_force
granted-GrantsUntil s p current =
    record_payment-cases s p current
      (λ r. r.1.status ≡ PaymentOutcome.granted → GrantsUntil p.user_id (new_end s p r.1 current) r)
      (λ q e g. cc g) (λ i a e g. cc g)
      (λ i a e g. record {
        reported = rw (code-vip_plans i.product_code);
        stored = λ t. rw ((==_iff p.user_id p.user_id).1 refl, code-vip_plans i.product_code);
      })

pub at_least_a_week :
    (c : VipPlanCode) (old : Option VipGrant) (current : ℕ)
    → current + 7 * day ≤ paid_from old current + (vip_plans c).duration_days * day
unfolding paid_from
at_least_a_week trial_7d old current = ground arith
at_least_a_week monthly_30d old current = ground arith
at_least_a_week quarter_90d old current = ground arith
at_least_a_week year_365d old current = ground arith

-- The end that an active grant has; 0 where there is none, for a grant that has no end as well.
abbrev pub end_of : Option VipGrant → ℕ
end_of none = 0
end_of (some grant) = if grant.is_active then get_or grant.expires_at 0 else 0

paid_from-end_of :
    (old : Option VipGrant) (current : ℕ) → paid_from old current ≡ max (end_of old) current
unfolding paid_from
paid_from-end_of none current = omega arith
paid_from-end_of (some grant) current = elim (Bool-cases grant.is_active) [
  | inl on ↦ rw on (later grant.expires_at)
  | inr off ↦ rw off (omega arith)
]
  where
    later :
        (o : Option ℕ)
        → (elim o [ none ↦ current | some t ↦ if ltb current t then t else current ])
          ≡ max (get_or o 0) current
    later none = omega arith
    later (some t) = ground arith

-- A granted one-off plan runs its days from the end of the access that is paid for, where an active
-- grant has an end that is still to come, and from now otherwise; an active grant that has no end
-- counts as none here. The user then has access at every instant before the new end, and at none
-- after it.
pub paid_days_are_added :
    (s s' : Store) (p : PaymentInput) (current t : ℕ) (r : PaymentResult)
    → record_payment s p current ≡ ok (s', r)
    → r.status ≡ PaymentOutcome.granted
    → (vip_plans r.product_code).recurring ≡ false
    → let until =
        max (end_of (s.grants p.user_id)) current
        + (vip_plans r.product_code).duration_days * day in
      (r.expires_at ≡ some until)
      × (in_force (s'.grants p.user_id) t ≡ ltb t until)
      × (current + 7 * day ≤ until)
unfolding paid_until
paid_days_are_added s s' p current t r e g once =
    let known : GrantsUntil p.user_id (new_end s p r current) (s', r) =
      Ensures-ok
        (λ (x : Store × PaymentResult).
          x.1.status ≡ PaymentOutcome.granted → GrantsUntil p.user_id (new_end s p x.1 current) x)
        (record_payment s p current) (s', r) e (granted-GrantsUntil s p current) g in
    let reported : r.expires_at ≡ some (new_end s p r current) = known.reported in
    let from = paid_from-end_of (s.grants p.user_id) current in
    let end_ : new_end s p r current
        ≡ max (end_of (s.grants p.user_id)) current
          + (vip_plans r.product_code).duration_days * day =
      rw (once, from) refl in
    (
      reported ∙ ap some end_,
      known.stored t ∙ ap (ltb t) end_,
      omega (arith, from, at_least_a_week r.product_code (s.grants p.user_id) current),
    )

-- A granted monthly payment ends access at the date that Telegram sent, whatever was paid for
-- before: a user whose access ran on past that date, or had no end, has none from that date on.
pub monthly_payment_cuts_access :
    (s s' : Store) (p : PaymentInput) (current date t : ℕ) (r : PaymentResult)
    → record_payment s p current ≡ ok (s', r)
    → r.status ≡ PaymentOutcome.granted
    → (vip_plans r.product_code).recurring ≡ true
    → p.subscription_expiration_date ≡ some date
    → date ≤ t
    → in_force (s.grants p.user_id) t ≡ true
    → in_force (s'.grants p.user_id) t ≡ false
unfolding paid_until
monthly_payment_cuts_access s s' p current date t r e g monthly sent past before =
    let known : GrantsUntil p.user_id (new_end s p r current) (s', r) =
      Ensures-ok
        (λ (x : Store × PaymentResult).
          x.1.status ≡ PaymentOutcome.granted → GrantsUntil p.user_id (new_end s p x.1 current) x)
        (record_payment s p current) (s', r) e (granted-GrantsUntil s p current) g in
    let end_ : new_end s p r current ≡ date = rw (monthly, sent) in
    known.stored t ∙ (rw end_ (ground arith))
