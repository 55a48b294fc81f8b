-- ===== src/Billing/Trial.antt =====
-- The trial, over sequences of operations on the store.
use chat_pulse.Prelude.{
  ℕ, ◌≡◌, refl, String, Bool, true, false, is_some, put, ◌==◌, ==_iff, if◌then◌else◌, Bool-cases,
  inl, inr, arith,
}
use chat_pulse.Billing.Plans.{is_trial}
use chat_pulse.Billing.Store.{VipInvoiceIntent, VipTrialClaim, Store, ok}
use chat_pulse.Billing.Invoices.{create_invoice_intent, invalidate_invoice, trial_available}
use chat_pulse.Billing.Payments.{
  PaymentInput, PaymentOutcome, PaymentResult, duplicate_of, refuse_trial, granted_by,
  record_payment, mark_refunded,
}
use chat_pulse.Billing.Subscriptions.{set_subscription_canceled, claim_notification}
use chat_pulse.Billing.Cases.{Ensures, Ensures-ok, plan_of, record_payment-cases}

abbrev pub HasClaim : ℕ → Store → Type 0
HasClaim user_id s = is_some (s.claims user_id) ≡ true

-- A call that returned, as a step from the store before to the store after.
pub data Step (cut : String → String) : Store → Store → Type 0 where
  create :
      {s s' : Store}
      → (user_id : ℕ) (product_code payload : String) (current : ℕ) (intent : VipInvoiceIntent)
      → create_invoice_intent s user_id product_code payload current ≡ ok (s', intent)
      → Step cut s s'
  invalidate :
      {s s' : Store}
      → (payload : String) (current : ℕ) → invalidate_invoice s payload current ≡ s'
      → Step cut s s'
  pay :
      {s s' : Store}
      → (p : PaymentInput) (current : ℕ) (r : PaymentResult)
      → record_payment s p current ≡ ok (s', r)
      → Step cut s s'
  refund :
      {s s' : Store}
      → (payment_id : ℕ) (reason : String) (current : ℕ)
      → mark_refunded cut s payment_id reason current ≡ ok s'
      → Step cut s s'
  cancel :
      {s s' : Store}
      → (user_id : ℕ) (canceled : Bool) → set_subscription_canceled s user_id canceled ≡ ok s'
      → Step cut s s'
  notify :
      {s s' : Store}
      → (user_id : ℕ) (key : String) (claimed : Bool)
      → claim_notification cut s user_id key ≡ (s', claimed)
      → Step cut s s'

pub data Reach (cut : String → String) (s : Store) : Store → Type 0 where
  here : Reach cut s s
  next : {t u : Store} → Reach cut s t → Step cut t u → Reach cut s u

put-HasClaim :
    (s : Store) (u v : ℕ) (c : VipTrialClaim) (b : Bool)
    → is_some (s.claims v) ≡ true
    → is_some ((if b then put s.claims u c else s.claims) v) ≡ true
put-HasClaim s u v c false h = h
put-HasClaim s u v c true h = elim (Bool-cases (u == v)) [
  | inl same ↦ rw same
  | inr other ↦ rw other h
]

pay-HasClaim :
    (s : Store) (p : PaymentInput) (current user_id : ℕ)
    → HasClaim user_id s
    → Ensures (λ r. HasClaim user_id r.0) (record_payment s p current)
unfolding refuse_trial granted_by
pay-HasClaim s p current user_id h =
    record_payment-cases s p current (λ r. HasClaim user_id r.0) (λ q e. h) (λ i a e. h)
      (λ i a e. put-HasClaim s p.user_id user_id _ (is_trial (plan_of i).code) h)

create-claims :
    (s s' : Store) (u : ℕ) (product_code payload : String) (current : ℕ) (intent : VipInvoiceIntent)
    → create_invoice_intent s u product_code payload current ≡ ok (s', intent)
    → s'.claims ≡ s.claims
unfolding create_invoice_intent
create-claims s s' u product_code payload current intent e = ground arith

refund-claims :
    (cut : String → String) (s s' : Store) (payment_id : ℕ) (reason : String) (current : ℕ)
    → mark_refunded cut s payment_id reason current ≡ ok s'
    → s'.claims ≡ s.claims
unfolding mark_refunded
refund-claims cut s s' payment_id reason current e = ground arith

cancel-claims :
    (s s' : Store) (user_id : ℕ) (canceled : Bool)
    → set_subscription_canceled s user_id canceled ≡ ok s'
    → s'.claims ≡ s.claims
unfolding set_subscription_canceled
cancel-claims s s' user_id canceled e = ground arith

notify-claims :
    (cut : String → String) (s s' : Store) (user_id : ℕ) (key : String) (claimed : Bool)
    → claim_notification cut s user_id key ≡ (s', claimed)
    → s'.claims ≡ s.claims
unfolding claim_notification
notify-claims cut s s' user_id key claimed e = ground arith

Step-HasClaim :
    {cut : String → String} {s s' : Store} (user_id : ℕ)
    → Step cut s s'
    → HasClaim user_id s
    → HasClaim user_id s'
unfolding invalidate_invoice
Step-HasClaim user_id (create u code payload t i e) h =
    rw (create-claims _ _ u code payload t i e) h
Step-HasClaim user_id (invalidate payload t e) h = rw (← e) h
Step-HasClaim user_id (pay {s} p t r e) h =
    Ensures-ok (λ r. HasClaim user_id r.0) (record_payment s p t) _ e (pay-HasClaim s p t user_id h)
Step-HasClaim user_id (refund id reason t e) h = rw (refund-claims _ _ _ id reason t e) h
Step-HasClaim user_id (cancel u canceled e) h = rw (cancel-claims _ _ u canceled e) h
Step-HasClaim user_id (notify u key claimed e) h = rw (notify-claims _ _ _ u key claimed e) h

Reach-HasClaim :
    {cut : String → String} {s s' : Store} (user_id : ℕ)
    → Reach cut s s'
    → HasClaim user_id s
    → HasClaim user_id s'
Reach-HasClaim user_id here h = h
Reach-HasClaim user_id (next r st) h = Step-HasClaim user_id st (Reach-HasClaim user_id r h)

-- A result that grants a trial.
abbrev pub GrantsTrial : PaymentResult → Type 0
GrantsTrial r = (r.status ≡ PaymentOutcome.granted) × (is_trial r.product_code ≡ true)

trial-claims :
    (s : Store) (p : PaymentInput) (current : ℕ)
    → Ensures
        (λ (r : Store × PaymentResult). GrantsTrial r.1 → HasClaim p.user_id r.0)
        (record_payment s p current)
unfolding refuse_trial granted_by duplicate_of
trial-claims s p current =
    record_payment-cases s p current (λ r. GrantsTrial r.1 → HasClaim p.user_id r.0)
      (λ q e g. cc (g.0)) (λ i a e g. cc (g.0))
      (λ i a e g. rw (g.1) (rw ((==_iff p.user_id p.user_id).1 refl)))

claimed-never :
    (s : Store) (p : PaymentInput) (current : ℕ)
    → HasClaim p.user_id s
    → Ensures (λ (r : Store × PaymentResult). ¬ GrantsTrial r.1) (record_payment s p current)
unfolding refuse_trial granted_by duplicate_of
claimed-never s p current h =
    record_payment-cases s p current (λ r. ¬ GrantsTrial r.1) (λ q e g. cc (g.0))
      (λ i a e g. cc (g.0)) (λ i a e g. ground (arith))

-- A user is granted the trial at most once. After a payment that granted it, whatever invoices,
-- payments, refunds, cancellations and notifications follow, no payment of that user is answered
-- as a granted trial, and the trial is not on offer.
pub trial_once :
    (cut : String → String) (s s1 s2 s3 : Store) (p p' : PaymentInput) (current current' : ℕ)
    (r r' : PaymentResult)
    → record_payment s p current ≡ ok (s1, r)
    → GrantsTrial r
    → Reach cut s1 s2
    → record_payment s2 p' current' ≡ ok (s3, r')
    → p'.user_id ≡ p.user_id
    → (¬ GrantsTrial r') × (trial_available s2 p.user_id current' ≡ false)
unfolding trial_available
trial_once cut s s1 s2 s3 p p' current current' r r' paid g later again same =
    let claimed : HasClaim p.user_id s1 =
      Ensures-ok (λ (r : Store × PaymentResult). GrantsTrial r.1 → HasClaim p.user_id r.0)
        (record_payment s p current) (s1, r) paid (trial-claims s p current) g in
    let kept : HasClaim p.user_id s2 = Reach-HasClaim p.user_id later claimed in
    (
      Ensures-ok (λ (r : Store × PaymentResult). ¬ GrantsTrial r.1) (record_payment s2 p' current')
          (s3, r') again (claimed-never s2 p' current' (rw same kept)),
      rw kept,
    )
