-- ===== src/Billing/Checkout.antt =====
-- What a checkout that was allowed leads to, and notifications.
use chat_pulse.Prelude.{
  ℕ, ◌≤◌, ◌≡◌, refl, String, Bool, true, false, not, ◌&&◌, Option, none, some, is_some, get_or, ◌∷◌,
  ◌==◌, ==_iff, str_eq, str_eq_iff, Bool-cases, inl, inr, arith,
}
use chat_pulse.Billing.Plans.{VipPlanCode, VipPlan, vip_plans, is_trial}
use chat_pulse.Billing.Store.{
  VipInvoiceIntent, VipGrant, Store, ok, intent_by_payload, payment_by_charge,
}
use chat_pulse.Billing.Invoices.{can_be_paid, trial_available, validate_checkout}
use chat_pulse.Billing.Payments.{
  PaymentInput, PaymentOutcome, PaymentResult, granted_by, is_badly_timed, grant_paid_vip,
  paid_until, starts_from, grant_payment, settle, check_flags, record_new_payment, record_from,
  record_payment,
}
use chat_pulse.Billing.Subscriptions.{is_notified, claim_notification}
use chat_pulse.Billing.Expiry.{at_least_a_week, code-vip_plans}
use chat_pulse.Billing.Cases.{plan_of}

-- What an allowed checkout has tested.
pub record Allowed (s : Store) (user_id amount current : ℕ) (i : VipInvoiceIntent) : Type 0 where
  pub payable : can_be_paid i.status ≡ true
  pub same_user : i.telegram_user_id ≡ user_id
  pub same_amount : i.stars_amount ≡ amount
  pub trial_open : (is_trial i.product_code && not (trial_available s user_id current)) ≡ false

validate_checkout-Allowed :
    (s : Store) (user_id : ℕ) (payload currency : String) (amount current : ℕ)
    (i : VipInvoiceIntent)
    → intent_by_payload payload s.intents ≡ some i
    → validate_checkout s user_id payload currency amount current ≡ none
    → Allowed s user_id amount current i × (str_eq currency "XTR" ≡ true)
unfolding validate_checkout
validate_checkout-Allowed s user_id payload currency amount current i found h =
    (ground arith, ground arith)

-- The claim of a trial is what `trial_available` looks at first.
no_claim :
    (s : Store) (user_id current : ℕ) (b : Bool)
    → (b && not (trial_available s user_id current)) ≡ false
    → (b && is_some (s.claims user_id)) ≡ false
unfolding trial_available
no_claim s user_id current b h = ground arith

well_timed :
    (c : VipPlanCode) (old : Option VipGrant) (date current : ℕ)
    → (vip_plans c).recurring ≡ false
    → starts_from old current ≤ current
    → is_badly_timed (grant_paid_vip old (vip_plans c) date current) ≡ false
unfolding is_badly_timed grant_paid_vip paid_until
well_timed c old date current once h =
    let week = at_least_a_week c old current in rw once (ground arith)

no_flags :
    (plan : VipPlan) (p : PaymentInput)
    → plan.recurring ≡ false
    → p.is_recurring ≡ false
    → p.is_first_recurring ≡ false
    → check_flags plan p ≡ ok tt
unfolding check_flags
no_flags plan p once r1 r2 = rw (once, r1, r2)

settle_first :
    (s : Store) (p : PaymentInput) (i : VipInvoiceIntent) (plan : VipPlan) (current : ℕ)
    → (is_trial plan.code && is_some (s.claims p.user_id)) ≡ false
    → is_badly_timed
        (grant_paid_vip (s.grants p.user_id) plan (get_or p.subscription_expiration_date 0) current)
      ≡ false
    → settle s p i plan current ≡ ok (granted_by s p i plan current)
unfolding settle grant_payment
settle_first s p i plan current first timed = rw (first, timed)

-- A one-off plan whose checkout was allowed is granted and needs no refund: the payment message
-- for it, with a new charge, the invoice's user, payload, amount and no recurring flags, is
-- recorded without an error. The store is the one that the checkout saw, and no grant of the user
-- is set to start in the future.
pub checkout_is_granted :
    (s : Store) (p : PaymentInput) (current current' : ℕ) (i : VipInvoiceIntent)
    → validate_checkout s p.user_id p.payload p.currency p.total_amount current ≡ none
    → intent_by_payload p.payload s.intents ≡ some i
    → (plan_of i).recurring ≡ false
    → p.is_recurring ≡ false
    → p.is_first_recurring ≡ false
    → payment_by_charge p.telegram_payment_charge_id s.payments ≡ none
    → starts_from (s.grants p.user_id) current' ≤ current'
    → (s' : Store) × (r : PaymentResult) × (record_payment s p current' ≡ ok (s', r))
      × (r.status ≡ PaymentOutcome.granted)
      × (r.refund_required ≡ false)
unfolding record_payment record_new_payment record_from granted_by
checkout_is_granted s p current current' i allowed found once r1 r2 new_charge starts =
    let (a, xtr) =
      validate_checkout-Allowed s p.user_id p.payload p.currency p.total_amount current i found
        allowed in
    let user : (i.telegram_user_id == p.user_id) ≡ true = (==_iff _ _).1 a.same_user in
    let amount : (i.stars_amount == p.total_amount) ≡ true = (==_iff _ _).1 a.same_amount in
    let first : (is_trial (plan_of i).code && is_some (s.claims p.user_id)) ≡ false =
      rw (code-vip_plans i.product_code)
        (no_claim s p.user_id current (is_trial i.product_code) a.trial_open) in
    let timed =
      well_timed i.product_code (s.grants p.user_id) (get_or p.subscription_expiration_date 0)
        current' once starts in
    let flags = no_flags (plan_of i) p once r1 r2 in
    let settled = settle_first s p i (plan_of i) current' first timed in
    (
      (granted_by s p i (plan_of i) current').0,
      (granted_by s p i (plan_of i) current').1,
      rw (xtr, new_charge, record_from, found, user, amount, flags, settled),
      unfold granted_by in refl,
      unfold granted_by in refl,
    )

-- A notification is claimed once: whatever key a second claim is cut to, it succeeds exactly if
-- the user has no notification with that key, and after it the user has one.
pub claim_notification_once :
    (cut : String → String) (s : Store) (user_id : ℕ) (key : String)
    → let (s', claimed) = claim_notification cut s user_id key in
      (claimed ≡ not (is_notified user_id (cut key) s.notifications))
      × (is_notified user_id (cut key) s'.notifications ≡ true)
      × (claim_notification cut s' user_id key ≡ (s', false))
unfolding claim_notification is_notified
claim_notification_once cut s user_id key =
    let notified_head : is_notified user_id (cut key) ((user_id, cut key) ∷ s.notifications)
        ≡ true =
      rw ((==_iff user_id user_id).1 refl, (str_eq_iff (cut key) (cut key)).1 refl) in
    elim (Bool-cases (is_notified user_id (cut key) s.notifications)) [
      | inl old ↦ rw old (refl, old, rw old)
      | inr new ↦ rw new (refl, notified_head, rw notified_head)
    ]
