-- ===== src/Billing/Tests.antt =====
-- Runs and witnesses for VIP billing.
use chat_pulse.Prelude.{
  ℕ, ◌+◌, ◌*◌, ◌≤◌, ◌≡◌, refl, String, Bool, true, false, Option, none, some, [], ◌∷◌, ◌++◌, ltb,
  arith,
}
use chat_pulse.Billing.Plans.{VipPlanCode, vip_plans, trial_7d, monthly_30d, quarter_90d}
use chat_pulse.Billing.Store.{
  IntentStatus, PaymentStatus, VipInvoiceIntent, VipPayment, Store, ok, day, in_force,
  set_intent_status, payment_by_charge, intent_by_payload,
}
use chat_pulse.Billing.Invoices.{trial_available, validate_checkout}
use chat_pulse.Billing.Payments.{
  PaymentInput, PaymentOutcome, PaymentResult, paid_from, paid_until, starts_from, grant_paid_vip,
  new_payment, granted_by, is_badly_timed, grant_payment, settle, check_flags, record_new_payment,
  record_from, record_payment,
}
use chat_pulse.Billing.Subscriptions.{
  get_subscription_control, first_monthly, claim_notification, is_notified,
}
use chat_pulse.Billing.Charges.{record_payment-again}
use chat_pulse.Billing.Trial.{Reach, here, next, notify, GrantsTrial, trial_once}
use chat_pulse.Billing.Expiry.{paid_days_are_added, monthly_payment_cuts_access}
use chat_pulse.Billing.Checkout.{checkout_is_granted}
use chat_pulse.Billing.Control.{get_subscription_control-append}

abbrev invoice : ℕ → String → VipPlanCode → ℕ → Bool → VipInvoiceIntent
invoice id payload code stars recurring = record {
  id = id;
  payload = payload;
  telegram_user_id = 3;
  product_code = code;
  stars_amount = stars;
  is_recurring = recurring;
  status = IntentStatus.opened;
  created_at = 0;
  invalidated_at = none;
}

-- A user with an invoice for the trial, one for three months and one for the subscription.
abbrev s : Store
s = record {
  is_registered = λ u. true;
  intents =
      invoice 1 "a" trial_7d 1 false
      ∷ invoice 2 "b" quarter_90d 149 false
      ∷ invoice 3 "c" monthly_30d 59 true
      ∷ [];
  next_intent_id = 4;
  payments = [];
  next_payment_id = 1;
  claims = λ u. none;
  grants = λ u. none;
  notifications = [];
}

-- The same, with access that has no end.
abbrev s_forever : Store
s_forever = record s {
  grants = λ u. some (record {
    is_active = true;
    starts_at = 0;
    expires_at = none;
    granted_by_owner_id = 1;
    grant_reason = "gift";
    revoked_at = none;
    revoked_by_owner_id = none;
    revoke_reason = none;
    created_at = 0;
    updated_at = 0;
  });
}

abbrev payment : String → String → ℕ → Bool → Option ℕ → PaymentInput
payment payload charge amount recurring expiry = record {
  user_id = 3;
  payload = payload;
  currency = "XTR";
  total_amount = amount;
  telegram_payment_charge_id = charge;
  provider_payment_charge_id = none;
  is_recurring = recurring;
  is_first_recurring = recurring;
  subscription_expiration_date = expiry;
}

abbrev trial_payment : PaymentInput
trial_payment = payment "a" "ch1" 1 false none

abbrev quarter_payment : PaymentInput
quarter_payment = payment "b" "ch2" 149 false none

abbrev monthly_payment : PaymentInput
monthly_payment = payment "c" "ch3" 59 true (some 5000)

abbrev after_trial : Store × PaymentResult
after_trial = granted_by s trial_payment (invoice 1 "a" trial_7d 1 false) (vip_plans trial_7d) 1000

abbrev after_quarter : Store × PaymentResult
after_quarter =
    granted_by s quarter_payment (invoice 2 "b" quarter_90d 149 false) (vip_plans quarter_90d) 1000

abbrev after_monthly : Store × PaymentResult
after_monthly =
    granted_by s_forever monthly_payment (invoice 3 "c" monthly_30d 59 true) (vip_plans monthly_30d)
      1000

record_payment_trial : record_payment s trial_payment 1000 ≡ ok after_trial
unfolding record_payment record_from record_new_payment payment_by_charge intent_by_payload
    check_flags settle grant_payment is_badly_timed grant_paid_vip paid_until paid_from starts_from
record_payment_trial = refl

record_payment_quarter : record_payment s quarter_payment 1000 ≡ ok after_quarter
unfolding record_payment record_from record_new_payment payment_by_charge intent_by_payload
    check_flags settle grant_payment is_badly_timed grant_paid_vip paid_until paid_from starts_from
record_payment_quarter = refl

record_payment_monthly : record_payment s_forever monthly_payment 1000 ≡ ok after_monthly
unfolding record_payment record_from record_new_payment payment_by_charge intent_by_payload
    check_flags settle grant_payment is_badly_timed grant_paid_vip paid_until paid_from starts_from
record_payment_monthly = refl

record_payment-again_example :
    record_payment after_trial.0 trial_payment 1060
    ≡ ok (after_trial.0, record after_trial.1 { status = PaymentOutcome.duplicate })
record_payment-again_example =
    record_payment-again s trial_payment trial_payment 1000 1060 after_trial.0 after_trial.1
      record_payment_trial refl refl

-- Between the trial and the next payment a notification is claimed.
abbrev later : Store
later = (claim_notification (λ t. t) after_trial.0 3 "vip:ends").0

after_later : (Reach (λ t. t) after_trial.0 later)
unfolding claim_notification is_notified granted_by
after_later = next here (notify 3 "vip:ends" true refl)

abbrev after_second : Store × PaymentResult
after_second =
    granted_by later quarter_payment (invoice 2 "b" quarter_90d 149 false) (vip_plans quarter_90d)
      2000

record_payment_second : record_payment later quarter_payment 2000 ≡ ok after_second
unfolding record_payment record_from record_new_payment payment_by_charge intent_by_payload
    check_flags settle grant_payment is_badly_timed grant_paid_vip paid_until paid_from starts_from
    granted_by new_payment set_intent_status claim_notification is_notified
record_payment_second = refl

trial_once_example : (¬ GrantsTrial after_second.1) × (trial_available later 3 2000 ≡ false)
unfolding granted_by
trial_once_example =
    trial_once (λ t. t) s after_trial.0 later after_second.0 trial_payment quarter_payment 1000 2000
      after_trial.1 after_second.1 record_payment_trial (refl, refl) after_later
      record_payment_second refl

-- The same three months for a user whose access runs until 5000.
abbrev s_until : Store
s_until = record s {
  grants = λ u. some (record {
    is_active = true;
    starts_at = 0;
    expires_at = some 5000;
    granted_by_owner_id = 1;
    grant_reason = "gift";
    revoked_at = none;
    revoked_by_owner_id = none;
    revoke_reason = none;
    created_at = 0;
    updated_at = 0;
  });
}

abbrev after_more : Store × PaymentResult
after_more =
    granted_by s_until quarter_payment (invoice 2 "b" quarter_90d 149 false) (vip_plans quarter_90d)
      1000

record_payment_more : record_payment s_until quarter_payment 1000 ≡ ok after_more
unfolding record_payment record_from record_new_payment payment_by_charge intent_by_payload
    check_flags settle grant_payment is_badly_timed grant_paid_vip paid_until paid_from starts_from
record_payment_more = refl

paid_days_are_added_example :
    (after_more.1.expires_at ≡ some (5000 + 90 * day))
    × (in_force (after_more.0.grants 3) 6000 ≡ ltb 6000 (5000 + 90 * day))
    × (1000 + 7 * day ≤ 5000 + 90 * day)
unfolding granted_by paid_from
paid_days_are_added_example =
    paid_days_are_added s_until after_more.0 quarter_payment 1000 6000 after_more.1
      record_payment_more refl refl

monthly_payment_cuts_access_example : in_force (after_monthly.0.grants 3) 6000 ≡ false
unfolding granted_by in_force
monthly_payment_cuts_access_example =
    monthly_payment_cuts_access s_forever after_monthly.0 monthly_payment 1000 5000 6000
      after_monthly.1 record_payment_monthly refl refl refl (omega arith) refl

checkout_is_granted_example :
    (s' : Store) × (r : PaymentResult) × (record_payment s trial_payment 1000 ≡ ok (s', r))
    × (r.status ≡ PaymentOutcome.granted)
    × (r.refund_required ≡ false)
unfolding validate_checkout intent_by_payload payment_by_charge starts_from trial_available in_force
checkout_is_granted_example =
    checkout_is_granted s trial_payment 900 1000 (invoice 1 "a" trial_7d 1 false) refl refl refl
      refl refl refl (omega arith)

-- A first subscription payment at 1000, and the first one of a second subscription at 9000.
abbrev monthly_row : ℕ → String → ℕ → VipPayment
monthly_row id charge paid_at = record {
  id = id;
  invoice_intent_id = 3;
  telegram_user_id = 3;
  product_code = monthly_30d;
  stars_amount = 59;
  telegram_payment_charge_id = charge;
  provider_payment_charge_id = none;
  is_recurring = true;
  is_first_recurring = true;
  subscription_expiration_date = none;
  granted_until = some (paid_at + 30 * day);
  status = PaymentStatus.paid;
  paid_at = paid_at;
  refunded_at = none;
  refund_reason = none;
}

abbrev s_monthly : Store
s_monthly = record s { payments = monthly_row 1 "ch3" 1000 ∷ [] }

get_subscription_control-append_example :
    get_subscription_control
      (record s_monthly { payments = s_monthly.payments ++ monthly_row 2 "ch9" 9000 ∷ [] })
      3
    ≡ get_subscription_control s_monthly 3
unfolding first_monthly
get_subscription_control-append_example =
    get_subscription_control-append s_monthly 3 (monthly_row 1 "ch3" 1000)
      (monthly_row 2 "ch9" 9000) refl refl (omega arith) refl
