-- ===== src/Billing/Payments.antt =====
-- Payments: `record_payment`, `_grant_paid_vip`, `mark_refunded` of app/repositories/billing.py.
use chat_pulse.Prelude.{
  ℕ, ◌+◌, ◌*◌, String, Bool, true, false, not, ◌&&◌, ◌||◌, Option, none, some, List, [], ◌∷◌, ◌++◌,
  put, is_some, get_or, ltb, leb, ◌==◌, str_eq, if◌then◌else◌,
}
use chat_pulse.Billing.Plans.{VipPlanCode, VipPlan, vip_plans, is_trial}
use chat_pulse.Billing.Plans.{trial_7d, monthly_30d, quarter_90d, year_365d}
use chat_pulse.Billing.Store.{
  IntentStatus, PaymentStatus, VipInvoiceIntent, VipPayment, VipGrant, Store, Error, Result, ok,
  ◌>>=◌, ◌>>◌, raise_if, or_raise, day, is_refund_required, intent_by_payload, set_intent_status,
  payment_by_charge,
}

pub record PaymentInput : Type 0 where
  pub user_id : ℕ
  pub payload : String
  pub currency : String
  pub total_amount : ℕ
  pub telegram_payment_charge_id : String
  pub provider_payment_charge_id : Option String
  pub is_recurring : Bool
  pub is_first_recurring : Bool
  pub subscription_expiration_date : Option ℕ

pub data PaymentOutcome : Type 0 where
  duplicate duplicate_trial granted : PaymentOutcome

pub record PaymentResult : Type 0 where
  pub status : PaymentOutcome
  pub payment_id : ℕ
  pub product_code : VipPlanCode
  pub expires_at : Option ℕ
  pub refund_required : Bool

-- The existing grant as `_grant_paid_vip` reads it: the end of the access that runs, or now.
unfoldable pub paid_from : Option VipGrant → ℕ → ℕ
paid_from none current = current
paid_from (some grant) current =
    if grant.is_active
    then elim grant.expires_at [ none ↦ current | some t ↦ if ltb current t then t else current ]
    else current

-- `grant_reason`: the plan's code after a fixed text.
abbrev pub grant_reason_of : VipPlanCode → String
grant_reason_of trial_7d = "Telegram Stars · trial_7d"
grant_reason_of monthly_30d = "Telegram Stars · monthly_30d"
grant_reason_of quarter_90d = "Telegram Stars · quarter_90d"
grant_reason_of year_365d = "Telegram Stars · year_365d"

-- `starts_at` moves to now for a new grant, an inactive one and an expired one.
unfoldable pub starts_from : Option VipGrant → ℕ → ℕ
starts_from none current = current
starts_from (some grant) current = if not grant.is_active then current else elim grant.expires_at [
  | none ↦ grant.starts_at
  | some t ↦ if leb t current then current else grant.starts_at
]

abbrev pub created_from : Option VipGrant → ℕ → ℕ
created_from none current = current
created_from (some grant) current = grant.created_at

unfoldable pub paid_until : Option VipGrant → VipPlan → ℕ → ℕ → ℕ
unfolding paid_from
paid_until existing plan subscription_expiry current =
    if plan.recurring
    then subscription_expiry
    else paid_from existing current + plan.duration_days * day

-- The row that `_grant_paid_vip` writes. `subscription_expiry` counts for a recurring plan only.
unfoldable pub grant_paid_vip : Option VipGrant → VipPlan → ℕ → ℕ → VipGrant
unfolding starts_from
grant_paid_vip existing plan subscription_expiry current = record {
  is_active = true;
  starts_at = starts_from existing current;
  expires_at = some (paid_until existing plan subscription_expiry current);
  granted_by_owner_id = 0;
  grant_reason = grant_reason_of plan.code;
  revoked_at = none;
  revoked_by_owner_id = none;
  revoke_reason = none;
  created_at = created_from existing current;
  updated_at = current;
}

-- The answer to a charge that is recorded already.
unfoldable pub duplicate_of : VipPayment → PaymentResult
duplicate_of p = record {
  status = duplicate;
  payment_id = p.id;
  product_code = p.product_code;
  expires_at = p.granted_until;
  refund_required = is_refund_required p.status;
}

unfoldable pub new_payment : Store → PaymentInput → VipInvoiceIntent → VipPlan → ℕ → VipPayment
new_payment s p intent plan current = record {
  id = s.next_payment_id;
  invoice_intent_id = intent.id;
  telegram_user_id = p.user_id;
  product_code = plan.code;
  stars_amount = plan.stars;
  telegram_payment_charge_id = p.telegram_payment_charge_id;
  provider_payment_charge_id = p.provider_payment_charge_id;
  is_recurring = p.is_recurring;
  is_first_recurring = p.is_first_recurring;
  subscription_expiration_date = p.subscription_expiration_date;
  granted_until = none;
  status = PaymentStatus.paid;
  paid_at = current;
  refunded_at = none;
  refund_reason = none;
}

abbrev add_payment : Store → VipPayment → Store
add_payment s payment = record s {
  payments = s.payments ++ payment ∷ [];
  next_payment_id = s.next_payment_id + 1;
}

-- A second trial: the payment is kept for a refund, and nothing is granted.
unfoldable pub refuse_trial : Store → VipPayment → Store × PaymentResult
refuse_trial s payment = (
  add_payment s (record payment {
    status = PaymentStatus.refund_required;
    refund_reason = some "duplicate_trial";
  }),
  record {
    status = duplicate_trial;
    payment_id = payment.id;
    product_code = payment.product_code;
    expires_at = none;
    refund_required = true;
  },
)

-- The trial claim, the grant and the statuses.
unfoldable pub granted_by :
    Store → PaymentInput → VipInvoiceIntent → VipPlan → ℕ → Store × PaymentResult
granted_by s p intent plan current =
    let payment = new_payment s p intent plan current in
    let grant =
      grant_paid_vip (s.grants p.user_id) plan (get_or p.subscription_expiration_date 0) current in
    (
      record (add_payment s (record payment { granted_until = grant.expires_at })) {
        claims =
            if is_trial plan.code
            then put s.claims p.user_id (record { payment_id = payment.id; claimed_at = current })
            else s.claims;
        grants = put s.grants p.user_id grant;
        intents =
            set_intent_status intent.id
              (if plan.recurring then IntentStatus.opened else IntentStatus.paid) s.intents;
      },
      record {
        status = granted;
        payment_id = payment.id;
        product_code = plan.code;
        expires_at = grant.expires_at;
        refund_required = false;
      },
    )

-- The database checks that a grant ends after it starts.
unfoldable pub is_badly_timed : VipGrant → Bool
is_badly_timed grant = leb (get_or grant.expires_at 0) grant.starts_at

unfoldable pub grant_payment :
    Store → PaymentInput → VipInvoiceIntent → VipPlan → ℕ → Result (Store × PaymentResult)
grant_payment s p intent plan current = do
  raise_if
      (is_badly_timed (
        grant_paid_vip (s.grants p.user_id) plan (get_or p.subscription_expiration_date 0) current))
      Error.integrity
  ok (granted_by s p intent plan current)

-- The unique claim of a trial decides: an `IntegrityError` on its insertion refuses the trial.
unfoldable pub settle :
    Store → PaymentInput → VipInvoiceIntent → VipPlan → ℕ → Result (Store × PaymentResult)
settle s p intent plan current =
    if is_trial plan.code && is_some (s.claims p.user_id)
    then ok (refuse_trial s (new_payment s p intent plan current))
    else grant_payment s p intent plan current

-- The flags and the expiry that Telegram sends for a subscription.
unfoldable pub check_flags : VipPlan → PaymentInput → Result (Unit {0})
check_flags plan p = do
  raise_if (if p.is_recurring || p.is_first_recurring then not plan.recurring else plan.recurring)
      Error.flags_mismatch
  raise_if (plan.recurring && not (is_some p.subscription_expiration_date))
      Error.no_subscription_expiry

-- The rest of `record_payment` for a charge that is new.
unfoldable pub record_new_payment : Store → PaymentInput → ℕ → Result (Store × PaymentResult)
record_new_payment s p current = do
  intent ← or_raise (intent_by_payload p.payload s.intents) Error.unknown_payload
  raise_if (not (intent.telegram_user_id == p.user_id)) Error.user_mismatch
  raise_if (not (intent.stars_amount == p.total_amount)) Error.amount_mismatch
  check_flags (vip_plans intent.product_code) p
  settle s p intent (vip_plans intent.product_code) current

unfoldable pub record_from :
    Store → Option VipPayment → PaymentInput → ℕ → Result (Store × PaymentResult)
record_from s (some existing) p current = ok (s, duplicate_of existing)
record_from s none p current = record_new_payment s p current

unfoldable pub record_payment : Store → PaymentInput → ℕ → Result (Store × PaymentResult)
record_payment s p current = do
  raise_if (not (str_eq p.currency "XTR")) Error.unsupported_currency
  record_from s (payment_by_charge p.telegram_payment_charge_id s.payments) p current

-- `mark_refunded` on the row with an id; the reason is cut to 255 characters by the caller's
-- `cut`.
refund_in : ℕ → String → ℕ → List VipPayment → Option (List VipPayment)
refund_in id reason current [] = none
refund_in id reason current (p ∷ l) =
    if p.id == id
    then some (
        record p {
          status = PaymentStatus.refunded;
          refunded_at = some current;
          refund_reason = some reason;
        }
        ∷ l)
    else elim (refund_in id reason current l) [ none ↦ none | some rest ↦ some (p ∷ rest) ]

unfoldable pub mark_refunded : (String → String) → Store → ℕ → String → ℕ → Result Store
unfolding refund_in
mark_refunded cut s payment_id reason current = do
  payments ← or_raise (refund_in payment_id (cut reason) current s.payments) Error.payment_not_found
  ok (record s { payments = payments })
