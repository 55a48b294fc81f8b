-- ===== src/Billing/Invoices.antt =====
-- Invoices: `create_invoice_intent`, `invalidate_invoice`, `validate_checkout` and the queries that
-- they make, of app/repositories/billing.py.
use chat_pulse.Prelude.{
  ℕ, ◌+◌, String, Bool, true, false, not, ◌&&◌, Option, none, some, List, [], ◌∷◌, ◌++◌, any,
  is_some, ltb, ◌==◌, str_eq, if◌then◌else◌,
}
use chat_pulse.Billing.Plans.{get_vip_plan, is_trial, is_monthly}
use chat_pulse.Billing.Store.{
  IntentStatus, VipInvoiceIntent, VipPayment, Store, Error, Result, ok, ◌>>=◌, ◌>>◌, raise_if,
  or_raise, in_force, is_paid, intent_by_payload,
}

-- A payment with status "paid" of the user: `paid_count` is not zero.
abbrev pub is_paid_by : ℕ → VipPayment → Bool
is_paid_by user_id p = (p.telegram_user_id == user_id) && is_paid p.status

unfoldable pub trial_available : Store → ℕ → ℕ → Bool
trial_available s user_id current =
    if is_some (s.claims user_id)
    then false
    else if in_force (s.grants user_id) current
    then false
    else not (any (is_paid_by user_id) s.payments)

-- A paid monthly payment whose grant runs on; `NULL > current` is not true.
abbrev pub is_active_monthly : ℕ → ℕ → VipPayment → Bool
is_active_monthly user_id current p =
    is_paid_by user_id p
    && (is_monthly p.product_code && elim p.granted_until [ none ↦ false | some t ↦ ltb current t ])

unfoldable pub has_active_monthly_subscription : Store → ℕ → ℕ → Bool
has_active_monthly_subscription s user_id current =
    any (is_active_monthly user_id current) s.payments

-- `payload` is what `new_invoice_payload` draws at random; the column is unique.
unfoldable pub create_invoice_intent :
    Store → ℕ → String → String → ℕ → Result (Store × VipInvoiceIntent)
create_invoice_intent s user_id product_code payload current = do
  plan ← or_raise (get_vip_plan product_code) Error.unknown_plan
  raise_if (not (s.is_registered user_id)) Error.user_not_registered
  raise_if (is_trial plan.code && not (trial_available s user_id current)) Error.trial_used
  raise_if (plan.recurring && has_active_monthly_subscription s user_id current)
      Error.subscription_active
  raise_if (is_some (intent_by_payload payload s.intents)) Error.integrity
  let intent : VipInvoiceIntent = record {
    id = s.next_intent_id;
    payload = payload;
    telegram_user_id = user_id;
    product_code = plan.code;
    stars_amount = plan.stars;
    is_recurring = plan.recurring;
    status = IntentStatus.opened;
    created_at = current;
    invalidated_at = none;
  }
  ok (
    record s { intents = s.intents ++ intent ∷ []; next_intent_id = s.next_intent_id + 1 },
    intent,
  )

-- The row with the payload, made invalid.
invalidate_in : String → ℕ → List VipInvoiceIntent → List VipInvoiceIntent
invalidate_in payload current [] = []
invalidate_in payload current (i ∷ l) =
    if str_eq i.payload payload
    then record i { status = IntentStatus.invalid; invalidated_at = some current } ∷ l
    else i ∷ invalidate_in payload current l

unfoldable pub invalidate_invoice : Store → String → ℕ → Store
unfolding invalidate_in
invalidate_invoice s payload current = record s {
  intents = invalidate_in payload current s.intents;
}

-- The reason that a checkout is refused for.
pub data Refusal : Type 0 where
  wrong_currency stale_invoice wrong_user wrong_amount trial_used : Refusal

-- `intent.status in {"open", "canceled"}`
abbrev pub can_be_paid : IntentStatus → Bool
can_be_paid IntentStatus.opened = true
can_be_paid IntentStatus.canceled = true
can_be_paid _ = false

check_intent : Store → Option VipInvoiceIntent → ℕ → ℕ → ℕ → Option Refusal
check_intent s none user_id total_amount current = some stale_invoice
check_intent s (some intent) user_id total_amount current =
    if not (can_be_paid intent.status)
    then some stale_invoice
    else if not (intent.telegram_user_id == user_id)
    then some wrong_user
    else if not (intent.stars_amount == total_amount)
    then some wrong_amount
    else if is_trial intent.product_code && not (trial_available s user_id current)
    then some trial_used
    else none

-- `none` is the answer `True, ""`.
unfoldable pub validate_checkout : Store → ℕ → String → String → ℕ → ℕ → Option Refusal
unfolding check_intent
validate_checkout s user_id payload currency total_amount current =
    if not (str_eq currency "XTR")
    then some wrong_currency
    else check_intent s (intent_by_payload payload s.intents) user_id total_amount current
