-- ===== src/Billing/Subscriptions.antt =====
-- Status, subscription control and notifications of app/repositories/billing.py.
use chat_pulse.Prelude.{
  ℕ, String, Bool, true, false, not, ◌&&◌, ◌||◌, Option, none, some, List, [], ◌∷◌, ltb, leb, ◌==◌,
  str_eq, if◌then◌else◌,
}
use chat_pulse.Billing.Plans.{VipPlanCode, is_monthly}
use chat_pulse.Billing.Store.{
  IntentStatus, VipInvoiceIntent, VipPayment, VipGrant, Store, Error, Result, ok, ◌>>=◌, ◌>>◌,
  raise_if, or_raise, in_force, intent_by_id, set_intent_status,
}
use chat_pulse.Billing.Invoices.{is_paid_by, trial_available, is_active_monthly}

-- The newest paid monthly payment that runs on: `_active_subscription`.
abbrev later : VipPayment → Option VipPayment → VipPayment
later p none = p
later p (some q) = if ltb p.paid_at q.paid_at then q else p

newest : (VipPayment → Bool) → List VipPayment → Option VipPayment
newest test [] = none
newest test (p ∷ l) = let rest = newest test l in if test p then some (later p rest) else rest

pub record Subscription : Type 0 where
  pub product_code : VipPlanCode
  pub expires_at : Option ℕ
  pub is_canceled : Bool

-- `intent and intent.status == "canceled"`
unfoldable pub is_canceled : Option VipInvoiceIntent → Bool
is_canceled none = false
is_canceled (some intent) = elim intent.status [ IntentStatus.canceled ↦ true | _ ↦ false ]

subscription_from : Store → Option VipPayment → Option Subscription
subscription_from s none = none
subscription_from s (some p) = some (record {
  product_code = p.product_code;
  expires_at = p.granted_until;
  is_canceled = is_canceled (intent_by_id p.invoice_intent_id s.intents);
})

unfoldable pub active_subscription : Store → ℕ → ℕ → Option Subscription
unfolding subscription_from newest is_canceled
active_subscription s user_id current =
    subscription_from s (newest (is_active_monthly user_id current) s.payments)

pub record VipStatus : Type 0 where
  pub is_vip : Bool
  pub vip_expires_at : Option ℕ
  pub trial_available : Bool
  pub active_subscription : Option Subscription

abbrev expiry_of : Option VipGrant → Option ℕ
expiry_of none = none
expiry_of (some grant) = grant.expires_at

unfoldable pub get_status : Store → ℕ → ℕ → VipStatus
get_status s user_id current =
    let active = in_force (s.grants user_id) current in
    record {
      is_vip = active;
      vip_expires_at = if active then expiry_of (s.grants user_id) else none;
      trial_available = trial_available s user_id current;
      active_subscription = active_subscription s user_id current;
    }

-- The first payment of the subscription: first-recurring ones before the others, then the oldest.
abbrev pub comes_first : VipPayment → VipPayment → Bool
comes_first p q =
    if p.is_first_recurring
    then (if q.is_first_recurring then leb p.paid_at q.paid_at else true)
    else if q.is_first_recurring
    then false
    else leb p.paid_at q.paid_at

abbrev pub earlier : VipPayment → Option VipPayment → VipPayment
earlier p none = p
earlier p (some q) = if comes_first p q then p else q

unfoldable pub first_monthly : ℕ → List VipPayment → Option VipPayment
first_monthly user_id [] = none
first_monthly user_id (p ∷ l) =
    let rest = first_monthly user_id l in
    if is_paid_by user_id p && is_monthly p.product_code then some (earlier p rest) else rest

pub record SubscriptionControl : Type 0 where
  pub telegram_payment_charge_id : String
  pub is_canceled : Bool
  pub invoice_intent_id : ℕ

unfoldable pub control_from : Store → Option VipPayment → Option SubscriptionControl
control_from s none = none
control_from s (some p) = some (record {
  telegram_payment_charge_id = p.telegram_payment_charge_id;
  is_canceled = is_canceled (intent_by_id p.invoice_intent_id s.intents);
  invoice_intent_id = p.invoice_intent_id;
})

unfoldable pub get_subscription_control : Store → ℕ → Option SubscriptionControl
unfolding control_from first_monthly is_canceled
get_subscription_control s user_id = control_from s (first_monthly user_id s.payments)

unfoldable pub set_subscription_canceled : Store → ℕ → Bool → Result Store
set_subscription_canceled s user_id canceled = do
  control ← or_raise (get_subscription_control s user_id) Error.subscription_not_found
  intent ← or_raise (intent_by_id control.invoice_intent_id s.intents) Error.invoice_not_found
  raise_if (not (intent.telegram_user_id == user_id)) Error.invoice_not_found
  ok (record s {
    intents =
        set_intent_status control.invoice_intent_id
          (if canceled then IntentStatus.canceled else IntentStatus.opened) s.intents;
  })

-- Whether a user has a notification with the key.
unfoldable pub is_notified : ℕ → String → List (ℕ × String) → Bool
is_notified user_id key [] = false
is_notified user_id key ((u, k) ∷ l) = ((u == user_id) && str_eq k key) || is_notified user_id key l

-- The insertion is refused where the pair is there: the column pair is unique. `cut` keeps the
-- first 160 characters of the key.
unfoldable pub claim_notification : (String → String) → Store → ℕ → String → Store × Bool
claim_notification cut s user_id key =
    if is_notified user_id (cut key) s.notifications
    then (s, false)
    else (record s { notifications = (user_id, cut key) ∷ s.notifications }, true)
