-- ===== src/Billing/Store.antt =====
-- The rows of app/billing_models.py and the `VipGrant` of app/models.py. An instant is in seconds.
use chat_pulse.Prelude.{
  ℕ, ◌*◌, String, Bool, true, false, ◌&&◌, Option, none, some, List, [], ◌∷◌, Table, ltb, ◌==◌,
  str_eq, if◌then◌else◌,
}
use chat_pulse.Billing.Plans.{VipPlanCode}

-- `opened` is the text "open".
pub data IntentStatus : Type 0 where
  opened invalid canceled paid : IntentStatus

pub record VipInvoiceIntent : Type 0 where
  pub id : ℕ
  pub payload : String
  pub telegram_user_id : ℕ
  pub product_code : VipPlanCode
  pub stars_amount : ℕ
  pub is_recurring : Bool
  pub status : IntentStatus
  pub created_at : ℕ
  pub invalidated_at : Option ℕ

pub data PaymentStatus : Type 0 where
  paid refund_required refunded : PaymentStatus

pub record VipPayment : Type 0 where
  pub id : ℕ
  pub invoice_intent_id : ℕ
  pub telegram_user_id : ℕ
  pub product_code : VipPlanCode
  pub stars_amount : ℕ
  pub telegram_payment_charge_id : String
  pub provider_payment_charge_id : Option String
  pub is_recurring : Bool
  pub is_first_recurring : Bool
  pub subscription_expiration_date : Option ℕ
  pub granted_until : Option ℕ
  pub status : PaymentStatus
  pub paid_at : ℕ
  pub refunded_at : Option ℕ
  pub refund_reason : Option String

pub record VipTrialClaim : Type 0 where
  pub payment_id : ℕ
  pub claimed_at : ℕ

pub record VipGrant : Type 0 where
  pub is_active : Bool
  pub starts_at : ℕ
  pub expires_at : Option ℕ
  pub granted_by_owner_id : ℕ
  pub grant_reason : String
  pub revoked_at : Option ℕ
  pub revoked_by_owner_id : Option ℕ
  pub revoke_reason : Option String
  pub created_at : ℕ
  pub updated_at : ℕ

-- `is_registered` says which users have a row. New rows of intents and payments get the next
-- number as their id, and stand at the end.
pub record Store : Type 0 where
  pub is_registered : ℕ → Bool
  pub intents : List VipInvoiceIntent
  pub next_intent_id : ℕ
  pub payments : List VipPayment
  pub next_payment_id : ℕ
  pub claims : Table VipTrialClaim
  pub grants : Table VipGrant
  pub notifications : List (ℕ × String)

-- What a method raises; the transaction is rolled back, so the store stays as it was.
pub data Error : Type 0 where
  unknown_plan user_not_registered trial_used subscription_active unsupported_currency : Error
  unknown_payload user_mismatch amount_mismatch flags_mismatch no_subscription_expiry : Error
  integrity payment_not_found subscription_not_found invoice_not_found : Error

pub data Result {ℓ} (A : Type ℓ) : Type ℓ where
  err : Error → Result A
  ok : A → Result A

-- The value, or an error where it is missing.
abbrev pub or_raise {ℓ} : {A : Type ℓ} → Option A → Error → Result A
or_raise (some a) e = ok a
or_raise none e = err e

-- `if test: raise error`
abbrev pub raise_if : Bool → Error → Result (Unit {0})
raise_if test e = if test then err e else ok tt

-- The rest of a method runs where nothing was raised.
infixl 5 ◌>>=◌ ◌>>◌
abbrev pub ◌>>=◌ {κ ℓ} : {V : Type κ} {W : Type ℓ} → Result V → (V → Result W) → Result W
err e >>= rest = err e
ok value >>= rest = rest value

abbrev pub ◌>>◌ {ℓ} : {W : Type ℓ} → Result (Unit {0}) → Result W → Result W
checked >> rest = checked >>= λ _. rest

abbrev pub day : ℕ
day = 24 * 60 * 60

-- `grant and grant.is_active and (grant.expires_at is None or grant.expires_at > current)`
unfoldable pub in_force : Option VipGrant → ℕ → Bool
in_force none current = false
in_force (some grant) current =
    grant.is_active && elim grant.expires_at [ none ↦ true | some t ↦ ltb current t ]

abbrev pub is_paid : PaymentStatus → Bool
is_paid paid = true
is_paid _ = false

abbrev pub is_refund_required : PaymentStatus → Bool
is_refund_required refund_required = true
is_refund_required _ = false

unfoldable pub intent_by_payload : String → List VipInvoiceIntent → Option VipInvoiceIntent
intent_by_payload payload [] = none
intent_by_payload payload (i ∷ l) =
    if str_eq i.payload payload then some i else intent_by_payload payload l

unfoldable pub intent_by_id : ℕ → List VipInvoiceIntent → Option VipInvoiceIntent
intent_by_id id [] = none
intent_by_id id (i ∷ l) = if i.id == id then some i else intent_by_id id l

-- `intent.status = status` on the row with an id.
unfoldable pub set_intent_status : ℕ → IntentStatus → List VipInvoiceIntent → List VipInvoiceIntent
set_intent_status id status [] = []
set_intent_status id status (i ∷ l) =
    if i.id == id then record i { status = status } ∷ l else i ∷ set_intent_status id status l

unfoldable pub payment_by_charge : String → List VipPayment → Option VipPayment
payment_by_charge charge [] = none
payment_by_charge charge (p ∷ l) =
    if str_eq p.telegram_payment_charge_id charge then some p else payment_by_charge charge l

unfoldable pub payment_by_id : ℕ → List VipPayment → Option VipPayment
payment_by_id id [] = none
payment_by_id id (p ∷ l) = if p.id == id then some p else payment_by_id id l
