-- ===== src/Billing/Cases.antt =====
-- The ways that `record_payment` ends, for any property of its result.
use chat_pulse.Prelude.{
  eq_of_not_beq, ℕ, ◌≡◌, refl, Bool, true, false, ◌&&◌, Option, none, some, is_some, Bool-cases,
  inl, inr,
}
use chat_pulse.Billing.Plans.{VipPlan, vip_plans, is_trial}
use chat_pulse.Billing.Store.{
  VipInvoiceIntent, VipPayment, Store, Error, Result, ok, err, ◌>>=◌, ◌>>◌, raise_if, or_raise,
  intent_by_payload, payment_by_charge,
}
use chat_pulse.Billing.Payments.{
  PaymentInput, PaymentResult, duplicate_of, new_payment, refuse_trial, granted_by, grant_payment,
  settle, record_new_payment, check_flags, record_from, record_payment,
}

-- What holds of a result that is not an error.
abbrev pub Ensures : {A : Type 0} → (A → Type 0) → Result A → Type 0
Ensures P (ok a) = P a
Ensures P (err e) = Unit

pub Ensures-ok : {A : Type 0} (P : A → Type 0) (r : Result A) (a : A) → r ≡ ok a → Ensures P r → P a
Ensures-ok P r a e h = rw e at h

pub Ensures-raise_if :
    {A : Type 0} (P : A → Type 0) (b : Bool) (e : Error) (k : Result A)
    → (b ≡ false → Ensures P k)
    → Ensures P (raise_if b e >> k)
Ensures-raise_if P true e k h = tt
Ensures-raise_if P false e k h = h refl

pub Ensures-then :
    {A : Type 0} (P : A → Type 0) (m : Result (Unit {0})) (k : Result A)
    → Ensures P k
    → Ensures P (m >> k)
Ensures-then P (ok _) k h = h
Ensures-then P (err e) k h = tt

pub Ensures-or_raise :
    {A B : Type 0} (P : A → Type 0) (o : Option B) (e : Error) (k : B → Result A)
    → ((b : B) → o ≡ some b → Ensures P (k b))
    → Ensures P (or_raise o e >>= k)
Ensures-or_raise P none e k h = tt
Ensures-or_raise P (some b) e k h = h b refl

-- What is known of an invoice that a new charge is accepted for.
pub record Accepted (s : Store) (p : PaymentInput) (intent : VipInvoiceIntent) : Type 0 where
  pub is_new : payment_by_charge p.telegram_payment_charge_id s.payments ≡ none
  pub found : intent_by_payload p.payload s.intents ≡ some intent
  pub same_user : intent.telegram_user_id ≡ p.user_id
  pub same_amount : intent.stars_amount ≡ p.total_amount

abbrev pub plan_of : VipInvoiceIntent → VipPlan
plan_of intent = vip_plans intent.product_code

module _ (s : Store) (p : PaymentInput) (current : ℕ) (P : Store × PaymentResult → Type 0)
    (repeated : (q : VipPayment)
      → payment_by_charge p.telegram_payment_charge_id s.payments ≡ some q
      → P (s, duplicate_of q))
    (refused : (i : VipInvoiceIntent)
      → Accepted s p i
      → (is_trial (plan_of i).code && is_some (s.claims p.user_id)) ≡ true
      → P (refuse_trial s (new_payment s p i (plan_of i) current)))
    (granted : (i : VipInvoiceIntent)
      → Accepted s p i
      → (is_trial (plan_of i).code && is_some (s.claims p.user_id)) ≡ false
      → P (granted_by s p i (plan_of i) current)) where
  settle-cases :
      (i : VipInvoiceIntent) → Accepted s p i → Ensures P (settle s p i (plan_of i) current)
  unfolding settle grant_payment
  settle-cases i a = elim (Bool-cases (is_trial (plan_of i).code && is_some (s.claims p.user_id))) [
    | inl second ↦ rw second (refused i a second)
    | inr first ↦ rw first (
        Ensures-raise_if P _ Error.integrity (ok (granted_by s p i (plan_of i) current))
          (λ _. granted i a first))
  ]

  record_new_payment-cases :
      payment_by_charge p.telegram_payment_charge_id s.payments ≡ none
      → Ensures P (record_new_payment s p current)
  unfolding record_new_payment
  record_new_payment-cases is_new = Ensures-or_raise P _ _ _ λ i found.
      Ensures-raise_if P _ _ _ λ user. Ensures-raise_if P _ _ _ λ amount.
        Ensures-then P (check_flags (plan_of i) p) (settle s p i (plan_of i) current) (
          settle-cases i (record {
            is_new = is_new;
            found = found;
            same_user = eq_of_not_beq _ _ user;
            same_amount = eq_of_not_beq _ _ amount;
          }))

  record_from-cases :
      (o : Option VipPayment)
      → payment_by_charge p.telegram_payment_charge_id s.payments ≡ o
      → Ensures P (record_from s o p current)
  unfolding record_from
  record_from-cases none e = record_new_payment-cases e
  record_from-cases (some q) e = repeated q e

  pub record_payment-cases : Ensures P (record_payment s p current)
  unfolding record_payment
  record_payment-cases = Ensures-raise_if P _ _ _ (λ _. record_from-cases _ refl)
