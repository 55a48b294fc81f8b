-- ===== src/Billing/Charges.antt =====
-- A second delivery of the same payment, and the keys of payments.
use chat_pulse.Prelude.{
  ℕ, ◌≡◌, refl, String, true, none, some, List, [], ◌∷◌, ◌++◌, str_eq, str_eq_iff, if◌then◌else◌,
  arith,
}
use chat_pulse.Billing.Store.{VipPayment, Store, ok, payment_by_charge, is_refund_required}
use chat_pulse.Billing.Payments.{
  PaymentInput, PaymentOutcome, PaymentResult, duplicate_of, new_payment, refuse_trial, granted_by,
  record_from, record_payment,
}
use chat_pulse.Billing.Cases.{Ensures, Ensures-ok, record_payment-cases}

str_eq_self : (t : String) → str_eq t t ≡ true
str_eq_self t = (str_eq_iff t t).1 refl

-- A new payment at the end is found where no payment before it has the charge.
pub payment_by_charge-append :
    (charge : String) (l : List VipPayment) (p : VipPayment)
    → payment_by_charge charge l ≡ none
    → payment_by_charge charge (l ++ p ∷ [])
      ≡ (if str_eq p.telegram_payment_charge_id charge then some p else none)
unfolding payment_by_charge
payment_by_charge-append charge [] p h = refl
payment_by_charge-append charge (q ∷ l) p h = ground (arith, payment_by_charge-append charge l p)

-- The row that a result was made from.
pub record Records (charge : String) (r : Store × PaymentResult) : Type 0 where
  pub row : VipPayment
  pub found : payment_by_charge charge r.0.payments ≡ some row
  pub id : r.1.payment_id ≡ row.id
  pub product : r.1.product_code ≡ row.product_code
  pub expiry : r.1.expires_at ≡ row.granted_until
  pub refund : r.1.refund_required ≡ is_refund_required row.status

appended :
    (charge : String) (l : List VipPayment) (p : VipPayment)
    → p.telegram_payment_charge_id ≡ charge
    → payment_by_charge charge l ≡ none
    → payment_by_charge charge (l ++ p ∷ []) ≡ some p
appended charge l p same h = rw (payment_by_charge-append charge l p h, same, str_eq_self charge)

record_payment-Records :
    (s : Store) (p : PaymentInput) (current : ℕ)
    → Ensures (Records p.telegram_payment_charge_id) (record_payment s p current)
unfolding refuse_trial granted_by new_payment duplicate_of
record_payment-Records s p current =
    record_payment-cases s p current (Records p.telegram_payment_charge_id)
      (λ q e. record {
        row = q;
        found = e;
        id = refl;
        product = refl;
        expiry = refl;
        refund = refl;
      })
      (λ i a _. record {
        row = _;
        found = appended _ s.payments _ refl a.is_new;
        id = refl;
        product = refl;
        expiry = refl;
        refund = refl;
      })
      (λ i a _. record {
        row = _;
        found = appended _ s.payments _ refl a.is_new;
        id = refl;
        product = refl;
        expiry = refl;
        refund = refl;
      })

-- After a payment was recorded, a payment message with the same charge, in the right currency and
-- with any other contents, changes nothing: it is answered as a duplicate that names the payment,
-- the product, the expiry and whether a refund is due, as the first answer did.
pub record_payment-again :
    (s : Store) (p p' : PaymentInput) (current current' : ℕ) (s' : Store) (r : PaymentResult)
    → record_payment s p current ≡ ok (s', r)
    → p'.telegram_payment_charge_id ≡ p.telegram_payment_charge_id
    → p'.currency ≡ "XTR"
    → record_payment s' p' current' ≡ ok (s', record r { status = PaymentOutcome.duplicate })
unfolding record_payment record_from duplicate_of
record_payment-again s p p' current current' s' r e charge currency =
    let known =
      Ensures-ok (Records p.telegram_payment_charge_id) (record_payment s p current) (s', r) e
        (record_payment-Records s p current) in
    let xtr : str_eq p'.currency "XTR" ≡ true = rw currency (str_eq_self "XTR") in
    rw (xtr, charge, known.found, record_from)
      (cc (known.id, known.product, known.expiry, known.refund))
