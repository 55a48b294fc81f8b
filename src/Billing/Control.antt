-- ===== src/Billing/Control.antt =====
-- Which subscription the cancel button acts on.
use chat_pulse.Prelude.{
  ℕ, ◌≤◌, ◌≡◌, refl, ap, true, ◌&&◌, Option, none, some, List, [], ◌∷◌, ◌++◌, Bool-cases, inl, inr,
  arith,
}
use chat_pulse.Billing.Plans.{is_monthly}
use chat_pulse.Billing.Store.{VipPayment, Store}
use chat_pulse.Billing.Invoices.{is_paid_by}
use chat_pulse.Billing.Subscriptions.{
  earlier, first_monthly, control_from, get_subscription_control,
}

abbrev merge : Option VipPayment → VipPayment → VipPayment
merge none q = q
merge (some p) q = earlier p (some q)

earlier_assoc :
    (x y q : VipPayment)
    → earlier x (some (earlier y (some q))) ≡ earlier (earlier x (some y)) (some q)
earlier_assoc x y q = ground arith

earlier-merge :
    (x : VipPayment) (o : Option VipPayment) (q : VipPayment)
    → earlier x (some (merge o q)) ≡ merge (some (earlier x o)) q
earlier-merge x none q = refl
earlier-merge x (some y) q = earlier_assoc x y q

first_monthly-append :
    (user_id : ℕ) (l : List VipPayment) (q : VipPayment)
    → (is_paid_by user_id q && is_monthly q.product_code) ≡ true
    → first_monthly user_id (l ++ q ∷ []) ≡ some (merge (first_monthly user_id l) q)
unfolding first_monthly
first_monthly-append user_id [] q h = rw h
first_monthly-append user_id (x ∷ l) q h =
    elim (Bool-cases (is_paid_by user_id x && is_monthly x.product_code)) [
      | inl monthly ↦
          rw (monthly, first_monthly-append user_id l q h)
            (ap some (earlier-merge x (first_monthly user_id l) q))
      | inr other ↦ rw other (first_monthly-append user_id l q h)
    ]

-- The subscription control of a user with a first recurring payment stays with it: a monthly
-- payment that comes later, also the first one of a new subscription, changes neither the charge
-- nor the invoice that a cancellation acts on, whether or not the old subscription still runs.
pub get_subscription_control-append :
    (s : Store) (user_id : ℕ) (p q : VipPayment)
    → first_monthly user_id s.payments ≡ some p
    → p.is_first_recurring ≡ true
    → p.paid_at ≤ q.paid_at
    → (is_paid_by user_id q && is_monthly q.product_code) ≡ true
    → get_subscription_control (record s { payments = s.payments ++ q ∷ [] }) user_id
      ≡ get_subscription_control s user_id
unfolding get_subscription_control control_from
get_subscription_control-append s user_id p q first recurring older monthly =
    rw (first_monthly-append user_id s.payments q monthly, first) (ground arith)
