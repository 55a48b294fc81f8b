-- ===== src/Billing.antt =====
-- VIP plans, invoices, payments and grants: app/repositories/billing.py and what it uses.
pub mod Plans
pub mod Store
pub mod Invoices
pub mod Payments
pub mod Subscriptions
pub mod Cases
pub mod Charges
pub mod Trial
pub mod Expiry
pub mod Checkout
pub mod Control
mod Tests
