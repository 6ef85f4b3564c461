-- ===== src/Billing.antt =====
-- The billing context, internal/billing: the invoice and its commission
-- (internal/billing/domain/invoice).
pub mod Errors
pub mod Money
pub mod Values
pub mod Invoice
pub mod Amounts
pub mod Guards
pub mod Repository
pub mod Commands
pub mod Facade
pub mod Idempotence
pub mod Psp
pub mod Pay
pub mod Row
pub mod Integration
pub mod Http
pub mod Payments
pub mod Ledger
pub mod Final
pub mod Race
pub mod Paying
pub mod Retry
pub mod Worker
pub mod Overdue
pub mod Tests
pub mod RowTests
pub mod Views
pub mod PaymentTests
