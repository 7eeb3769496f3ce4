-- ===== src/Payment.antt =====
-- backend/src/modules/payment/payment.service.ts: `PaymentService`.
pub mod Subscriptions
pub mod Orders
pub mod Lifecycle
pub mod Status
pub mod Confirm
pub mod Replay
pub mod Cancel
mod Tests
