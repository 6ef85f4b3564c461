-- ===== src/Notification.antt =====
-- The notification context, internal/notification: an event becomes mails, each sent at most once.
pub mod Directory
pub mod Deliver
pub mod Events
pub mod Handlers
pub mod AtMostOnce
pub mod Redelivery
pub mod Tests
