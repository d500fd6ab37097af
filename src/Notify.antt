-- ===== src/Notify.antt =====
-- pkg/notify: the senders.
pub mod Smtp
pub mod Sender
pub mod Fcm
mod Tests
