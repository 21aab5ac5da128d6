-- ===== src/Api.antt =====
-- The mailbox API of middleware/mailbox/src/rtss_mailbox.c, on top of the mailbox library.
pub mod Handle
pub mod Transfer
pub mod Control
pub mod Open
pub mod Tests
