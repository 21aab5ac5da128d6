-- ===== src/Mailbox.antt =====
-- The mailbox library, middleware/safemlib: the descriptors in shared memory, the item ring of a
-- sub-region, the access functions and the creation of a mailbox.
pub mod Layout
pub mod Ring
pub mod Access
pub mod Create
