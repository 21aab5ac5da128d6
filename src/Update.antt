-- ===== src/Update.antt =====
-- The update library, apps/rtss-updater/lib/rtss_update: its checksum, its OTA
-- buffer, its messages and the handshake.
pub mod CrcTable
pub mod Crc
pub mod Ota
pub mod Message
pub mod Handshake
pub mod Tests
