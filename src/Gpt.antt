-- ===== src/Gpt.antt =====
-- The GPT library, apps/rtss-updater/lib/rtss_gpt.
pub mod CrcTable
pub mod Crc
pub mod Guid
pub mod Partition
pub mod Tests
