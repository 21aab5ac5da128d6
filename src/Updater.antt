-- ===== src/Updater.antt =====
-- The updater, apps/rtss-updater/demo: its commands to the RTSS, the buffers and the configuration
-- that they are about, and its judgement of a boot.
pub mod Buffers
pub mod Command
pub mod Gpt
pub mod Image
pub mod Metadata
pub mod Request
pub mod Config
pub mod Boot
pub mod Response
pub mod Entries
pub mod Load
pub mod Session
pub mod Sequence
pub mod GptUpdate
pub mod Options
pub mod Context
pub mod Main
pub mod Tests
