-- ===== src/Sources.antt =====
-- The sources of the pipeline: their names, the registry of names, and the streams at run time.
pub mod Naming
pub mod Registry
pub mod Slots
pub mod Streams
pub mod Health
mod Tests
