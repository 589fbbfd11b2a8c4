-- ===== src/Probes.antt =====
-- pipeline/src/probes: handlers that run on a pad for every buffer.
pub mod ClassIds
pub mod SmartRecord
pub mod FrameEvents
pub mod Crops
