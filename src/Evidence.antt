-- ===== src/Evidence.antt =====
-- The evidence of emitted frames: their cache, and the requests that it serves.
pub mod Cache
pub mod Recent
pub mod Output
pub mod Requests
