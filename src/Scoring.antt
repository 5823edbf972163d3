-- ===== src/Scoring.antt =====
-- The scoring service without HTTP: internal/model and internal/scoring.
pub mod Float
pub mod Model
pub mod Vector
pub mod Service
pub mod Strings
pub mod Samples
mod Tests
