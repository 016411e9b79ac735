-- ===== src/Threshold.antt =====
-- packages/cesr/src/primitives/tholder.ts: threshold expressions. The parts are the child modules.
pub mod Error
pub mod Rational
pub mod Weight
pub mod Weighted
pub mod Tholder
mod Tests
