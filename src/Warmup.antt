-- ===== src/Warmup.antt =====
-- The word count of warmup/.
pub mod Words
pub mod Counts
pub mod Splits
pub mod Table
