-- ===== src/Functions.antt =====
-- The scalar SQL functions of internal/functions.
pub mod Like
pub mod Value
pub mod Pad
pub mod Substring
pub mod Search
pub mod Range
pub mod Distance
pub mod Trim
pub mod Split
pub mod Replace
pub mod Initcap
pub mod Translate
mod Tests
