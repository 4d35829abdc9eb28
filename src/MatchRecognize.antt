-- ===== src/MatchRecognize.antt =====
-- MATCH_RECOGNIZE at run time (internal/match_recognize.go): the row pattern, its compiler to a
-- small instruction set, the virtual machine, and the window function that numbers the matches.
pub mod Pattern
pub mod Compile
pub mod Vm
pub mod Window
pub mod Meaning
mod Tests
