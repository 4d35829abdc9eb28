-- ===== src/Cli.antt =====
-- The command line (internal/cli): splitting of scripts into statements, and how input is run.
pub mod Script
pub mod Session
pub mod Input
mod Tests
