-- ===== src/Cli.antt =====
-- The command line, crates/fluxion-cli/src/main.rs. What a command prints is a list of lines.
pub mod Schedule
pub mod Firing
pub mod Rows
pub mod Bench
pub mod Percentiles
pub mod Validate
pub mod Verdict
pub mod Mcp
pub mod Messages
pub mod Tools
pub mod Served
pub mod Report
pub mod Order
pub mod Tables
pub mod Watch
pub mod Watched
pub mod Packages
