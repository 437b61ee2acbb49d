-- ===== src/Handler/Examples.antt =====
-- The theorems on the handler at concrete values: its parts below.
pub mod Sessions
pub mod Reads
pub mod Tables
