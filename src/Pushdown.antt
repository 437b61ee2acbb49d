-- ===== src/Pushdown.antt =====
-- src/ha_stoolap_select.cc: which statements stoolap takes whole, and their runs.
pub mod Statement
pub mod Fields
pub mod Guards
pub mod Tables
pub mod Run
pub mod Factories
pub mod Direct
pub mod Examples
