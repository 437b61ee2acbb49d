-- ===== src/Handler.antt =====
-- src/ha_stoolap.cc: the storage engine's handler. Schema holds what it reads of MariaDB's TABLE.
pub mod Schema
pub mod Errors
pub mod Session
pub mod Transactions
pub mod Savepoints
pub mod Counts
pub mod AutoIncrement
pub mod Keys
pub mod Scan
pub mod IndexRead
pub mod Range
pub mod Columns
pub mod Refusals
pub mod Ddl
pub mod Cells
pub mod Writes
pub mod DirectDml
pub mod Sql
pub mod Estimates
pub mod Examples
