-- ===== src/Sqlgen.antt =====
-- src/stoolap_sqlgen.cc: the generator that writes a MariaDB statement as stoolap SQL, or refuses it.
pub mod Items
pub mod Classes
pub mod Gen
pub mod Literals
pub mod Funcs
pub mod Sums
pub mod Select
pub mod Query
pub mod Node
pub mod Lexer
pub mod Comments
pub mod Safe
pub mod Assign
pub mod Modify
pub mod Examples
