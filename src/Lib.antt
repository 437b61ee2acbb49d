-- ===== src/Lib.antt =====
-- Verification of the stoolap storage engine for MariaDB.
--
-- The engine is a MariaDB plugin in C++ over stoolap, a database in Rust behind a C interface. The
-- modules follow its files:
--
-- * Bridge is src/stoolap_bridge.cc and .h, the process-wide Engine: which tables are reconciled, the
--   shared row counts, the AUTO_INCREMENT cursors, and the names of tables.
-- * ThdContext is src/stoolap_thd_context.cc and .h, the context of a connection: its clone of the
--   database, its transaction, its row counts, the tables that it has written to.
-- * Types is src/stoolap_types.h, how a column's value is stored in stoolap (Encode, Hex) and read
--   back into a Field (Store).
-- * Packet is src/stoolap_packet.h, the binary format that values are read in: its header, its cells,
--   and the store callback (Blob).
-- * Handler is src/ha_stoolap.cc and .h. Session, Transactions and Savepoints are the callbacks of a
--   connection; Errors the codes and messages; Keys, IndexRead, Range and Scan the reads on an index,
--   as the plan that open_read is given and the loop that filters its rows; AutoIncrement, Counts,
--   Writes and DirectDml the writes with their counters; Columns, Refusals, Ddl and Cells the
--   definitions of tables and the values of fields; Estimates what the optimizer is told, Sql the SQL
--   that the handler writes itself.
-- * Sqlgen is src/stoolap_sqlgen.cc, the class Gen that writes SQL for stoolap from MariaDB's parse
--   tree. Items is what it reads of that tree, Gen its state and its refusals, Classes the types that
--   are safe to compare; Literals, Funcs, Sums, Select and Query are its methods by what they write,
--   each over the parts that it is given; Node is the recursion over the tree, with gen_select and
--   gen_unit; Assign and Modify are UPDATE and DELETE, with gen_modify. Lexer is no code of the
--   engine: it says what SQL's quotes and parentheses make of a text, and Comments adds SQL's comments.
-- * Pushdown is src/ha_stoolap_select.cc. Statement is what it reads of a statement, Fields its walkers
--   over items, Guards its conditions, Run the eager run of a query and the scan of its rows,
--   Factories the handlers that it gives MariaDB, Direct the UPDATE or DELETE run as one statement;
--   cond_push and the init methods of src/ha_stoolap.cc, which ask it, are there too.
-- * ThdInspect is src/stoolap_thd_inspect.cc, what is asked of a statement's LEX; ForeignKeys is its
--   list of foreign keys.
-- * Common holds the shared names and lemmas; Samples the data of the examples, which stand in the
--   Examples modules.
--
-- State is a record for each C++ object, and an operation is a function from the state before to the
-- state after and what is returned, by the name that it has in C++. A method under a mutex is one step. The
-- handler's methods reach the Engine through the Thd record, which holds the connection's context
-- too; the context's FFI calls that begin or end a transaction are a log in it.
--
-- What is not C++ of the engine is an argument: the answer of each call of the FFI (a handle, a
-- status, a message, a packet), stoolap_error_class, stoolap_fit_table_name, MariaDB's pack_time,
-- unpack_time and key_cmp, and the text of a time. So each theorem holds for all their answers but
-- for those that its hypotheses name.
--
-- Of MariaDB's parse tree, an item is what it answers to the questions that the generator asks; a pointer
-- is an address, which is only compared; the text of a number is a list of marks. A method of Gen is
-- a function from its state to the text that it appends and the state after, or to the reason of its
-- first refusal, after which all its callers refuse. What MariaDB makes of the text of a date or a
-- time is an argument.
--
-- Numbers are natural numbers. A sum or product that can leave 64 bits is taken modulo 2 ^ 64 where
-- the code lets it wrap (the cursors); `negsuc` gives signed ones, and a signed 64-bit pattern is read
-- by signed64. A list of bytes is a buffer, and a read past its end is `fault`. The loop of index_next
-- runs on fuel, one more than the answers that its cursor has left, and each turn takes one. A mask of
-- key parts is the list of its bits.
--
-- Pushdown and Sqlgen each read their own part of MariaDB's parse tree: what takes both takes the
-- statement in both readings.
--
-- Not modelled: in src/ha_stoolap.cc, open() with its reconciling of tables, open_read's projection,
-- rnd_pos, position and the directory walk of DROP DATABASE; the plugin's start, system
-- variables, timers and logging, which hold no logic of their own; the Rust crate, which is another
-- language.
pub mod Common
pub mod Bridge
pub mod ThdContext
pub mod Types
pub mod Packet
pub mod Handler
pub mod Sqlgen
pub mod Pushdown
pub mod ThdInspect
pub mod Samples
