-- ===== src/Samples.antt =====
-- Concrete fields, keys, sessions and errors that the examples run the code on.
use stoolap_mariadb.Common.{
  ℕ, Bool, true, false, [], ◌∷◌, Option, none, some, Bytes, codes, ◌==◌, if◌then◌else◌,
}
use stoolap_mariadb.Types.{CharSet, long, longlong, varchar, timestamp2, blob, Field}
use stoolap_mariadb.Bridge.{Engine, fresh}
use stoolap_mariadb.ThdContext.{Context, new_context}
use stoolap_mariadb.Handler.Schema.{KeyPart, Key, Share}
use stoolap_mariadb.Handler.Errors.{ErrorClass, dup_key, deadlock}
use stoolap_mariadb.Handler.Session.{Thd, repeatable_read}
use stoolap_mariadb.Handler.Counts.{Handler}

abbrev pub utf8mb4_bin : CharSet
utf8mb4_bin = record {
  cs_name = codes "utf8mb4";
  unicode = true;
  binsort = true;
  nopad = true;
  mbminlen = 1;
  mbmaxlen = 4;
  is_bin = false;
  utf8mb4 = true;
}

abbrev pub utf8mb4_general_ci : CharSet
utf8mb4_general_ci = record utf8mb4_bin { binsort = false; nopad = false }

abbrev pub latin1 : CharSet
latin1 = record utf8mb4_bin {
  cs_name = codes "latin1";
  unicode = false;
  mbmaxlen = 1;
  utf8mb4 = false;
}

abbrev pub id_field : Field
id_field = record {
  name = codes "id";
  field_index = 0;
  real_type = long;
  has_charset = false;
  charset = none;
  traditional = true;
  is_unsigned = false;
  decimals = 0;
  pack_length = 4;
  char_length = 11;
  length_bytes = 0;
  compressed = false;
  maybe_null = false;
  blob_flag = false;
  auto_increment = true;
  max_data_length = 4;
  ptr = 1;
  null_ptr = none;
  null_bit = 0;
}

abbrev pub name_field : Field
name_field = record id_field {
  name = codes "name";
  field_index = 1;
  real_type = varchar;
  has_charset = true;
  charset = some utf8mb4_bin;
  char_length = 10;
  length_bytes = 1;
  maybe_null = true;
  auto_increment = false;
}

abbrev pub folded_field : Field
folded_field = record name_field {
  name = codes "folded";
  field_index = 2;
  charset = some utf8mb4_general_ci;
}

abbrev pub latin1_field : Field
latin1_field = record name_field { charset = some latin1 }

abbrev pub time_field : Field
time_field = record id_field { name = codes "at"; real_type = timestamp2 }

abbrev pub big_field : Field
big_field = record id_field { name = codes "big"; real_type = longlong; is_unsigned = true }

abbrev pub blob_field : Field
blob_field = record name_field { real_type = blob; blob_flag = true; max_data_length = 65535 }

abbrev pub part_of : Field → KeyPart
part_of f = record { field = f; prefix = false; store_length = 2 }

-- A key over a folded text and a number, and the table that it is UNIQUE in.
abbrev pub folded_key : Key
folded_key = record {
  name = codes "k";
  no_same = false;
  parts = part_of folded_field ∷ part_of id_field ∷ [];
}

abbrev pub id_key : Key
id_key = record { name = codes "PRIMARY"; no_same = true; parts = part_of id_field ∷ [] }

abbrev pub pair_key : Key
pair_key = record id_key { parts = part_of id_field ∷ part_of name_field ∷ [] }

abbrev pub name_key : Key
name_key = record { name = codes "name"; no_same = true; parts = part_of name_field ∷ [] }

abbrev pub sample_share : Share
sample_share = record {
  primary_key = 0;
  keys = pair_key ∷ folded_key ∷ name_key ∷ [];
  fields = id_field ∷ name_field ∷ folded_field ∷ [];
}

-- A message of one byte names no class, one of 'd' a deadlock, the rest a duplicate of the first.
abbrev pub class_of : Bytes → ErrorClass × Option ℕ
class_of m = if is_deadlock m then (deadlock, none) else (dup_key, some 0)
  where
    is_deadlock : Bytes → Bool
    is_deadlock [] = false
    is_deadlock (c ∷ s) = c == b'd'

abbrev pub table : Bytes
table = codes "t"

abbrev pub sample_engine : Engine
sample_engine = record fresh { db = some 1; records = (table, 7) ∷ []; ai_next = (table, 5) ∷ [] }

-- A connection in transaction 9, which has written to the table.
abbrev pub writing_context : Context
writing_context = record new_context {
  db = some 2;
  tx = some 9;
  dirty_record_tables = table ∷ [];
  record_counts = (table, 8) ∷ [];
}

abbrev pub idle_thd : Thd
idle_thd = record {
  ha_data = some (record new_context { db = some 2 });
  in_explicit_txn = true;
  tx_isolation = repeatable_read;
  registered_statement = false;
  registered_all = false;
  engine = sample_engine;
  trace = [];
}

abbrev pub writing_thd : Thd
writing_thd = record idle_thd { ha_data = some writing_context }

abbrev pub sample_handler : Handler
sample_handler = record {
  table = table;
  cached_records = 8;
  cached_records_valid = true;
  stats_records = 8;
  live_counts = 0;
  thd = writing_thd;
}
