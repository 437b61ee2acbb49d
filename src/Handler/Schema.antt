-- ===== src/Handler/Schema.antt =====
-- What src/ha_stoolap.cc reads of MariaDB's TABLE_SHARE, KEY and KEY_PART_INFO, and the codes that
-- a handler's method returns.
use stoolap_mariadb.Common.{ℕ, Bool, true, false, List, Bytes}
use stoolap_mariadb.Types.{Field}

-- `prefix`: HA_PART_KEY_SEG, a part that covers a prefix of its column
pub record KeyPart : Type 0 where
  pub field : Field
  pub prefix : Bool
  pub store_length : ℕ

-- `no_same`: HA_NOSAME
pub record Key : Type 0 where
  pub name : Bytes
  pub no_same : Bool
  pub parts : List KeyPart

-- `primary_key` is MAX_KEY, which no key's number reaches, where there is none.
pub record Share : Type 0 where
  pub primary_key : ℕ
  pub keys : List Key
  pub fields : List Field

-- 0 and the HA_ERR codes that the handler returns
pub data Rc : Type 0 where
  ok found_dupp_key no_referenced_row row_is_referenced lock_deadlock table_exist : Rc
  no_such_table unsupported generic internal_error end_of_file key_not_found : Rc
  record_deleted out_of_mem wrong_command : Rc

unfoldable pub is_ok : Rc → Bool
is_ok ok = true
is_ok _ = false
