-- ===== src/ThdInspect/Examples.antt =====
-- A CREATE TABLE with a foreign key.
use stoolap_mariadb.Common.{refl, false, [], ◌∷◌, none, Bytes, codes}
use stoolap_mariadb.ThdInspect.{
  ForeignKey, foreign, other_key, ThdForeignKey, Lex, other_cmd, dup_error, file_name,
  stoolap_thd_foreign_keys,
}
use stoolap_mariadb.ThdInspect.ForeignKeys.{Describes, stoolap_thd_foreign_keys-Describes}

same : Bytes → Bytes
same name = name

abbrev orders_key : ForeignKey
orders_key = record {
  columns = codes "customer" ∷ [];
  ref_db = [];
  ref_table = codes "customers";
  ref_columns = codes "id" ∷ [];
  delete_opt = 1;
  update_opt = 0;
}

abbrev creating : Lex
creating = record {
  command = other_cmd;
  ignore = false;
  duplicates = dup_error;
  keys = other_key ∷ foreign orders_key ∷ [];
  target = none;
  drops = [];
  changes = [];
  renames = [];
}

abbrev orders_definition : ThdForeignKey
orders_definition = record {
  column = codes "customer";
  parent_path = codes "shop/customers";
  parent_column = codes "id";
  on_delete = 1;
  on_update = 0;
}

stoolap_thd_foreign_keys-Describes_example :
    Describes (file_name false same same) (codes "shop") (orders_key ∷ []) (orders_definition ∷ [])
unfolding stoolap_thd_foreign_keys file_name same
stoolap_thd_foreign_keys-Describes_example =
    stoolap_thd_foreign_keys-Describes false same same creating (codes "shop")
      (orders_definition ∷ []) refl
