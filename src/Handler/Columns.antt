-- ===== src/Handler/Columns.antt =====
-- stoolap_column_kind of src/ha_stoolap.cc: the type that a column is stored in.
use stoolap_mariadb.Common.{Option, none, some, if◌then◌else◌}
use stoolap_mariadb.Types.{
  Field, FieldType, Enc, plain, packed_time, utc_micros, index, hex, field_enc, is_string_type,
  tiny, short, long, longlong, int24, year, bit, float, double, newdecimal,
}

-- STOOLAP_COL_*
pub data ColumnKind : Type 0 where
  integer float64 text : ColumnKind

unfoldable pub plain_kind : FieldType → Option ColumnKind
plain_kind tiny = some integer
plain_kind short = some integer
plain_kind long = some integer
plain_kind longlong = some integer
plain_kind int24 = some integer
plain_kind year = some integer
plain_kind bit = some integer
plain_kind float = some float64
plain_kind double = some float64
plain_kind newdecimal = some text
plain_kind t = if is_string_type t then some text else none

unfoldable pub kind_of : Enc → FieldType → Option ColumnKind
unfolding plain_kind
kind_of packed_time t = some integer
kind_of utc_micros t = some integer
kind_of index t = some integer
kind_of hex t = some text
kind_of plain t = plain_kind t

-- none: 0, no type fits
unfoldable pub stoolap_column_kind : Field → Option ColumnKind
unfolding kind_of
stoolap_column_kind f = kind_of (field_enc f) f.real_type
