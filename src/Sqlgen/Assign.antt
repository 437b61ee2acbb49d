-- ===== src/Sqlgen/Assign.antt =====
-- `assignment` of src/stoolap_sqlgen.cc: the value that an UPDATE's SET writes, with its check.
pub mod Templates
pub mod Range
pub mod Safe
use stoolap_mariadb.Common.{
  ℕ, ◌+◌, ◌-◌, ◌^◌, Bool, true, false, not, ◌&&◌, ◌||◌, List, [], ◌∷◌, ◌++◌, Option, none, some,
  Bytes, String, codes, ltb, leb, ◌==◌, if◌then◌else◌,
}
use stoolap_mariadb.Common.Int.{ℤ, pos, negsuc, pos_part, neg_part}
use stoolap_mariadb.Handler.Savepoints.{decimal}
use stoolap_mariadb.Types.{
  CharSet, Field, FieldType, tiny, short, int24, long, year, double, varchar, var_string, tiny_blob,
  blob, medium_blob, long_blob,
}
use stoolap_mariadb.Sqlgen.Items.{
  Attrs, FieldTable, BoundField, FuncType, eq_func, FuncInfo, CondType, cond_and, cond_or,
  other_cond, Item, OptItem, Items, column, ref, constant, null_item, param, func, cond, no_items,
  item, attrs_of, real_item,
}
use stoolap_mariadb.Sqlgen.Classes.{Class, int, real, str, unsafe, is_class, cls}
use stoolap_mariadb.Sqlgen.Gen.{
  Gen, State, Outcome, wrote, refused, ◌>>=◌, pure, emit, fail, require, within, ◌⊕◌, signed, ident,
  Env, fresh,
}
use stoolap_mariadb.Sqlgen.Funcs.{Arg, condition, expr}
use stoolap_mariadb.Sqlgen.Node.{node, args}

-- The session: is_strict_mode, no CLIENT_FOUND_ROWS, server_stores_zero_for_negative_zero, and
-- MariaDB's NOT_FIXED_DEC
pub record Session : Type 0 where
  pub strict : Bool
  pub changed_only : Bool
  pub zero_for_negative_zero : Bool
  pub not_fixed_dec : ℕ

-- The server's version, none where sscanf does not read three numbers
unfoldable pub server_stores_zero : Option (ℕ × ℕ × ℕ) → Bool
server_stores_zero none = false
server_stores_zero (some (major, minor, patch)) =
    if not (major == 11)
    then ltb 11 major
    else if not (minor == 4)
    then ltb 4 minor
    else leb 11 patch

pub data GuardError : Type 0 where
  out_of_range data_too_long : GuardError

-- ModifyGuard, where it has an error
pub record Guard : Type 0 where
  pub column : Bytes
  pub error : GuardError

abbrev pub ltz : ℤ → ℤ → Bool
ltz a b = ltb (pos_part a + neg_part b) (pos_part b + neg_part a)

int_bits : FieldType → Option ℕ
int_bits tiny = some 8
int_bits short = some 16
int_bits int24 = some 24
int_bits long = some 32
int_bits _ = none

-- An integer column's least and greatest value
range_of : Bool → ℕ → ℤ × ℤ
range_of is_unsigned bits =
    if is_unsigned
    then (pos 0, pos (2 ^ bits - 1))
    else (negsuc (2 ^ (bits - 1) - 1), pos (2 ^ (bits - 1) - 1))

unfoldable pub int_range : Field → Option (ℤ × ℤ)
unfolding int_bits range_of
int_range f = elim (int_bits f.real_type) [
  | none ↦ none
  | some bits ↦ some (range_of f.is_unsigned bits)
]

unfoldable pub in_range : ℤ × ℤ → ℤ → Bool
in_range (lo, hi) n = not (ltz n lo) && not (ltz hi n)

is_year : FieldType → Bool
is_year year = true
is_year _ = false

is_double : FieldType → Bool
is_double double = true
is_double _ = false

is_varchar : FieldType → Bool
is_varchar varchar = true
is_varchar var_string = true
is_varchar _ = false

is_text : FieldType → Bool
is_text tiny_blob = true
is_text blob = true
is_text medium_blob = true
is_text long_blob = true
is_text _ = false

-- What a value needs: nothing, `+ 0.0`, or a check, whose text has `@` for the value and `!` for the
-- overflow that fails the statement
pub data Check : Type 0 where
  no_check add_zero : Check
  checked : Bytes → GuardError → Check

unfoldable pub range_check : ℤ × ℤ → Bytes
range_check (lo, hi) =
    codes "CASE WHEN @ < "
    ++ (signed lo ++ (codes " OR @ > " ++ (signed hi ++ codes " THEN ! ELSE @ END")))

unfoldable pub int_check : Bool → Attrs → Option (ℤ × ℤ) → Gen Check
unfolding range_check
int_check literal_value v none = pure no_check
int_check literal_value v (some r) =
    if literal_value
    then require (in_range r v.val_int) "value out of range" (pure no_check)
    else pure (checked (range_check r) out_of_range)

-- REPLACE of each white space in SUBSTR past the column
strip : List ℕ → Bytes → Bytes
strip [] rest = rest
strip (ws ∷ more) rest =
    strip more (codes "REPLACE(" ++ (rest ++ (codes ", '" ++ (ws ∷ codes "', '')"))))

white_spaces : List ℕ
white_spaces = 32 ∷ 9 ∷ 10 ∷ 11 ∷ 12 ∷ 13 ∷ []

unfoldable pub length_check : ℕ → Bytes
unfolding strip white_spaces
length_check chars =
    let n = decimal chars in
    codes "CASE WHEN @ IS NULL OR CHAR_LENGTH(@) <= "
    ++ (n
        ++ (codes " THEN @ WHEN "
            ++ (strip white_spaces (codes "SUBSTR(@, " ++ (n ++ codes " + 1)"))
                ++ (codes " = '' THEN SUBSTR(@, 1, " ++ (n ++ codes ") ELSE ! END")))))

max_bytes : Option CharSet → ℕ
max_bytes none = 0
max_bytes (some cs) = cs.mbmaxlen

byte_count : Bytes → ℕ
byte_count [] = 0
byte_count (c ∷ s) = byte_count s + 1

fits : Bool → BoundField → Attrs → Bytes → Bool
unfolding byte_count
fits is_var fl v s =
    if is_var then leb v.str_chars fl.field.char_length else leb (byte_count s) fl.field_length

unfoldable pub str_literal : Bool → BoundField → Attrs → Option Bytes → Gen Check
unfolding fits
str_literal is_var fl v none = fail "string value"
str_literal is_var fl v (some s) = require (fits is_var fl v s) "value too long" (pure no_check)

unfoldable pub str_check : Bool → BoundField → Attrs → Gen Check
unfolding max_bytes is_varchar is_text str_literal length_check
str_check literal_value fl v =
    let is_var = is_varchar fl.field.real_type in
    require (max_bytes fl.field.charset == 4) "string target" (
      require (is_var || is_text fl.field.real_type) "string target" (
        if literal_value
        then str_literal is_var fl v v.val_str
        else require is_var "text target" (
            require (leb v.max_length (2 ^ 20)) "value may be large"
              (pure (checked (length_check fl.field.char_length) data_too_long)))))

pub FieldType-discrete : Discrete FieldType
FieldType-discrete = hlevel

same_type : FieldType → FieldType → Bool
same_type a b = elim (FieldType-discrete a b) [ yes e ↦ true | no ne ↦ false ]

unfoldable pub temporal_check : BoundField → Item → Gen Check
unfolding same_type
temporal_check fl (column a (some src)) =
    require
      (same_type src.field.real_type fl.field.real_type && src.field.decimals == fl.field.decimals)
      "temporal value" (pure no_check)
temporal_check fl _ = fail "temporal value"

unfoldable pub class_check : Session → Class → Bool → BoundField → Item → Gen Check
unfolding int_check str_check temporal_check is_year is_double
class_check session int literal_value fl v =
    require (not (is_year fl.field.real_type)) "YEAR target"
      (int_check literal_value (attrs_of v) (int_range fl.field))
class_check session real literal_value fl v =
    require (is_double fl.field.real_type && leb session.not_fixed_dec fl.field.decimals)
      "rounding float target"
      (require session.zero_for_negative_zero "DOUBLE target on a server keeping -0.0"
        (pure add_zero))
class_check session str literal_value fl v = str_check literal_value fl (attrs_of v)
class_check session _ literal_value fl v = temporal_check fl (real_item v)

-- kGuardOverflow
unfoldable pub guard_overflow : Bytes
guard_overflow = codes "9223372036854775807 + 4242"

-- The check's text, with the value for `@` and `overflow` for `!`
unfoldable pub expand : Bytes → Bytes → Bytes → Bytes
expand value overflow [] = []
expand value overflow (c ∷ s) =
    let rest = expand value overflow s in
    if c == b'@' then value ++ rest else if c == b'!' then overflow ++ rest else c ∷ rest

-- What `assignment` appends, the text of what the column stores, and the guard after it
pub record Assigned : Type 0 where
  pub text : Bytes
  pub stored : Bytes
  pub guard : Option Guard

unfoldable pub parenthesised : Bytes → Bytes
parenthesised e = codes "(" ++ (e ++ codes ")")

unfoldable pub stored_text : GuardError → Bytes → Bytes → Bytes
stored_text out_of_range check e = e
stored_text data_too_long check e = expand e e check

no_guard : Option Guard → Bool
no_guard none = true
no_guard (some g) = false

unfoldable pub write_value : Session → BoundField → Arg → Option Guard → Check → Gen Assigned
unfolding parenthesised stored_text no_guard guard_overflow
write_value session fl v guard no_check = do
  text ← expr v
  pure (record { text = text; stored = parenthesised text; guard = guard })
write_value session fl v guard add_zero = do
  text ← expr v
  pure (record {
    text = text ++ codes " + 0.0";
    stored = parenthesised (text ++ codes " + 0.0");
    guard = guard;
  })
write_value session fl v guard (checked check error) =
    require session.strict "value may not fit, outside strict mode" (
      require (no_guard guard) "two checked SET values" (do
        value ← expr v
        pure (record {
          text = expand (parenthesised value) guard_overflow check;
          stored = stored_text error check (parenthesised value);
          guard = some (record { column = fl.field.name; error = error });
        })))

is_param : Item → Bool
is_param (param a) = true
is_param _ = false

is_constant : Item → Bool
is_constant (constant a) = true
is_constant _ = false

unfoldable pub assignment : Session → Item → BoundField → Arg → Option Guard → Gen Assigned
unfolding is_param is_constant class_check write_value
assignment session target fl v guard =
    let a = attrs_of v.of in
    let tc = cls target in
    let vc = cls v.of in
    require (not (is_param v.of)) "parameter without a value" (
      if a.const_is_null
      then require (not fl.not_null) "NULL into NOT NULL"
          (pure (record { text = codes "NULL"; stored = codes "NULL"; guard = guard }))
      else require (not (fl.not_null && a.maybe_null)) "nullable value into NOT NULL" (
          require
            (not (is_class tc unsafe) && (is_class tc vc || is_class tc real && is_class vc int))
            "SET converts its value"
            (do
              check ← class_check session tc (is_constant v.of) fl v.of
              write_value session fl v guard check)))
