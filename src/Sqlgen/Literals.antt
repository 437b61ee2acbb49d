-- ===== src/Sqlgen/Literals.antt =====
-- The literals of src/stoolap_sqlgen.cc: `literal`, and `temporal_literal`, the packed value of a
-- constant that a date or time column is compared with.
pub mod Safe
use stoolap_mariadb.Common.{
  ℕ, ◌+◌, ◌%◌, Bool, true, false, not, ◌&&◌, ◌||◌, List, [], ◌∷◌, ◌++◌, Option, none, some, Bytes,
  codes, leb, ◌==◌, if◌then◌else◌,
}
use stoolap_mariadb.Common.Int.{is_negative}
use stoolap_mariadb.Types.{FieldType, date, newdate, datetime, datetime2, time, time2}
use stoolap_mariadb.Sqlgen.Items.{
  ResultType, int_result, real_result, decimal_result, string_result, time_result, Mark, digit,
  point, exponent, plus, minus, Attrs, Item, attrs_of,
}
use stoolap_mariadb.Sqlgen.Classes.{Class, datetime_class, time_class, is_class, cls}
use stoolap_mariadb.Sqlgen.Gen.{Gen, emit, fail, require, signed, doubled, text_quote, Parsed, Env}

unfoldable pub mark_code : Mark → ℕ
mark_code (digit n) = 48 + n % 10
mark_code point = b'.'
mark_code exponent = b'e'
mark_code plus = b'+'
mark_code minus = b'-'

unfoldable pub number_text : List Mark → Bytes
unfolding mark_code
number_text [] = []
number_text (m ∷ ms) = mark_code m ∷ number_text ms

is_digit : ℕ → Bool
is_digit c = leb b'0' c && leb c b'9'

-- The digits from the first that is not a leading zero
significant : Bool → Bytes → ℕ
unfolding is_digit
significant leading [] = 0
significant leading (c ∷ s) =
    let skip = significant leading s in
    let counted = significant false s in
    if not (is_digit c) || leading && (c == b'0') then skip else counted + 1

among : Bytes → ℕ → Bool
among [] c = false
among (x ∷ xs) c = c == x || among xs c

unfoldable pub contains_any : Bytes → Bytes → Bool
unfolding among
contains_any cs [] = false
contains_any cs (c ∷ s) = among cs c || contains_any cs s

-- A number's text, with ".0" where none of `marks` is in it
unfoldable pub with_point : Bytes → Bytes → Bytes
with_point marks s = if contains_any marks s then s else s ++ codes ".0"

-- A backslash or a NUL
unfoldable pub has_escape : Bytes → Bool
has_escape [] = false
has_escape (c ∷ s) = c == 92 || c == 0 || has_escape s

unfoldable pub quoted : Bytes → Bytes
quoted s = text_quote ∷ (doubled text_quote s ++ (text_quote ∷ []))

unfoldable pub decimal_literal : Option (List Mark) → Gen Bytes
unfolding significant with_point contains_any
decimal_literal none = fail "decimal literal"
decimal_literal (some ms) =
    require (leb (significant true (number_text ms)) 15) "decimal literal past a double"
      (emit (with_point (codes ".") (number_text ms)))

unfoldable pub real_literal : Option (List Mark) → Gen Bytes
unfolding with_point contains_any
real_literal none = fail "non-finite literal"
real_literal (some ms) = emit (with_point (codes ".eE") (number_text ms))

unfoldable pub string_literal : Option Bytes → Gen Bytes
unfolding quoted
string_literal none = fail "string literal"
string_literal (some s) = require (not (has_escape s)) "string escape" (emit (quoted s))

unfoldable pub literal_of : ResultType → Attrs → Gen Bytes
unfolding decimal_literal real_literal string_literal
literal_of int_result a =
    require (not (a.unsigned_flag && is_negative a.val_int)) "unsigned literal"
      (emit (signed a.val_int))
literal_of real_result a = real_literal a.val_real
literal_of decimal_result a = decimal_literal a.val_decimal
literal_of string_result a = string_literal a.val_str
literal_of _ a = fail "literal type"

unfoldable pub literal : Attrs → Gen Bytes
unfolding literal_of
literal a =
    require a.const_item "non-constant literal"
      (if a.is_null then emit (codes "NULL") else literal_of a.cmp_type a)

-- Whether a type is compared as a time, none for neither a time nor a date
time_kind : FieldType → Option Bool
time_kind date = some false
time_kind newdate = some false
time_kind datetime = some false
time_kind datetime2 = some false
time_kind time = some true
time_kind time2 = some true
time_kind _ = none

-- want_time, from the comparison's type where it is known
wanted : Class → Option FieldType → Option Bool
unfolding time_kind
wanted c none = some (is_class c time_class)
wanted c (some h) = time_kind h

same_kind : Bool → Option Bool → Bool
same_kind a none = false
same_kind a (some b) = if a then b else not b

zero_part : ℕ × ℕ × ℕ → Bool
zero_part (y, m, d) = y == 0 || m == 0 || d == 0

unfoldable pub packed_constant : Env → Bool → Attrs → Option Bytes
unfolding same_kind zero_part time_kind
packed_constant env want_time k =
    if not (same_kind want_time (time_kind k.field_type)) then none else elim k.packed [
      | none ↦ none
      | some v ↦ if not want_time && zero_part (env.unpack_date v) then none else some (signed v)
    ]

unfoldable pub parsed_ok : Bool → Parsed → Bool
unfolding zero_part
parsed_ok want_time p =
    (if want_time then p.is_time else not (zero_part (p.year, p.month, p.day)))
    && not p.warned
    && (p.nanoseconds == 0)

unfoldable pub parsed_text : Env → Bool → Bytes → Option Bytes
unfolding parsed_ok
parsed_text env want_time s = elim (env.parse want_time s) [
  | none ↦ none
  | some p ↦ if parsed_ok want_time p then some (signed p.packed) else none
]

unfoldable pub parsed_constant : Env → Bool → Attrs → Option Bytes → Option Bytes
unfolding parsed_text
parsed_constant env want_time k none = none
parsed_constant env want_time k (some s) =
    if k.str_minlen == 1 then parsed_text env want_time s else none

unfoldable pub constant_of : ResultType → Env → Bool → Attrs → Option Bytes
unfolding packed_constant parsed_constant
constant_of time_result env want_time k = packed_constant env want_time k
constant_of string_result env want_time k = parsed_constant env want_time k k.val_str
constant_of _ env want_time k = none

-- `h`: the type of the comparison, none for BETWEEN
unfoldable pub temporal_literal : Env → Item → Item → Option FieldType → Option Bytes
unfolding wanted same_kind constant_of
temporal_literal env col k h =
    let c = cls col in
    let a = attrs_of k in
    let is_time = is_class c time_class in
    if not (is_class c datetime_class || is_time)
      || not a.basic_const
      || a.is_null
      || not (same_kind is_time (wanted c h))
    then none
    else constant_of a.cmp_type env is_time a
