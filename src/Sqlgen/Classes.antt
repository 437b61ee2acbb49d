-- ===== src/Sqlgen/Classes.antt =====
-- The type safety of src/stoolap_sqlgen.cc: the class of a value, and where MariaDB and stoolap compare
-- or order values alike.
use stoolap_mariadb.Common.{
  Bool, true, false, not, ◌&&◌, ◌||◌, List, [], ◌∷◌, Option, none, some, if◌then◌else◌,
}
use stoolap_mariadb.Types.{
  CharSet, Field, FieldType, Enc, plain, text_is_utf8, field_enc, tiny, short, int24, long, year,
  longlong, float, double, varchar, var_string, string, tiny_blob, blob, medium_blob, long_blob,
  date, newdate, datetime, datetime2, time, time2, timestamp, timestamp2,
}
use stoolap_mariadb.Sqlgen.Items.{
  ResultType, int_result, real_result, decimal_result, string_result, Attrs, BoundField, SumType,
  sum_func, sum_distinct_func, Item, OptItem, Items, column, ref, null_item, sum, no_item, an_item,
  no_items, item, attrs_of,
}

-- Cls
pub data Class : Type 0 where
  int real str datetime_class time_class tstamp unsafe : Class

unfoldable pub temporal : Class → Bool
temporal datetime_class = true
temporal time_class = true
temporal tstamp = true
temporal _ = false

unfoldable pub numeric : Class → Bool
numeric int = true
numeric real = true
numeric _ = false

unfoldable pub is_class : Class → Class → Bool
is_class int int = true
is_class real real = true
is_class str str = true
is_class datetime_class datetime_class = true
is_class time_class time_class = true
is_class tstamp tstamp = true
is_class unsafe unsafe = true
is_class _ _ = false

is_bin : Option CharSet → Bool
is_bin none = false
is_bin (some cs) = cs.is_bin

is_plain : Enc → Bool
is_plain plain = true
is_plain _ = false

string_class : Field → Class
unfolding is_bin is_plain
string_class f =
    if not (is_plain (field_enc f)) || not f.has_charset || is_bin f.charset then unsafe else str

type_class : FieldType → Field → Class
unfolding string_class
type_class tiny f = int
type_class short f = int
type_class int24 f = int
type_class long f = int
type_class year f = int
type_class longlong f = if f.is_unsigned then unsafe else int
type_class float f = real
type_class double f = real
type_class varchar f = string_class f
type_class var_string f = string_class f
type_class string f = string_class f
type_class tiny_blob f = string_class f
type_class blob f = string_class f
type_class medium_blob f = string_class f
type_class long_blob f = string_class f
type_class date f = datetime_class
type_class newdate f = datetime_class
type_class datetime f = datetime_class
type_class datetime2 f = datetime_class
type_class time f = time_class
type_class time2 f = time_class
type_class timestamp f = tstamp
type_class timestamp2 f = tstamp
type_class _ f = unsafe

field_class : Option BoundField → Class
unfolding type_class
field_class none = unsafe
field_class (some b) = type_class b.field.real_type b.field

result_class : ResultType → Attrs → Class
result_class int_result a = if a.unsigned_flag then unsafe else int
result_class real_result a = real
result_class decimal_result a = if a.basic_const then real else unsafe
result_class string_result a = if text_is_utf8 a.collation then str else unsafe
result_class _ a = unsafe

unfoldable pub is_sum : SumType → Bool
is_sum sum_func = true
is_sum sum_distinct_func = true
is_sum _ = false

-- cls: `outer` is the item asked about, whose real_item the first argument comes to be.
mutual
  unfolding field_class result_class is_sum is_class

  cls_real : Item → Attrs → Class
  cls_real (column a f) outer = field_class f
  cls_real (ref a t k i) outer = cls_ref i outer
  cls_real (sum a s xs) outer =
      if is_sum s && is_int_alone xs then int else result_class outer.cmp_type outer
  cls_real _ outer = result_class outer.cmp_type outer

  cls_ref : OptItem → Attrs → Class
  cls_ref no_item outer = result_class outer.cmp_type outer
  cls_ref (an_item i) outer = cls_real i outer

  is_int_alone : Items → Bool
  is_int_alone no_items = false
  is_int_alone (item x xs) = is_class (cls_real x (attrs_of x)) int && no_more xs

  no_more : Items → Bool
  no_more no_items = true
  no_more (item x xs) = false

unfoldable pub cls : Item → Class
unfolding cls_real
cls i = cls_real i (attrs_of i)

unfoldable pub is_null_item : Item → Bool
is_null_item (null_item a) = true
is_null_item _ = false

byte_order : Option CharSet → Bool
byte_order none = false
byte_order (some cs) = cs.binsort && cs.nopad

module _ (trust_bin : Bool) where
  unfoldable pub cs_safe : Option CharSet → Bool
  unfolding byte_order
  cs_safe cs = if not (text_is_utf8 cs) then false else if trust_bin then true else byte_order cs

  unfoldable pub str_cmp_safe : Item → Bool
  str_cmp_safe i = cs_safe (attrs_of i).collation

  -- A null cmp_cs leaves it to both operands' collations.
  strings_compare : Item → Item → Option CharSet → Bool
  strings_compare a b none = str_cmp_safe a && str_cmp_safe b
  strings_compare a b (some cs) = cs_safe (some cs)

  unfoldable pub comparable : Item → Item → Option CharSet → Bool
  unfolding strings_compare
  comparable a b cmp_cs =
      let ca = cls a in
      let cb = cls b in
      if is_null_item a || is_null_item b
      then true
      else if numeric ca && numeric cb
      then true
      else if is_class ca str && is_class cb str
      then strings_compare a b cmp_cs
      else is_class ca cb && temporal ca

  unfoldable pub orderable : Item → Bool
  orderable i =
      let c = cls i in if numeric c || temporal c then true else is_class c str && str_cmp_safe i

family_from : Bool → Bool → List Item → Bool
family_from any_num any_str [] = not (any_num && any_str)
family_from any_num any_str (x ∷ xs) =
    let more_num = family_from true any_str xs in
    let more_str = family_from any_num true xs in
    let skip = family_from any_num any_str xs in
    if is_null_item x
    then skip
    else if numeric (cls x)
    then more_num
    else if is_class (cls x) str
    then more_str
    else false

unfoldable pub same_family : List Item → Bool
unfolding family_from
same_family xs = family_from false false xs

-- branches: `f` is the function whose result they are.
unfoldable pub branches : Item → List Item → Bool
branches f xs = same_family xs && not (is_class (cls f) unsafe)
