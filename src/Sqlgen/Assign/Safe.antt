-- ===== src/Sqlgen/Assign/Safe.antt =====
-- What `assignment` writes for a SET value, and what it says that the column stores, are closed texts
-- where the value's is.
use stoolap_mariadb.Common.{refl, Bool, ◌++◌, Option, none, some, Bytes, codes}
use stoolap_mariadb.Common.Int.{ℤ}
use stoolap_mariadb.Sqlgen.Items.{Attrs, BoundField, Item, column, attrs_of, real_item}
use stoolap_mariadb.Sqlgen.Classes.{Class, int, real, str, cls}
use stoolap_mariadb.Sqlgen.Gen.{pure}
use stoolap_mariadb.Sqlgen.Lexer.{
  Closed, Closed-of, Closed-append, Closed-within, Opens-of, Closes-of, lex, step, close_one,
}
use stoolap_mariadb.Sqlgen.Safe.{
  Yields, Yields-pure, Yields-fail, Yields-bind, Yields-require, Yields-if, Safe,
}
use stoolap_mariadb.Sqlgen.Funcs.{Arg}
use stoolap_mariadb.Sqlgen.Funcs.Safe.{expr-Safe}
use stoolap_mariadb.Sqlgen.Assign.{
  Session, Guard, GuardError, out_of_range, data_too_long, Check, no_check, add_zero, checked,
  int_range, int_check, str_literal, str_check, temporal_check, class_check, guard_overflow,
  Assigned, parenthesised, stored_text, write_value, assignment,
}
use stoolap_mariadb.Sqlgen.Assign.Templates.{
  IsTemplate, range_check-IsTemplate, length_check-IsTemplate,
}

abbrev CheckOk : Check → Type 0
CheckOk no_check = Unit
CheckOk add_zero = Unit
CheckOk (checked t error) = IsTemplate t

pub record AssignedOk (a : Assigned) : Type 0 where
  pub text : Closed a.text
  pub stored : Closed a.stored

parenthesised-Closed : (e : Bytes) → Closed e → Closed (parenthesised e)
unfolding parenthesised lex step close_one
parenthesised-Closed e h =
    Closed-within 1 (codes "(") e (codes ")") (Opens-of 1 (codes "(") refl) h
      (Closes-of 1 (codes ")") refl)

guard_overflow-Closed : Closed guard_overflow
unfolding guard_overflow lex step
guard_overflow-Closed = Closed-of _ refl

no_check_ok : Yields CheckOk (pure no_check)
no_check_ok = Yields-pure CheckOk no_check tt

int_check-Yields :
    (lit : Bool) (v : Attrs) (r : Option (ℤ × ℤ)) → Yields CheckOk (int_check lit v r)
unfolding int_check
int_check-Yields lit v none = no_check_ok
int_check-Yields lit v (some r) =
    Yields-if CheckOk lit _ _ (Yields-require CheckOk _ _ _ no_check_ok)
      (Yields-pure CheckOk _ (range_check-IsTemplate r))

str_literal-Yields :
    (var : Bool) (fl : BoundField) (v : Attrs) (s : Option Bytes)
    → Yields CheckOk (str_literal var fl v s)
unfolding str_literal
str_literal-Yields var fl v none = Yields-fail CheckOk _
str_literal-Yields var fl v (some s) = Yields-require CheckOk _ _ _ no_check_ok

str_check-Yields : (lit : Bool) (fl : BoundField) (v : Attrs) → Yields CheckOk (str_check lit fl v)
unfolding str_check
str_check-Yields lit fl v = Yields-require CheckOk _ _ _ (
    Yields-require CheckOk _ _ _ (
      Yields-if CheckOk lit _ _ (str_literal-Yields _ fl v v.val_str) (
        Yields-require CheckOk _ _ _ (
          Yields-require CheckOk _ _ _
            (Yields-pure CheckOk _ (length_check-IsTemplate fl.field.char_length))))))

temporal_check-Yields : (fl : BoundField) (i : Item) → Yields CheckOk (temporal_check fl i)
unfolding temporal_check
temporal_check-Yields fl (column a (some src)) = Yields-require CheckOk _ _ _ no_check_ok
temporal_check-Yields fl (column a none) = Yields-fail CheckOk _
temporal_check-Yields fl _ = Yields-fail CheckOk _

class_check-Yields :
    (session : Session) (c : Class) (lit : Bool) (fl : BoundField) (v : Item)
    → Yields CheckOk (class_check session c lit fl v)
unfolding class_check
class_check-Yields session int lit fl v =
    Yields-require CheckOk _ _ _ (int_check-Yields lit (attrs_of v) (int_range fl.field))
class_check-Yields session real lit fl v =
    Yields-require CheckOk _ _ _ (Yields-require CheckOk _ _ _ (Yields-pure CheckOk add_zero tt))
class_check-Yields session str lit fl v = str_check-Yields lit fl (attrs_of v)
class_check-Yields session _ lit fl v = temporal_check-Yields fl (real_item v)

stored_text-Closed :
    (error : GuardError) (t e : Bytes) → IsTemplate t → Closed e → Closed (stored_text error t e)
unfolding stored_text
stored_text-Closed out_of_range t e ht h = h
stored_text-Closed data_too_long t e ht h = ht.closes e e h h

write_value-Yields :
    (session : Session) (fl : BoundField) (v : Arg) (g : Option Guard) (c : Check)
    → Safe v.node
    → CheckOk c
    → Yields AssignedOk (write_value session fl v g c)
unfolding write_value lex step
write_value-Yields session fl v g no_check h hc =
    Yields-bind Closed AssignedOk _ _ (expr-Safe v h) λ text ht.
      Yields-pure AssignedOk _ (record { text = ht; stored = parenthesised-Closed text ht })
write_value-Yields session fl v g add_zero h hc =
    Yields-bind Closed AssignedOk _ _ (expr-Safe v h) λ text ht.
      let sum : Closed (text ++ codes " + 0.0") =
        Closed-append text _ ht (Closed-of (codes " + 0.0") refl) in
      Yields-pure AssignedOk _ (record { text = sum; stored = parenthesised-Closed _ sum })
write_value-Yields session fl v g (checked t error) h hc = Yields-require AssignedOk _ _ _ (
    Yields-require AssignedOk _ _ _ (
      Yields-bind Closed AssignedOk _ _ (expr-Safe v h) λ value hv.
        let e = parenthesised-Closed value hv in
        Yields-pure AssignedOk _ (record {
          text = hc.closes _ _ e guard_overflow-Closed;
          stored = stored_text-Closed error t _ hc e;
        })))

null_assigned :
    (g : Option Guard)
    → AssignedOk (record { text = codes "NULL"; stored = codes "NULL"; guard = g })
unfolding lex step
null_assigned g = record { text = Closed-of _ refl; stored = Closed-of _ refl }

pub assignment-Yields :
    (session : Session) (target : Item) (fl : BoundField) (v : Arg) (g : Option Guard)
    → Safe v.node
    → Yields AssignedOk (assignment session target fl v g)
unfolding assignment
assignment-Yields session target fl v g h = Yields-require AssignedOk _ _ _ (
    Yields-if AssignedOk _ _ _
      (Yields-require AssignedOk _ _ _ (Yields-pure AssignedOk _ (null_assigned g)))
      (Yields-require AssignedOk _ _ _ (
        Yields-require AssignedOk _ _ _ (
          Yields-bind CheckOk AssignedOk _ _ (class_check-Yields session (cls target) _ fl v.of)
            λ check hc. write_value-Yields session fl v g check h hc))))
