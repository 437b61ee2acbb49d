-- ===== src/Sqlgen/Modify/Safe.antt =====
-- The UPDATE or DELETE that gen_modify writes, and the count of the rows it finds, are closed texts.
use stoolap_mariadb.Common.{
  ℕ, suc, ◌≡◌, refl, subst, inr, Bool, true, false, List, [], ◌∷◌, ◌++◌, Option, none, some, Bytes,
  codes, if◌then◌else◌,
}
use stoolap_mariadb.Sqlgen.Items.{BoundField, Item, column}
use stoolap_mariadb.Sqlgen.Gen.{Gen, State, Env, wrote, ident, pure, fail, ◌>>=◌, fresh}
use stoolap_mariadb.Sqlgen.Comments.{ClosedSql, Closed-ClosedSql}
use stoolap_mariadb.Sqlgen.Lexer.{
  Closed, Closed-of, Closed-append, Closed-within, Opens-of, Closes-of, ident-Closed, lex, step,
  outside, close_one,
}
use stoolap_mariadb.Sqlgen.Safe.{
  IsGood, Fine, Yields, Yields-pure, Yields-fail, Yields-bind, Yields-require, Safe, Safe-emit,
  Closed-if,
}
use stoolap_mariadb.Sqlgen.Funcs.Safe.{condition-Safe}
use stoolap_mariadb.Sqlgen.Node.Safe.{node-Safe}
use stoolap_mariadb.Sqlgen.Assign.{Session, Assigned}
use stoolap_mariadb.Sqlgen.Assign.Safe.{AssignedOk, assignment-Yields}
use stoolap_mariadb.Sqlgen.Modify.{
  Target, Setting, Sets, Modified, add_change, push_assigned, clear_assigned, set_one, set_field,
  set_target, set_list, update_head, head, where_text, nullable, filter_text, count_text, finds_one,
  name_table, modify, gen_modify,
}

record SetsOk (s : Sets) : Type 0 where
  text : Closed s.text
  changes : Closed s.changes

pub record ModifiedOk (m : Modified) : Type 0 where
  pub sql : Closed m.sql
  pub count_sql : Closed m.count_sql

add_change-Closed :
    (session : Session) (name set stored changes : Bytes)
    → Closed name
    → Closed set
    → Closed stored
    → Closed changes
    → Closed (add_change session name set stored changes)
unfolding add_change lex step
add_change-Closed session name set stored changes hn hs ht hc =
    Closed-if session.changed_only
      (Closed-append changes _ hc (
        Closed-append _ _ (Closed-if _ (Closed-of [] refl) (Closed-of (codes " OR ") refl)) (
          Closed-append name _ hn (
            Closed-append (codes ".") _ (Closed-of _ refl) (
              Closed-append set _ hs
                (Closed-append (codes " IS DISTINCT FROM ") stored (Closed-of _ refl) ht))))))
      hc

push_assigned-Safe : (address : ℕ) → Safe (push_assigned address)
unfolding push_assigned lex
push_assigned-Safe address = record {
  run = λ s good. (
    Closed-of [] refl,
    record { aliases = good.aliases; numbers = good.numbers; views = good.views },
  );
}

clear_assigned-Safe : Safe clear_assigned
unfolding clear_assigned lex
clear_assigned-Safe = record {
  run = λ s good. (
    Closed-of [] refl,
    record { aliases = good.aliases; numbers = good.numbers; views = good.views },
  );
}

module _ (env : Env) (session : Session) where
  next_ok :
      (t : Target) (fl : BoundField) (one : Assigned) (sets : Sets) (first : Bool)
      → SetsOk sets
      → AssignedOk one
      → SetsOk (record {
        text =
            sets.text
            ++ ((if first then [] else codes ", ")
                ++ (ident fl.field.name ++ (codes " = " ++ one.text)));
        changes = add_change session (ident t.name) (ident fl.field.name) one.stored sets.changes;
        guard = one.guard;
      })
  unfolding lex step
  next_ok t fl one sets first h ho = record {
    text = Closed-append sets.text _ h.text (
        Closed-append _ _ (Closed-if first (Closed-of [] refl) (Closed-of (codes ", ") refl)) (
          Closed-append (ident fl.field.name) _ (ident-Closed fl.field.name)
            (Closed-append (codes " = ") one.text (Closed-of _ refl) ho.text)));
    changes =
        add_change-Closed session (ident t.name) (ident fl.field.name) one.stored sets.changes
          (ident-Closed t.name) (ident-Closed fl.field.name) ho.stored h.changes;
  }

  set_one-Yields :
      (t : Target) (target : Item) (fl : BoundField) (v : Item) (sets : Sets) (first : Bool)
      → SetsOk sets
      → Yields SetsOk (set_one env session t target fl v sets first)
  unfolding set_one lex step
  set_one-Yields t target fl v sets first h = Yields-require SetsOk _ _ _ (
      Yields-bind AssignedOk SetsOk _ _
        (assignment-Yields session target fl _ sets.guard (node-Safe env v))
        λ one ho.
          let next : Sets = record {
            text =
                sets.text
                ++ ((if first then [] else codes ", ")
                    ++ (ident fl.field.name ++ (codes " = " ++ one.text)));
            changes =
                add_change session (ident t.name) (ident fl.field.name) one.stored sets.changes;
            guard = one.guard;
          } in
          Yields-bind Closed SetsOk _ (λ x. pure next) (push_assigned-Safe fl.address)
            λ pushed hp. Yields-pure SetsOk next (next_ok t fl one sets first h ho))

  set_field-Yields :
      (t : Target) (target v : Item) (sets : Sets) (first : Bool)
      → SetsOk sets
      → Yields SetsOk (set_field env session t target v sets first)
  unfolding set_field
  set_field-Yields t (column a (some fl)) v sets first h =
      set_one-Yields t (column a (some fl)) fl v sets first h
  set_field-Yields t (column a none) v sets first h = Yields-fail SetsOk _
  set_field-Yields t _ v sets first h = Yields-fail SetsOk _

  with_value :
      (t : Target) (target : Item) (value : Option Item) (sets : Sets) (first : Bool)
      → SetsOk sets
      → Yields SetsOk (elim value as (λ x. Gen Sets) [
        | none ↦ fail "SET without a value"
        | some v ↦ set_field env session t target v sets first
      ])
  with_value t target none sets first h = Yields-fail SetsOk _
  with_value t target (some v) sets first h = set_field-Yields t target v sets first h

  set_list-Yields :
      (t : Target) (settings : List Setting) (sets : Sets) (first : Bool)
      → SetsOk sets
      → Yields SetsOk (set_list env session t settings sets first)
  unfolding set_list set_target
  set_list-Yields t [] sets first h = Yields-pure SetsOk sets h
  set_list-Yields t (s ∷ ss) sets first h =
      Yields-bind SetsOk SetsOk _ _ (with_value t s.target s.value sets first h)
        λ next hn. set_list-Yields t ss next false hn

  head-Yields :
      (t : Target) (settings : Option (List Setting)) → Yields SetsOk (head env session t settings)
  unfolding head update_head lex step
  head-Yields t none = Yields-pure SetsOk _ (record {
    text = Closed-append (codes "DELETE FROM ") _ (Closed-of _ refl) (ident-Closed t.name);
    changes = Closed-of [] refl;
  })
  head-Yields t (some settings) = Yields-require SetsOk _ _ _ (
      Yields-require SetsOk _ _ _ (
        Yields-bind SetsOk SetsOk _ _
          (set_list-Yields t settings _ true (record {
            text = Closed-append (codes "UPDATE ") _ (Closed-of _ refl) (
                Closed-append (ident t.name) _ (ident-Closed t.name)
                  (Closed-of (codes " SET ") refl));
            changes = Closed-of [] refl;
          }))
          λ sets hs.
            Yields-bind Closed SetsOk _ _ clear_assigned-Safe
              λ cleared hc. Yields-pure SetsOk sets hs))

  where_text-Safe : (w : Option Item) → Safe (where_text env session w)
  unfolding where_text lex
  where_text-Safe none = Safe-emit [] refl
  where_text-Safe (some w) = condition-Safe _ (node-Safe env w)

  bracketed :
      (opening e closing : Bytes) (k : ℕ)
      → lex (outside 0) opening ≡ outside k
      → lex (outside k) closing ≡ outside 0
      → Closed e
      → Closed (opening ++ (e ++ closing))
  bracketed opening e closing k ho hc h =
      Closed-within k opening e closing (Opens-of k opening ho) h (Closes-of k closing hc)

  filter_text-Closed :
      (cond_sql changes : Bytes) (may_be_null : Bool)
      → Closed cond_sql
      → Closed changes
      → Closed (filter_text env session cond_sql changes may_be_null)
  unfolding filter_text lex step close_one
  filter_text-Closed cond_sql changes may_be_null hc hch =
      Closed-if _
        (let tested =
            bracketed (codes " AND ((") cond_sql (codes ") IS NOT NULL)") 2 refl refl hc in
          let filtered = bracketed (codes " AND (") changes (codes ")") 1 refl refl hch in
          Closed-within 1 (codes " WHERE (") cond_sql _ (Opens-of 1 (codes " WHERE (") refl) hc (
            closes_then
              (Closed-append _ _ (Closed-if may_be_null tested (Closed-of [] refl)) filtered)))
        (Closed-if _ (bracketed (codes " WHERE (") changes (codes ")") 1 refl refl hch) (
          Closed-if _ (Closed-append (codes " WHERE ") cond_sql (Closed-of _ refl) hc)
            (Closed-of [] refl)))
    where
      closes_then :
          {s : Bytes} → Closed s → (d : ℕ) → lex (outside (suc d)) (codes ")" ++ s) ≡ outside d
      closes_then h d = h.at d

  count_text-Closed :
      (name cond_sql changes : Bytes)
      → Closed name
      → Closed cond_sql
      → Closed (count_text env session name cond_sql changes)
  unfolding count_text lex step close_one
  count_text-Closed name cond_sql changes hn hc = Closed-if _ (Closed-of [] refl) (
      Closed-append (codes "SELECT COUNT(*) FROM ") _ (Closed-of _ refl) (
        Closed-append name _ hn (
          Closed-if _ (Closed-of [] refl)
            (Closed-append (codes " WHERE ") cond_sql (Closed-of _ refl) hc))))

  named : Target → State
  named t = record fresh { alias = (t.list, ident t.name) ∷ [] }

  named-IsGood : (t : Target) → IsGood (named t)
  unfolding named
  named-IsGood t = record {
    aliases = (ident-Closed t.name, tt);
    numbers = inr (record { name = t.name; written = refl }, refl);
    views = tt;
  }

  -- What follows `alias_[t] = name`
  rest : Target → Option (List Setting) → Option Item → Gen Modified
  rest t settings where_cond = do
    sets ← head env session t settings
    cond_sql ← where_text env session where_cond
    pure (record {
      sql =
          sets.text
          ++ filter_text env session cond_sql sets.changes (nullable env session where_cond);
      guard = sets.guard;
      count_sql = count_text env session (ident t.name) cond_sql sets.changes;
      one_row = finds_one env session t sets.changes where_cond;
    })

  rest-Yields :
      (t : Target) (settings : Option (List Setting)) (where_cond : Option Item)
      → Yields ModifiedOk (rest t settings where_cond)
  unfolding rest
  rest-Yields t settings where_cond =
      Yields-bind SetsOk ModifiedOk _ _ (head-Yields t settings) λ sets hs.
        Yields-bind Closed ModifiedOk _ _ (where_text-Safe where_cond) λ cond_sql hc.
          let m : Modified = record {
            sql =
                sets.text
                ++ filter_text env session cond_sql sets.changes (nullable env session where_cond);
            guard = sets.guard;
            count_sql = count_text env session (ident t.name) cond_sql sets.changes;
            one_row = finds_one env session t sets.changes where_cond;
          } in
          Yields-pure ModifiedOk m (record {
            sql =
                Closed-append sets.text _ hs.text
                  (filter_text-Closed cond_sql sets.changes _ hc hs.changes);
            count_sql =
                count_text-Closed (ident t.name) cond_sql sets.changes (ident-Closed t.name) hc;
          })

  -- The UPDATE or DELETE of a table, and the count of the rows that it finds: where quotes and
  -- parentheses alone are read, from outside quotes at any depth of parentheses, they end outside
  -- quotes at that depth, and never close a parenthesis that they have not opened, end a statement, or
  -- hold an escape in a text literal: the checks of a SET value, which repeat it, among them, whatever
  -- the names and the literals hold. With comments read too, so it is of a text unless it opens one.
  pub gen_modify-Closed :
      (t : Target) (settings : Option (List Setting)) (where_cond : Option Item) (m : Modified)
      (g : State)
      → gen_modify env session (some t) settings where_cond ≡ wrote m g
      → ClosedSql m.sql × ClosedSql m.count_sql
  unfolding gen_modify modify name_table rest named
  gen_modify-Closed t settings where_cond m g e =
      let fine : Fine ModifiedOk (gen_modify env session (some t) settings where_cond) =
        (rest-Yields t settings where_cond).run (named t) (named-IsGood t) in
      let ok : Fine ModifiedOk (wrote m g) = subst (Fine ModifiedOk) e fine in
      (Closed-ClosedSql m.sql ok.0.sql, Closed-ClosedSql m.count_sql ok.0.count_sql)
