-- ===== src/Sqlgen/Funcs/Safe.antt =====
-- What the methods of src/stoolap_sqlgen.cc write for values, conditions and calls is closed where it
-- is for their arguments.
use stoolap_mariadb.Common.{ℕ, zero, suc, refl, List, [], ◌∷◌, Bytes, codes, take, drop}
use stoolap_mariadb.Sqlgen.Items.{CondType, cond_and, cond_or, other_cond}
use stoolap_mariadb.Sqlgen.Classes.{Class}
use stoolap_mariadb.Sqlgen.Gen.{Gen}
use stoolap_mariadb.Sqlgen.Lexer.{Closed, Closed-of, lex, step}
use stoolap_mariadb.Sqlgen.Safe.{
  Safe, Safe-fail, Safe-require, Safe-if, Safe-emit, Safe-emit_closed, ◌▸◌, Safe-within,
}
use stoolap_mariadb.Sqlgen.Funcs.{
  Arg, condition, expr, branch, more_of, separated, args_csv, parens, binop, whens_of, else_of,
  conds, cond,
}

abbrev pub AllSafe : List Arg → Type 0
AllSafe [] = Unit
AllSafe (x ∷ xs) = Safe x.node × AllSafe xs

pub condition-Safe : (x : Arg) → Safe x.node → Safe (condition x)
unfolding condition
condition-Safe x h = Safe-require _ _ h

pub expr-Safe : (x : Arg) → Safe x.node → Safe (expr x)
unfolding expr lex step
expr-Safe x h = Safe-if _ h (Safe-within _ _ refl refl h)

pub parens-Safe : {g : Gen Bytes} → Safe g → Safe (parens g)
unfolding parens lex step
parens-Safe h = Safe-within _ _ refl refl h

pub binop-Safe :
    (a : Arg) (op : Bytes) (b : Arg) → Safe a.node → Safe b.node → Closed op → Safe (binop a op b)
unfolding binop
binop-Safe a op b ha hb ho = parens-Safe (expr-Safe a ha ▸ Safe-emit_closed ho ▸ expr-Safe b hb)

pub branch-Safe : (c : Class) (x : Arg) → Safe x.node → Safe (branch c x)
unfolding branch lex step
branch-Safe c x h = Safe-if _ (expr-Safe x h) (Safe-within _ _ refl refl (expr-Safe x h))

more_of-Safe :
    (sep : Bytes) (write : Arg → Gen Bytes) (xs : List Arg)
    → Closed sep
    → ((x : Arg) → Safe x.node → Safe (write x))
    → AllSafe xs
    → Safe (more_of sep write xs)
unfolding more_of lex
more_of-Safe sep write [] hs hw all = Safe-emit _ refl
more_of-Safe sep write (x ∷ xs) hs hw all =
    Safe-emit_closed hs ▸ hw x all.0 ▸ more_of-Safe sep write xs hs hw all.1

pub separated-Safe :
    (sep : Bytes) (write : Arg → Gen Bytes) (xs : List Arg)
    → Closed sep
    → ((x : Arg) → Safe x.node → Safe (write x))
    → AllSafe xs
    → Safe (separated sep write xs)
unfolding separated lex
separated-Safe sep write [] hs hw all = Safe-emit _ refl
separated-Safe sep write (x ∷ xs) hs hw all = hw x all.0 ▸ more_of-Safe sep write xs hs hw all.1

pub args_csv-Safe : (xs : List Arg) → AllSafe xs → Safe (args_csv xs)
unfolding args_csv lex step
args_csv-Safe xs all = separated-Safe (codes ", ") expr xs (Closed-of _ refl) expr-Safe all

pub whens_of-Safe :
    (write : Arg → Gen Bytes) (rc : Class) (ws ts : List Arg)
    → ((x : Arg) → Safe x.node → Safe (write x))
    → AllSafe ws
    → AllSafe ts
    → Safe (whens_of write rc ws ts)
unfolding whens_of lex step
whens_of-Safe write rc (w ∷ ws) (t ∷ ts) hw aw at =
    Safe-emit _ refl
    ▸ hw w aw.0
    ▸ Safe-emit _ refl
    ▸ branch-Safe rc t at.0
    ▸ whens_of-Safe write rc ws ts hw aw.1 at.1
whens_of-Safe write rc [] ts hw aw at = Safe-emit _ refl
whens_of-Safe write rc (w ∷ ws) [] hw aw at = Safe-emit _ refl

pub else_of-Safe : (rc : Class) (xs : List Arg) → AllSafe xs → Safe (else_of rc xs)
unfolding else_of lex step
else_of-Safe rc [] all = Safe-emit _ refl
else_of-Safe rc (x ∷ xs) all = Safe-emit _ refl ▸ branch-Safe rc x all.0

pub take-AllSafe : (n : ℕ) (xs : List Arg) → AllSafe xs → AllSafe (take n xs)
take-AllSafe zero xs all = tt
take-AllSafe (suc n) [] all = tt
take-AllSafe (suc n) (x ∷ xs) all = (all.0, take-AllSafe n xs all.1)

pub drop-AllSafe : (n : ℕ) (xs : List Arg) → AllSafe xs → AllSafe (drop n xs)
drop-AllSafe zero xs all = all
drop-AllSafe (suc n) [] all = tt
drop-AllSafe (suc n) (x ∷ xs) all = drop-AllSafe n xs all.1

conds-Safe : (sep : Bytes) (xs : List Arg) → Closed sep → AllSafe xs → Safe (conds sep xs)
unfolding conds lex step
conds-Safe sep [] hs all = Safe-fail _
conds-Safe sep (x ∷ xs) hs all =
    Safe-within _ _ refl refl (separated-Safe sep condition (x ∷ xs) hs condition-Safe all)

pub cond-Safe : (c : CondType) (xs : List Arg) → AllSafe xs → Safe (cond c xs)
unfolding cond lex step
cond-Safe cond_and xs all = conds-Safe _ xs (Closed-of _ refl) all
cond-Safe cond_or xs all = conds-Safe _ xs (Closed-of _ refl) all
cond-Safe other_cond xs all = Safe-fail _
