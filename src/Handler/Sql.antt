-- ===== src/Handler/Sql.antt =====
-- The SQL that src/ha_stoolap.cc writes itself, with quote_ident for the names in it: MAX() of a
-- column, COUNT(*), TRUNCATE and ANALYZE. A reader of quoted names, written after the SQL standard,
-- says what the text means. The text is a C string, and no name of a table or a column holds a 0 byte.
use stoolap_mariadb.Common.{
  ℕ, ◌≡◌, arith, refl, Bool, true, false, [], ◌∷◌, ◌++◌, Option, none, some, Bytes, codes,
  append_assoc, ◌==◌, if◌then◌else◌,
}

-- '"'
abbrev pub quote : ℕ
quote = 34

-- The loop of quote_ident
doubled : Bytes → Bytes
doubled [] = []
doubled (c ∷ s) = if c == quote then quote ∷ c ∷ doubled s else c ∷ doubled s

unfoldable pub quote_ident : Bytes → Bytes
unfolding doubled
quote_ident s = quote ∷ (doubled s ++ (quote ∷ []))

-- The text of get_auto_increment's query
unfoldable pub max_sql : Bytes → Bytes → Bytes
max_sql column table =
    codes "SELECT MAX(" ++ (quote_ident column ++ (codes ") FROM " ++ quote_ident table))

-- The text of live_count's query
unfoldable pub count_sql : Bytes → Bytes
count_sql table = codes "SELECT COUNT(*) FROM " ++ quote_ident table

unfoldable pub truncate_sql : Bytes → Bytes
truncate_sql table = codes "TRUNCATE TABLE " ++ quote_ident table

unfoldable pub analyze_sql : Bytes → Bytes
analyze_sql table = codes "ANALYZE TABLE " ++ quote_ident table

infixl 5 ◌>>=◌
abbrev ◌>>=◌ {ℓ κ} : {A : Type ℓ} {B : Type κ} → Option A → (A → Option B) → Option B
none >>= f = none
some a >>= f = f a

-- A name read so far, with a byte before it
before : ℕ → Option (Bytes × Bytes) → Option (Bytes × Bytes)
before c none = none
before c (some (s, rest)) = some (c ∷ s, rest)

-- The name from inside its quotes, and what follows it: two quotes are one of the name's bytes, and
-- one ends it. The flag says that a quote has just been read.
in_quotes : Bool → Bytes → Option (Bytes × Bytes)
unfolding before
in_quotes false [] = none
in_quotes true [] = some ([], [])
in_quotes false (c ∷ r) =
    let ended = in_quotes true r in
    let more = in_quotes false r in if c == quote then ended else before c more
in_quotes true (c ∷ r) =
    let more = in_quotes false r in if c == quote then before quote more else some ([], c ∷ r)

unfoldable pub read_ident : Bytes → Option (Bytes × Bytes)
unfolding in_quotes
read_ident [] = none
read_ident (c ∷ r) = if c == quote then in_quotes false r else none

-- What follows a keyword that the text starts with
unfoldable pub after_keyword : Bytes → Bytes → Option Bytes
after_keyword [] text = some text
after_keyword (k ∷ ks) [] = none
after_keyword (k ∷ ks) (c ∷ text) =
    let rest = after_keyword ks text in if k == c then rest else none

-- A name that ends the text
whole : Bytes × Bytes → Option Bytes
whole (s, []) = some s
whole (s, c ∷ r) = none

-- The table that a statement of one keyword and one name is about
unfoldable pub read_table : Bytes → Bytes → Option Bytes
unfolding whole
read_table keyword text = do name ← after_keyword keyword text; ident ← read_ident name; whole ident

-- The column and the table of a query for a MAX()
unfoldable pub read_max : Bytes → Option (Bytes × Bytes)
unfolding read_table
read_max text = do
  name ← after_keyword (codes "SELECT MAX(") text
  column ← read_ident name
  table ← read_table (codes ") FROM ") column.1
  some (column.0, table)

-- A text that a name in quotes may stand before
abbrev ends_name : Bytes → Bool
ends_name [] = true
ends_name (c ∷ r) = if c == quote then false else true

in_quotes-doubled :
    (s rest : Bytes)
    → ends_name rest ≡ true
    → in_quotes false (doubled s ++ (quote ∷ rest)) ≡ some (s, rest)
unfolding in_quotes doubled before
in_quotes-doubled [] [] h = refl
in_quotes-doubled [] (c ∷ r) h = ground arith
in_quotes-doubled (c ∷ s) rest h = ground (arith, in_quotes-doubled s rest h)

read_ident-quote_ident :
    (s rest : Bytes) → ends_name rest ≡ true → read_ident (quote_ident s ++ rest) ≡ some (s, rest)
unfolding read_ident quote_ident
read_ident-quote_ident s rest h =
    rw (append_assoc (doubled s) (quote ∷ []) rest) (in_quotes-doubled s rest h)

read_ident-last : (s : Bytes) → read_ident (quote_ident s) ≡ some (s, [])
unfolding read_ident quote_ident
read_ident-last s = in_quotes-doubled s [] refl

after_keyword-append : (k text : Bytes) → after_keyword k (k ++ text) ≡ some text
unfolding after_keyword
after_keyword-append [] text = refl
after_keyword-append (k ∷ ks) text = ground (arith, after_keyword-append ks text)

read_table-quote_ident :
    (keyword table : Bytes) → read_table keyword (keyword ++ quote_ident table) ≡ some table
unfolding read_table whole
read_table-quote_ident keyword table =
    rw (after_keyword-append keyword (quote_ident table), read_ident-last table) refl

-- Whatever bytes the names hold, quotes among them, each statement that the handler writes is about the
-- names that it was written for and nothing follows them: the MAX() query reads that column of that
-- table, and the COUNT(*) query, TRUNCATE and ANALYZE are about that table.
pub quote_ident-read :
    (column table : Bytes)
    → (read_max (max_sql column table) ≡ some (column, table))
      × (read_table (codes "SELECT COUNT(*) FROM ") (count_sql table) ≡ some table)
      × (read_table (codes "TRUNCATE TABLE ") (truncate_sql table) ≡ some table)
      × (read_table (codes "ANALYZE TABLE ") (analyze_sql table) ≡ some table)
unfolding read_max max_sql count_sql truncate_sql analyze_sql
quote_ident-read column table =
    let from = codes ") FROM " ++ quote_ident table in
    (
      rw
          (
            after_keyword-append (codes "SELECT MAX(") (quote_ident column ++ from),
            read_ident-quote_ident column from refl,
            read_table-quote_ident (codes ") FROM ") table,
          )
          refl,
      read_table-quote_ident (codes "SELECT COUNT(*) FROM ") table,
      read_table-quote_ident (codes "TRUNCATE TABLE ") table,
      read_table-quote_ident (codes "ANALYZE TABLE ") table,
    )
