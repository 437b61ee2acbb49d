-- ===== src/Bridge/TableName.antt =====
-- stoolap_table_from_path and fit_table_name of src/stoolap_bridge.h: MariaDB's path of a table to
-- stoolap's name for it. `fit` is stoolap_fit_table_name: none where a name fits as it is.
use stoolap_mariadb.Common.{
  ◌≡◌, ◌≢◌, arith, if◌then◌else◌, Option, none, some, Bytes, [], ◌∷◌, ◌++◌, ◌==◌, refl, ap, sym,
  ◌∙◌,
}

fit_table_name : (Bytes → Option Bytes) → Bytes → Bytes
fit_table_name fit flat = elim (fit flat) [ none ↦ flat | some out ↦ out ]

-- `if (s.size() >= 2 && s[0] == '.' && s[1] == '/') s.remove_prefix(2);`
remove_dot_slash : Bytes → Bytes
remove_dot_slash (c ∷ d ∷ s) = if c == b'.' then (if d == b'/' then s else c ∷ d ∷ s) else c ∷ d ∷ s
remove_dot_slash s = s

unfoldable pub escape : Bytes → Bytes
escape [] = []
escape (c ∷ s) =
    (if c == b'_' then b'_' ∷ b'0' ∷ [] else if c == b'/' then b'_' ∷ b'1' ∷ [] else c ∷ [])
    ++ escape s

-- none: a null path
unfoldable pub stoolap_table_from_path : (Bytes → Option Bytes) → Option Bytes → Bytes
unfolding remove_dot_slash escape fit_table_name
stoolap_table_from_path fit none = []
stoolap_table_from_path fit (some path) = fit_table_name fit (escape (remove_dot_slash path))

-- The way back, which the code does not need.
unescape : Bytes → Bytes
unescape [] = []
unescape (c ∷ []) = c ∷ []
unescape (c ∷ d ∷ s) =
    let marked = (if d == b'0' then b'_' else b'/') ∷ unescape s in
    let plain = c ∷ unescape (d ∷ s) in if c == b'_' then marked else plain

unescape-escape : (s : Bytes) → unescape (escape s) ≡ s
unfolding unescape escape
unescape-escape [] = refl
unescape-escape (c ∷ []) = ground arith
unescape-escape (c ∷ d ∷ s) = ground (arith, unescape-escape (d ∷ s))

escape-injective : (a b : Bytes) → escape a ≡ escape b → a ≡ b
escape-injective a b h = sym (unescape-escape a) ∙ ap unescape h ∙ unescape-escape b

-- No '/' in a name: tablename_to_filename encodes it.
abbrev pub NoSlash : Bytes → Type 0
NoSlash [] = Unit {0}
NoSlash (c ∷ s) = (c ≢ b'/') × NoSlash s

abbrev pub path_of : Bytes → Bytes → Bytes
path_of db table = b'.' ∷ b'/' ∷ db ++ (b'/' ∷ table)

split_injective :
    (db db' table table' : Bytes)
    → NoSlash db
    → NoSlash db'
    → db ++ (b'/' ∷ table) ≡ db' ++ (b'/' ∷ table')
    → (db ≡ db') × (table ≡ table')
split_injective [] [] table table' h h' e = (refl, cc)
split_injective [] (c ∷ db') table table' h h' e = ground arith
split_injective (c ∷ db) [] table table' h h' e = ground arith
split_injective (c ∷ db) (d ∷ db') table table' h h' e =
    ground (arith, split_injective db db' table table' h.1 h'.1)

unshortened :
    (fit : Bytes → Option Bytes) (db table : Bytes)
    → fit (escape (db ++ (b'/' ∷ table))) ≡ none
    → stoolap_table_from_path fit (some (path_of db table)) ≡ escape (db ++ (b'/' ∷ table))
unfolding stoolap_table_from_path
unshortened fit db table f = rw (f, fit_table_name)

-- Distinct tables have distinct stoolap names, wherever both names fit unshortened: from the name
-- the database and the table can be read back.
pub stoolap_table_from_path-injective :
    (fit : Bytes → Option Bytes) (db table db' table' : Bytes)
    → fit (escape (db ++ (b'/' ∷ table))) ≡ none
    → fit (escape (db' ++ (b'/' ∷ table'))) ≡ none
    → NoSlash db
    → NoSlash db'
    → stoolap_table_from_path fit (some (path_of db table))
      ≡ stoolap_table_from_path fit (some (path_of db' table'))
    → (db ≡ db') × (table ≡ table')
stoolap_table_from_path-injective fit db table db' table' f f' h h' e =
    split_injective db db' table table' h h' (
      escape-injective (db ++ (b'/' ∷ table)) (db' ++ (b'/' ∷ table'))
        (sym (unshortened fit db table f) ∙ e ∙ unshortened fit db' table' f'))
