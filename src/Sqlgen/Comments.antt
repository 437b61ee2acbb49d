-- ===== src/Sqlgen/Comments.antt =====
-- What a comment makes of the texts of Sqlgen/Lexer.antt: after the SQL standard, one opens outside
-- quotes, by `--` or `/*`.
use stoolap_mariadb.Common.{
  ℕ, ◌≡◌, refl, ap, ◌∙◌, Bool-cases, ◌⊎◌, inl, inr, Bool, false, ◌&&◌, ◌||◌, [], ◌∷◌, Bytes, ◌==◌,
  if◌then◌else◌,
}
use stoolap_mariadb.Sqlgen.Lexer.{Lexer, outside, step, lex, Closed}

unfoldable pub opens_comment : Lexer → Bytes → Bool
opens_comment (outside d) (c ∷ (next ∷ s)) =
    (c == b'-' && next == b'-') || (c == b'/' && next == b'*')
opens_comment _ _ = false

-- Read to its end, or to its first comment
pub data Reading : Type 0 where
  read_to : Lexer → Reading
  comment : Reading

unfoldable pub sql_read : Lexer → Bytes → Reading
sql_read l [] = read_to l
sql_read l (c ∷ s) =
    let rest = sql_read (step l c) s in if opens_comment l (c ∷ s) then comment else rest

sql_read-lex :
    (l : Lexer) (s : Bytes) → (sql_read l s ≡ read_to (lex l s)) ⊎ (sql_read l s ≡ comment)
unfolding sql_read lex
sql_read-lex l [] = inl refl
sql_read-lex l (c ∷ s) = elim (Bool-cases (opens_comment l (c ∷ s))) [
  | inl opens ↦ inr (rw opens refl)
  | inr plain ↦ elim (sql_read-lex (step l c) s) [
    | inl whole ↦ inl (rw (plain, whole) refl)
    | inr stopped ↦ inr (rw (plain, stopped) refl)
  ]
]

-- From outside quotes at any depth of parentheses to outside quotes at that depth, where quotes and
-- parentheses alone are read; with comments read too, so unless it opens one
abbrev pub ClosedSql : Bytes → Type 0
ClosedSql s =
    (d : ℕ)
    → (lex (outside d) s ≡ outside d)
      × ((sql_read (outside d) s ≡ read_to (outside d)) ⊎ (sql_read (outside d) s ≡ comment))

closed_or_comment :
    (d : ℕ) (s : Bytes)
    → lex (outside d) s ≡ outside d
    → (sql_read (outside d) s ≡ read_to (lex (outside d) s)) ⊎ (sql_read (outside d) s ≡ comment)
    → (sql_read (outside d) s ≡ read_to (outside d)) ⊎ (sql_read (outside d) s ≡ comment)
closed_or_comment d s h (inl whole) = inl (whole ∙ ap read_to h)
closed_or_comment d s h (inr stopped) = inr stopped

pub Closed-ClosedSql : (s : Bytes) → Closed s → ClosedSql s
Closed-ClosedSql s h d = (h.at d, closed_or_comment d s (h.at d) (sql_read-lex (outside d) s))
