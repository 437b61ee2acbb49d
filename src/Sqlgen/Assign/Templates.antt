-- ===== src/Sqlgen/Assign/Templates.antt =====
-- The checks of `assignment` with a value and the overflow put in: closed texts, since `@` and `!` stand
-- outside quotes only.
use stoolap_mariadb.Common.{
  ℕ, suc, ◌+◌, ◌≡◌, refl, ap, ◌∙◌, arith, Bool, true, false, not, ◌&&◌, ◌||◌, List, [], ◌∷◌, ◌++◌,
  Bytes, codes, ◌==◌,
}
use stoolap_mariadb.Common.Int.{ℤ, pos, negsuc}
use stoolap_mariadb.Handler.Savepoints.{decimal}
use stoolap_mariadb.Handler.Savepoints.Digits.{AllDigits, decimal-AllDigits}
use stoolap_mariadb.Sqlgen.Gen.{signed}
use stoolap_mariadb.Sqlgen.Lexer.{
  Lexer, outside, in_text, in_name, fault, step, lex, lex-append, Closed, digit_step, close_one,
}
use stoolap_mariadb.Sqlgen.Assign.{expand, range_check, length_check, strip, white_spaces}

is_outside : Lexer → Bool
is_outside (outside d) = true
is_outside _ = false

is_mark : ℕ → Bool
is_mark c = c == b'@' || c == b'!'

-- The marks stand outside quotes.
steady : Lexer → Bytes → Bool
unfolding is_outside is_mark
steady l [] = true
steady l (c ∷ s) = (not (is_mark c) || is_outside l) && steady (step l c) s

mark_step : (l : Lexer) (c : ℕ) → is_mark c ≡ true → is_outside l ≡ true → step l c ≡ l
unfolding is_mark is_outside step
mark_step (outside d) c h o = ground arith
mark_step (in_text d) c h o = cc
mark_step (in_name d) c h o = cc
mark_step fault c h o = cc

put_in :
    (l : Lexer) (v rest : Bytes) → Closed v → is_outside l ≡ true → lex l (v ++ rest) ≡ lex l rest
unfolding is_outside
put_in (outside d) v rest h o = lex-append (outside d) v rest ∙ ap (λ l. lex l rest) (h.at d)
put_in (in_text d) v rest h o = cc
put_in (in_name d) v rest h o = cc
put_in fault v rest h o = cc

lex-expand :
    (v o : Bytes) (l : Lexer) (t : Bytes)
    → Closed v
    → Closed o
    → steady l t ≡ true
    → lex l (expand v o t) ≡ lex l t
unfolding expand lex steady is_mark
lex-expand v o l [] hv ho h = refl
lex-expand v o l (c ∷ s) hv ho h =
    let rest = expand v o s in
    ground (
      arith,
      lex-expand v o (step l c) s hv ho,
      put_in l v rest hv,
      put_in l o rest ho,
      mark_step l c,
    )

-- A text read from one depth to another, its marks outside quotes
record Through (d e : ℕ) (t : Bytes) : Type 0 where
  reads : lex (outside d) t ≡ outside e
  marks : steady (outside d) t ≡ true

steady-append :
    (l : Lexer) (s t : Bytes)
    → steady l s ≡ true
    → steady (lex l s) t ≡ true
    → steady l (s ++ t) ≡ true
unfolding steady lex
steady-append l [] t hs ht = ht
steady-append l (c ∷ s) t hs ht = ground (arith, steady-append (step l c) s t)

Through-append : (d e f : ℕ) (s t : Bytes) → Through d e s → Through e f t → Through d f (s ++ t)
Through-append d e f s t hs ht = record {
  reads = lex-append (outside d) s t ∙ ap (λ l. lex l t) hs.reads ∙ ht.reads;
  marks = steady-append (outside d) s t hs.marks (ap (λ l. steady l t) hs.reads ∙ ht.marks);
}

digits_Through : (d : ℕ) (s : Bytes) → AllDigits s → Through d d s
unfolding steady lex is_mark is_outside
digits_Through d [] h = record { reads = refl; marks = refl }
digits_Through d (c ∷ s) h =
    let same : step (outside d) c ≡ outside d = digit_step d c h.0 h.1 in
    let rest = digits_Through d s h.2 in
    record { reads = ap (λ l. lex l s) same ∙ rest.reads; marks = ground (arith, same, rest.marks) }

decimal-Through : (d n : ℕ) → Through d d (decimal n)
decimal-Through d n = digits_Through d (decimal n) (decimal-AllDigits n)

signed-Through : (d : ℕ) (z : ℤ) → Through d d (signed z)
unfolding signed step steady lex is_mark
signed-Through d (pos n) = decimal-Through d n
signed-Through d (negsuc n) =
    Through-append d d d (b'-' ∷ []) (decimal (n + 1)) (record { reads = refl; marks = refl })
      (decimal-Through d (n + 1))

range_check-Through : (d : ℕ) (r : ℤ × ℤ) → Through d d (range_check r)
unfolding range_check step steady lex is_mark is_outside
range_check-Through d (lo, hi) =
    let text : (s : Bytes)
        → lex (outside d) s ≡ outside d
        → steady (outside d) s ≡ true
        → Through d d s =
      λ s r m. record { reads = r; marks = m } in
    Through-append d d d _ _ (text (codes "CASE WHEN @ < ") refl refl) (
      Through-append d d d _ _ (signed-Through d lo) (
        Through-append d d d _ _ (text (codes " OR @ > ") refl refl) (
          Through-append d d d _ _ (signed-Through d hi)
            (text (codes " THEN ! ELSE @ END") refl refl))))

-- REPLACE of a white space in a text that reads so at each depth
strip_one :
    (rest : Bytes) (ws : ℕ)
    → ((d : ℕ) → Through d d rest)
    → ((d : ℕ) → Through (suc d) d (codes ", '" ++ (ws ∷ codes "', '')")))
    → (d : ℕ) → Through d d (codes "REPLACE(" ++ (rest ++ (codes ", '" ++ (ws ∷ codes "', '')"))))
unfolding step steady lex is_mark is_outside
strip_one rest ws hr hw d =
    Through-append d (suc d) d (codes "REPLACE(") _ (record { reads = refl; marks = refl })
      (Through-append (suc d) (suc d) d rest _ (hr (suc d)) (hw d))

abbrev AllSpaces : List ℕ → Type 0
AllSpaces [] = Unit
AllSpaces (ws ∷ more) =
    ((d : ℕ) → Through (suc d) d (codes ", '" ++ (ws ∷ codes "', '')"))) × AllSpaces more

strip-Through :
    (spaces : List ℕ) (rest : Bytes)
    → AllSpaces spaces
    → ((d : ℕ) → Through d d rest)
    → (d : ℕ) → Through d d (strip spaces rest)
unfolding strip
strip-Through [] rest all h d = h d
strip-Through (ws ∷ more) rest all h d = strip-Through more _ all.1 (strip_one rest ws h all.0) d

white_spaces-AllSpaces : AllSpaces white_spaces
unfolding white_spaces step steady lex is_mark is_outside close_one
white_spaces-AllSpaces =
    let text : (t : Bytes)
        → ((d : ℕ) → lex (outside (suc d)) t ≡ outside d)
        → ((d : ℕ) → steady (outside (suc d)) t ≡ true)
        → (d : ℕ) → Through (suc d) d t =
      λ t r m d. record { reads = r d; marks = m d } in
    (
      text _ (λ d. refl) (λ d. refl),
      (
        text _ (λ d. refl) (λ d. refl),
        (
          text _ (λ d. refl) (λ d. refl),
          (
            text _ (λ d. refl) (λ d. refl),
            (text _ (λ d. refl) (λ d. refl), (text _ (λ d. refl) (λ d. refl), tt)),
          ),
        ),
      ),
    )

substr_Through : (n d : ℕ) → Through d d (codes "SUBSTR(@, " ++ (decimal n ++ codes " + 1)"))
unfolding step steady lex is_mark is_outside close_one
substr_Through n d =
    Through-append d (suc d) d (codes "SUBSTR(@, ") _ (record { reads = refl; marks = refl })
      (Through-append (suc d) (suc d) d _ (codes " + 1)") (decimal-Through (suc d) n)
        (record { reads = refl; marks = refl }))

length_check-Through : (d n : ℕ) → Through d d (length_check n)
unfolding length_check step steady lex is_mark is_outside close_one
length_check-Through d n =
    let text : (i j : ℕ) (s : Bytes)
        → lex (outside i) s ≡ outside j
        → steady (outside i) s ≡ true
        → Through i j s =
      λ i j s r m. record { reads = r; marks = m } in
    Through-append d d d _ _
      (text d d (codes "CASE WHEN @ IS NULL OR CHAR_LENGTH(@) <= ") refl refl)
      (Through-append d d d _ _ (decimal-Through d n) (
        Through-append d d d _ _ (text d d (codes " THEN @ WHEN ") refl refl) (
          Through-append d d d _ _
            (strip-Through white_spaces _ white_spaces-AllSpaces (substr_Through n) d)
            (Through-append d (suc d) d _ _
              (text d (suc d) (codes " = '' THEN SUBSTR(@, 1, ") refl refl)
              (Through-append (suc d) (suc d) d _ _ (decimal-Through (suc d) n)
                (text (suc d) d (codes ") ELSE ! END") refl refl))))))

expand-Closed :
    (v o t : Bytes) → Closed v → Closed o → ((d : ℕ) → Through d d t) → Closed (expand v o t)
expand-Closed v o t hv ho h = record {
  at = λ d. lex-expand v o (outside d) t hv ho (h d).marks ∙ (h d).reads;
}

-- The checks that `assignment` makes
pub record IsTemplate (t : Bytes) : Type 0 where
  pub closes : (v o : Bytes) → Closed v → Closed o → Closed (expand v o t)

pub range_check-IsTemplate : (r : ℤ × ℤ) → IsTemplate (range_check r)
range_check-IsTemplate r = record {
  closes = λ v o hv ho. expand-Closed v o _ hv ho (λ d. range_check-Through d r);
}

pub length_check-IsTemplate : (n : ℕ) → IsTemplate (length_check n)
length_check-IsTemplate n = record {
  closes = λ v o hv ho. expand-Closed v o _ hv ho (λ d. length_check-Through d n);
}
