-- ===== src/Sqlgen/Lexer.antt =====
-- What SQL's quotes and parentheses make of a text, its comments not read (Sqlgen/Comments.antt), with
-- no backslash in a text literal, where stoolap's lexer reads some sequences and keeps others.
use stoolap_mariadb.Common.{
  ℕ, zero, suc, ◌+◌, ◌%◌, ◌≤◌, ◌≡◌, refl, ap, ◌∙◌, arith, Bool, true, false, ◌||◌, List, [], ◌∷◌,
  ◌++◌, Bytes, ◌==◌, if◌then◌else◌,
}
use native.Mathlib.Nat.{zero-add}
use stoolap_mariadb.Common.Int.{ℤ, pos, negsuc}
use stoolap_mariadb.Handler.Savepoints.{decimal}
use stoolap_mariadb.Handler.Savepoints.Digits.{AllDigits, decimal-AllDigits}
use stoolap_mariadb.Sqlgen.Items.{Mark, digit, point, exponent, plus, minus}
use stoolap_mariadb.Sqlgen.Gen.{doubled, ident, signed, pos_name, name_quote, text_quote}
use stoolap_mariadb.Sqlgen.Literals.{has_escape, quoted, number_text, mark_code}

-- Outside quotes at a depth of parentheses, in a text literal or a quoted name at one, or past a fault:
-- a parenthesis that closes none, a semicolon, or an escape in a text literal.
pub data Lexer : Type 0 where
  outside in_text in_name : ℕ → Lexer
  fault : Lexer

unfoldable pub close_one : ℕ → Lexer
close_one zero = fault
close_one (suc depth) = outside depth

unfoldable pub step : Lexer → ℕ → Lexer
unfolding close_one
step (outside d) c =
    if c == text_quote
    then in_text d
    else if c == name_quote
    then in_name d
    else if c == b'('
    then outside (suc d)
    else if c == b')'
    then close_one d
    else if c == b';'
    then fault
    else outside d
step (in_text d) c =
    if c == text_quote then outside d else if c == 92 || c == 0 then fault else in_text d
step (in_name d) c = if c == name_quote then outside d else in_name d
step fault c = fault

unfoldable pub lex : Lexer → Bytes → Lexer
lex l [] = l
lex l (c ∷ s) = lex (step l c) s

-- A text that leaves the lexer where it was, outside quotes at any depth
pub record Closed (s : Bytes) : Type 0 where
  pub at : (d : ℕ) → lex (outside d) s ≡ outside d

-- One that opens or closes so many parentheses
abbrev pub up : ℕ → ℕ → ℕ
up zero d = d
up (suc k) d = suc (up k d)

abbrev pub Opens : ℕ → Bytes → Type 0
Opens k s = (d : ℕ) → lex (outside d) s ≡ outside (up k d)

abbrev pub Closes : ℕ → Bytes → Type 0
Closes k s = (d : ℕ) → lex (outside (up k d)) s ≡ outside d

pub lex-append : (l : Lexer) (s t : Bytes) → lex l (s ++ t) ≡ lex (lex l s) t
unfolding lex
lex-append l [] t = refl
lex-append l (c ∷ s) t = lex-append (step l c) s t

pub Closed-append : (s t : Bytes) → Closed s → Closed t → Closed (s ++ t)
Closed-append s t hs ht = record {
  at = λ d. lex-append (outside d) s t ∙ ap (λ l. lex l t) (hs.at d) ∙ ht.at d;
}

pub Closed-within :
    (k : ℕ) (a s b : Bytes) → Opens k a → Closed s → Closes k b → Closed (a ++ (s ++ b))
Closed-within k a s b ha hs hb = record {
  at = λ d.
      lex-append (outside d) a (s ++ b)
      ∙ ap (λ l. lex l (s ++ b)) (ha d)
      ∙ lex-append (outside (up k d)) s b
      ∙ ap (λ l. lex l b) (hs.at (up k d))
      ∙ hb d;
}

lex-doubled_name : (d : ℕ) (s : Bytes) → lex (in_name d) (doubled name_quote s) ≡ in_name d
unfolding lex step doubled
lex-doubled_name d [] = refl
lex-doubled_name d (c ∷ s) = ground (arith, lex-doubled_name d s)

lex-doubled_text :
    (d : ℕ) (s : Bytes) → has_escape s ≡ false → lex (in_text d) (doubled text_quote s) ≡ in_text d
unfolding lex step doubled has_escape
lex-doubled_text d [] h = refl
lex-doubled_text d (c ∷ s) h = ground (arith, lex-doubled_text d s)

name_ends : (d : ℕ) → lex (in_name d) (name_quote ∷ []) ≡ outside d
unfolding lex step
name_ends d = refl

text_ends : (d : ℕ) → lex (in_text d) (text_quote ∷ []) ≡ outside d
unfolding lex step
text_ends d = refl

-- A quoted name is one name, whatever bytes it holds.
pub ident-Closed : (s : Bytes) → Closed (ident s)
unfolding ident lex step
ident-Closed s = record {
  at = λ d.
      lex-append (in_name d) (doubled name_quote s) (name_quote ∷ [])
      ∙ ap (λ l. lex l (name_quote ∷ [])) (lex-doubled_name d s)
      ∙ name_ends d;
}

deeper : ℕ → Lexer → Lexer
deeper k (outside d) = outside (d + k)
deeper k (in_text d) = in_text (d + k)
deeper k (in_name d) = in_name (d + k)
deeper k fault = fault

is_fault : Lexer → Bool
is_fault fault = true
is_fault _ = false

close_one-deeper :
    (k d : ℕ) → is_fault (close_one d) ≡ false → close_one (d + k) ≡ deeper k (close_one d)
unfolding close_one is_fault deeper
close_one-deeper k zero h = cc
close_one-deeper k (suc d) h = let e : suc d + k ≡ suc (d + k) = omega arith in rw e

step-deeper :
    (k : ℕ) (l : Lexer) (c : ℕ)
    → is_fault (step l c) ≡ false
    → step (deeper k l) c ≡ deeper k (step l c)
unfolding step deeper is_fault
step-deeper k (outside d) c h = ground (arith, close_one-deeper k d)
step-deeper k (in_text d) c h = ground arith
step-deeper k (in_name d) c h = ground arith
step-deeper k fault c h = refl

fault_stays : (s : Bytes) → is_fault (lex fault s) ≡ true
unfolding lex step is_fault
fault_stays [] = refl
fault_stays (c ∷ s) = fault_stays s

no_fault : (l : Lexer) (s : Bytes) → is_fault (lex l s) ≡ false → is_fault l ≡ false
unfolding is_fault
no_fault fault s h = cc (fault_stays s)
no_fault _ s h = refl

lex-deeper :
    (k : ℕ) (l : Lexer) (s : Bytes)
    → is_fault (lex l s) ≡ false
    → lex (deeper k l) s ≡ deeper k (lex l s)
unfolding lex
lex-deeper k l [] h = refl
lex-deeper k l (c ∷ s) h =
    rw (step-deeper k l c (no_fault (step l c) s h)) (lex-deeper k (step l c) s h)

-- A text read from depth i to depth j does so at any depth further in.
lex-deeper_at :
    (i j d : ℕ) (s : Bytes)
    → lex (outside i) s ≡ outside j
    → lex (outside (i + d)) s ≡ outside (j + d)
unfolding deeper is_fault
lex-deeper_at i j d s h = lex-deeper d (outside i) s (rw h refl) ∙ ap (deeper d) h

up_add : (k d : ℕ) → up k d ≡ k + d
up_add zero d = omega arith
up_add (suc k) d = omega (arith, up_add k d)

pub Closed-of : (s : Bytes) → lex (outside 0) s ≡ outside 0 → Closed s
Closed-of s h = record { at = λ d. rw (zero-add d) at (lex-deeper_at 0 0 d s h) }

pub Opens-of : (k : ℕ) (s : Bytes) → lex (outside 0) s ≡ outside k → Opens k s
Opens-of k s h d = rw (up_add k d) (rw (zero-add d) at (lex-deeper_at 0 k d s h))

pub Closes-of : (k : ℕ) (s : Bytes) → lex (outside k) s ≡ outside 0 → Closes k s
Closes-of k s h d = rw (up_add k d) (rw (zero-add d) at (lex-deeper_at k 0 d s h))

pub digit_step : (d c : ℕ) → 48 ≤ c → c ≤ 57 → step (outside d) c ≡ outside d
unfolding step
digit_step d c lo hi = ground arith

lex-digits : (s : Bytes) → AllDigits s → (d : ℕ) → lex (outside d) s ≡ outside d
unfolding lex
lex-digits [] h d = refl
lex-digits (c ∷ s) h d = rw (digit_step d c h.0 h.1) (lex-digits s h.2 d)

pub decimal-Closed : (n : ℕ) → Closed (decimal n)
decimal-Closed n = record { at = lex-digits (decimal n) (decimal-AllDigits n) }

digits_in_name : (s : Bytes) → AllDigits s → (d : ℕ) → lex (in_name d) s ≡ in_name d
unfolding lex step
digits_in_name [] h d = refl
digits_in_name (c ∷ s) h d =
    let name : step (in_name d) c ≡ in_name d = ground (arith, h.1) in
    ap (λ l. lex l s) name ∙ digits_in_name s h.2 d

lex-pos_name : (n d : ℕ) → lex (outside d) (pos_name n) ≡ outside d
unfolding pos_name lex step
lex-pos_name n d =
    lex-append (in_name d) (decimal n) (name_quote ∷ [])
    ∙ ap (λ l. lex l (name_quote ∷ [])) (digits_in_name (decimal n) (decimal-AllDigits n) d)
    ∙ name_ends d

pub signed-Closed : (z : ℤ) → Closed (signed z)
unfolding signed lex step
signed-Closed (pos n) = decimal-Closed n
signed-Closed (negsuc n) =
    Closed-append (b'-' ∷ []) (decimal (n + 1)) (Closed-of (b'-' ∷ []) refl)
      (decimal-Closed (n + 1))

pub quoted-Closed : (s : Bytes) → has_escape s ≡ false → Closed (quoted s)
unfolding quoted lex step
quoted-Closed s h = record {
  at = λ d.
      lex-append (in_text d) (doubled text_quote s) (text_quote ∷ [])
      ∙ ap (λ l. lex l (text_quote ∷ [])) (lex-doubled_text d s h)
      ∙ text_ends d;
}

mark_step : (d : ℕ) (m : Mark) → step (outside d) (mark_code m) ≡ outside d
unfolding mark_code step
mark_step d (digit n) = digit_step d (48 + n % 10) (omega arith) (omega arith)
mark_step d point = refl
mark_step d exponent = refl
mark_step d plus = refl
mark_step d minus = refl

lex-number_text : (ms : List Mark) (d : ℕ) → lex (outside d) (number_text ms) ≡ outside d
unfolding number_text lex
lex-number_text [] d = refl
lex-number_text (m ∷ ms) d = ap (λ l. lex l (number_text ms)) (mark_step d m) ∙ lex-number_text ms d

pub number_text-Closed : (ms : List Mark) → Closed (number_text ms)
number_text-Closed ms = record { at = lex-number_text ms }

pub pos_name-Closed : (n : ℕ) → Closed (pos_name n)
pos_name-Closed n = record { at = λ d. lex-pos_name n d }
