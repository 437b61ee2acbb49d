-- ===== src/Sqlgen/Gen.antt =====
-- Gen of src/stoolap_sqlgen.cc: its state, `fail`, and the writing of `out`. What a method appends to
-- `out` is the text that it returns; once one has returned false, all its callers do, so a refusal
-- carries the first reason and no state.
use stoolap_mariadb.Common.{
  ℕ, ◌+◌, Bool, true, false, List, [], ◌∷◌, ◌++◌, Option, none, some, Bytes, String, codes, ◌==◌,
  if◌then◌else◌,
}
use stoolap_mariadb.Common.Int.{ℤ, pos, negsuc}
use stoolap_mariadb.Handler.Savepoints.{decimal}

-- A map by address
unfoldable pub find_at : ℕ → List (ℕ × Bytes) → Option Bytes
find_at k [] = none
find_at k ((j, t) ∷ m) = if j == k then some t else find_at k m

unfoldable pub has_at : ℕ → List ℕ → Bool
has_at k [] = false
has_at k (j ∷ js) = if j == k then true else has_at k js

-- alias_, view_cols_, next_alias_, assigned_ (the addresses of its fields) and exists_list_. What
-- merged_where_ and merged_on_ hold is returned instead. next_alias_ is an int, whose overflow is left
-- out.
pub record State : Type 0 where
  pub alias : List (ℕ × Bytes)
  pub view_cols : List (ℕ × Bytes)
  pub next_alias : ℕ
  pub assigned : List ℕ
  pub exists_list : Bool

abbrev pub fresh : State
fresh = record { alias = []; view_cols = []; next_alias = 0; assigned = []; exists_list = false }

pub data Outcome {ℓ} (A : Type ℓ) : Type ℓ where
  wrote : A → State → Outcome A
  refused : String → Outcome A

abbrev pub Gen {ℓ} : Type ℓ → Type ℓ
Gen A = State → Outcome A

infixl 5 ◌>>=◌
abbrev pub ◌>>=◌ {ℓ κ} : {A : Type ℓ} {B : Type κ} → Gen A → (A → Gen B) → Gen B
(g >>= f) s = elim (g s) [ wrote a s' ↦ f a s' | refused why ↦ refused why ]

unfoldable pub pure {ℓ} : {A : Type ℓ} → A → Gen A
pure a s = wrote a s

unfoldable pub fail {ℓ} : {A : Type ℓ} → String → Gen A
fail why s = refused why

-- `out += text`
unfoldable pub emit : Bytes → Gen Bytes
emit text s = wrote text s

infixr 64 ◌⊕◌
unfoldable pub ◌⊕◌ : Gen Bytes → Gen Bytes → Gen Bytes
(g ⊕ h) s = elim (g s) [
  | refused why ↦ refused why
  | wrote a s1 ↦ elim (h s1) [ refused why ↦ refused why | wrote b s2 ↦ wrote (a ++ b) s2 ]
]

-- `if (!test) return fail(why);` before `g`
unfoldable pub require {ℓ} : {A : Type ℓ} → Bool → String → Gen A → Gen A
require true why g = g
require false why g = fail why

-- `open`, what `g` writes, `close`
unfoldable pub within : Bytes → Bytes → Gen Bytes → Gen Bytes
within opening closing g s = elim (g s) [
  | refused why ↦ refused why
  | wrote text s' ↦ wrote (opening ++ (text ++ closing)) s'
]

-- std::to_string of a signed number
unfoldable pub signed : ℤ → Bytes
signed (pos n) = decimal n
signed (negsuc n) = b'-' ∷ decimal (n + 1)

-- '"'
abbrev pub name_quote : ℕ
name_quote = 34

-- '\''
abbrev pub text_quote : ℕ
text_quote = 39

-- Each `q` in the text twice
unfoldable pub doubled : ℕ → Bytes → Bytes
doubled q [] = []
doubled q (c ∷ s) = if c == q then q ∷ c ∷ doubled q s else c ∷ doubled q s

-- quote_ident, and Gen::ident
unfoldable pub ident : Bytes → Bytes
ident s = name_quote ∷ (doubled name_quote s ++ (name_quote ∷ []))

unfoldable pub pos_name : ℕ → Bytes
pos_name n = name_quote ∷ (codes "c" ++ (decimal n ++ (name_quote ∷ [])))

-- What MariaDB's parsing of a date or a time answers: its parts, whether it was a time, the warnings
-- it gave, the digits below a microsecond, and pack_time of it.
pub record Parsed : Type 0 where
  pub year : ℕ
  pub month : ℕ
  pub day : ℕ
  pub is_time : Bool
  pub warned : Bool
  pub nanoseconds : ℕ
  pub packed : ℤ

-- The session and MariaDB's functions: trust_bin_, whether a SELECT_LEX is `top`,
-- str_to_datetime_or_date_or_time (at true) or str_to_datetime_or_date with the comparison's flags,
-- and the year, month and day of unpack_time.
pub record Env : Type 0 where
  pub trust_bin : Bool
  pub is_top : ℕ → Bool
  pub parse : Bool → Bytes → Option Parsed
  pub unpack_date : ℤ → ℕ × ℕ × ℕ
