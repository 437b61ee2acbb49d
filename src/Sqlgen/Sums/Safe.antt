-- ===== src/Sqlgen/Sums/Safe.antt =====
-- What is written for aggregates, window functions and ORDER lists is closed where it is for their
-- arguments.
use stoolap_mariadb.Common.{
  ◌≡◌, refl, Bool, true, false, List, [], ◌∷◌, Option, none, some, Bytes, codes,
}
use stoolap_mariadb.Sqlgen.Items.{
  Attrs, SumType, count_func, count_distinct_func, sum_func, sum_distinct_func, avg_func, min_func,
  max_func, row_number_func, rank_func, dense_rank_func, lag_func, lead_func, Precedence, preceding,
  current, following, Bound, Frame,
}
use stoolap_mariadb.Sqlgen.Classes.{orderable}
use stoolap_mariadb.Sqlgen.Gen.{Gen, emit, fail, require, ◌⊕◌}
use stoolap_mariadb.Sqlgen.Lexer.{
  Closed, Closed-of, Closed-append, signed-Closed, lex, step, outside,
}
use stoolap_mariadb.Sqlgen.Safe.{
  Safe, Safe-fail, Safe-require, Safe-if, Safe-emit, Safe-emit_closed, ◌▸◌, Safe-within, Closed-if,
}
use stoolap_mariadb.Sqlgen.Funcs.{Arg, expr}
use stoolap_mariadb.Sqlgen.Funcs.Safe.{AllSafe, expr-Safe, args_csv-Safe}
use stoolap_mariadb.Sqlgen.Sums.{
  Key, direction, offset_text, bound_text, frame_bound, frame_text, key_text, more_keys, order_list,
  call_one, count, count_distinct, total, average, extreme, sum, shifted, framed, window_call,
  ranking, spaced, partition_text, order_text, frame_of, window,
}

abbrev pub OptionSafe : Option Arg → Type 0
OptionSafe none = Unit
OptionSafe (some x) = Safe x.node

abbrev pub KeysSafe : List Key → Type 0
KeysSafe [] = Unit
KeysSafe (k ∷ ks) = OptionSafe k.of × KeysSafe ks

direction-Closed : (directions desc : Bool) → Closed (direction directions desc)
unfolding direction lex step
direction-Closed directions desc =
    Closed-if directions (Closed-if desc (Closed-of _ refl) (Closed-of _ refl)) (Closed-of [] refl)

offset_text-Safe : (o : Option Attrs) → Safe (offset_text o)
unfolding offset_text lex step
offset_text-Safe none = Safe-emit _ refl
offset_text-Safe (some a) = Safe-require _ _ (Safe-emit_closed (signed-Closed a.val_int))

bound_text-Safe : (p : Precedence) (o : Option Attrs) → Safe (bound_text p o)
unfolding bound_text lex step
bound_text-Safe current o = Safe-emit _ refl
bound_text-Safe preceding o = offset_text-Safe o ▸ Safe-emit _ refl
bound_text-Safe following o = offset_text-Safe o ▸ Safe-emit _ refl

frame_bound-Safe : (b : Option Bound) → Safe (frame_bound b)
unfolding frame_bound
frame_bound-Safe none = Safe-fail _
frame_bound-Safe (some b) = bound_text-Safe b.precedence b.offset

frame_text-Safe : (f : Frame) → Safe (frame_text f)
unfolding frame_text lex step
frame_text-Safe f = Safe-require _ _ (
    Safe-emit _ refl
    ▸ frame_bound-Safe f.top_bound
    ▸ Safe-emit _ refl
    ▸ frame_bound-Safe f.bottom_bound)

module _ (trust_bin : Bool) where
  key_item-Safe :
      (o : Option Arg) (directions desc : Bool)
      → OptionSafe o
      → Safe (elim o as (λ x. Gen Bytes) [
        | none ↦ fail "order item"
        | some x ↦
            require
              (orderable trust_bin x.of)
              "ORDER / GROUP type"
              (expr x ⊕ emit (direction directions desc))
      ])
  key_item-Safe none directions desc h = Safe-fail _
  key_item-Safe (some x) directions desc h =
      Safe-require _ _ (expr-Safe x h ▸ Safe-emit_closed (direction-Closed directions desc))

  key_text-Safe :
      (directions : Bool) (k : Key) → OptionSafe k.of → Safe (key_text trust_bin directions k)
  unfolding key_text
  key_text-Safe directions k h = key_item-Safe k.of directions k.desc h

  more_keys-Safe :
      (directions : Bool) (ks : List Key) → KeysSafe ks → Safe (more_keys trust_bin directions ks)
  unfolding more_keys lex step
  more_keys-Safe directions [] all = Safe-emit [] refl
  more_keys-Safe directions (k ∷ ks) all =
      Safe-emit _ refl ▸ key_text-Safe directions k all.0 ▸ more_keys-Safe directions ks all.1

  pub order_list-Safe :
      (directions : Bool) (ks : List Key) → KeysSafe ks → Safe (order_list trust_bin directions ks)
  unfolding order_list lex step
  order_list-Safe directions [] all = Safe-emit [] refl
  order_list-Safe directions (k ∷ ks) all =
      key_text-Safe directions k all.0 ▸ more_keys-Safe directions ks all.1

  call_one-Safe :
      (opening : Bytes) (a : Arg)
      → lex (outside 0) opening ≡ outside 1
      → Safe a.node
      → Safe (call_one trust_bin opening a)
  unfolding call_one lex step
  call_one-Safe opening a ho h = Safe-within opening _ ho refl (expr-Safe a h)

  count-Safe : (xs : List Arg) → AllSafe xs → Safe (count trust_bin xs)
  unfolding count lex step
  count-Safe (a ∷ []) all =
      Safe-if _ (Safe-emit _ refl) (call_one-Safe (codes "COUNT(") a refl all.0)
  count-Safe _ all = Safe-fail _

  count_distinct-Safe :
      (over : Bool) (xs : List Arg) → AllSafe xs → Safe (count_distinct trust_bin over xs)
  unfolding count_distinct lex step
  count_distinct-Safe over (a ∷ []) all =
      Safe-require _ _ (call_one-Safe (codes "COUNT(DISTINCT ") a refl all.0)
  count_distinct-Safe over _ all = Safe-fail _

  total-Safe :
      (opening : Bytes) (over : Bool) (xs : List Arg)
      → lex (outside 0) opening ≡ outside 1
      → AllSafe xs
      → Safe (total trust_bin opening over xs)
  unfolding total
  total-Safe opening over (a ∷ []) ho all =
      Safe-require _ _ (Safe-require _ _ (call_one-Safe opening a ho all.0))
  total-Safe opening over _ ho all = Safe-fail _

  average-Safe : (xs : List Arg) → AllSafe xs → Safe (average trust_bin xs)
  unfolding average lex step
  average-Safe (a ∷ []) all = Safe-require _ _ (call_one-Safe (codes "AVG(") a refl all.0)
  average-Safe _ all = Safe-fail _

  extreme-Safe :
      (opening : Bytes) (xs : List Arg)
      → lex (outside 0) opening ≡ outside 1
      → AllSafe xs
      → Safe (extreme trust_bin opening xs)
  unfolding extreme
  extreme-Safe opening (a ∷ []) ho all = Safe-require _ _ (call_one-Safe opening a ho all.0)
  extreme-Safe opening _ ho all = Safe-fail _

  pub sum-Safe :
      (s : SumType) (over : Bool) (xs : List Arg) → AllSafe xs → Safe (sum trust_bin s over xs)
  unfolding sum lex step
  sum-Safe count_func over xs all = count-Safe xs all
  sum-Safe count_distinct_func over xs all = count_distinct-Safe over xs all
  sum-Safe sum_func over xs all = total-Safe _ false xs refl all
  sum-Safe sum_distinct_func over xs all = total-Safe _ over xs refl all
  sum-Safe avg_func over xs all = average-Safe xs all
  sum-Safe min_func over xs all = extreme-Safe _ xs refl all
  sum-Safe max_func over xs all = extreme-Safe _ xs refl all
  sum-Safe _ over xs all = Safe-fail _

  shifted-Safe :
      (opening : Bytes) (xs : List Arg)
      → lex (outside 0) opening ≡ outside 1
      → AllSafe xs
      → Safe (shifted trust_bin opening xs)
  unfolding shifted lex step
  shifted-Safe opening xs ho all =
      Safe-require _ _ (Safe-within opening _ ho refl (args_csv-Safe xs all))

  framed-Safe :
      (s : SumType) (xs : List Arg) (f : Option Frame) → AllSafe xs → Safe (framed trust_bin s xs f)
  unfolding framed
  framed-Safe s xs none all = Safe-fail _
  framed-Safe s xs (some f) all = sum-Safe s true xs all

  window_call-Safe :
      (s : SumType) (xs : List Arg) (f : Option Frame)
      → AllSafe xs
      → Safe (window_call trust_bin s xs f)
  unfolding window_call lex step
  window_call-Safe row_number_func xs f all = Safe-emit _ refl
  window_call-Safe rank_func xs f all = Safe-emit _ refl
  window_call-Safe dense_rank_func xs f all = Safe-emit _ refl
  window_call-Safe lag_func xs f all = shifted-Safe _ xs refl all
  window_call-Safe lead_func xs f all = shifted-Safe _ xs refl all
  window_call-Safe s xs f all = framed-Safe s xs f all

  spaced-Closed : (any : Bool) (t : Bytes) → Closed t → Closed (spaced trust_bin any t)
  unfolding spaced lex step
  spaced-Closed any t h = Closed-if any (Closed-append (codes " ") t (Closed-of _ refl) h) h

  partition_text-Safe : (ks : List Key) → KeysSafe ks → Safe (partition_text trust_bin ks)
  unfolding partition_text lex step
  partition_text-Safe [] all = Safe-emit [] refl
  partition_text-Safe (k ∷ ks) all = Safe-emit _ refl ▸ order_list-Safe false (k ∷ ks) all

  order_text-Safe : (any : Bool) (ks : List Key) → KeysSafe ks → Safe (order_text trust_bin any ks)
  unfolding order_text lex step
  order_text-Safe any [] all = Safe-emit [] refl
  order_text-Safe any (k ∷ ks) all =
      Safe-emit_closed (spaced-Closed any (codes "ORDER BY ") (Closed-of _ refl))
      ▸ order_list-Safe true (k ∷ ks) all

  frame_of-Safe : (any : Bool) (f : Option Frame) → Safe (frame_of trust_bin any f)
  unfolding frame_of lex step
  frame_of-Safe any none = Safe-emit [] refl
  frame_of-Safe any (some f) =
      Safe-emit_closed (spaced-Closed any [] (Closed-of [] refl)) ▸ frame_text-Safe f

  pub window-Safe :
      (s : SumType) (xs : List Arg) (partition order : List Key) (f : Option Frame)
      → AllSafe xs
      → KeysSafe partition
      → KeysSafe order
      → Safe (window trust_bin s xs partition order f)
  unfolding window lex step
  window-Safe s xs partition order f all hp ho =
      window_call-Safe s xs f all
      ▸ Safe-within _ _ refl refl (
          partition_text-Safe partition hp
          ▸ order_text-Safe _ order ho
          ▸ Safe-if (ranking trust_bin s) (Safe-emit [] refl) (frame_of-Safe _ f))
