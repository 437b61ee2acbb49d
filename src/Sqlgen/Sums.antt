-- ===== src/Sqlgen/Sums.antt =====
-- The aggregates, window functions and ORDER lists of src/stoolap_sqlgen.cc.
pub mod Safe
use stoolap_mariadb.Common.{
  ℕ, Bool, true, false, not, ◌&&◌, ◌||◌, List, [], ◌∷◌, ◌++◌, Option, none, some, Bytes, codes, leb,
  ltb, ◌==◌, if◌then◌else◌, length,
}
use stoolap_mariadb.Common.Int.{ℤ, is_negative}
use stoolap_mariadb.Sqlgen.Items.{
  ResultType, int_result, Attrs, SumType, count_func, count_distinct_func, sum_func,
  sum_distinct_func, avg_func, min_func, max_func, row_number_func, rank_func, dense_rank_func,
  lag_func, lead_func, other_sum, Precedence, preceding, current, following, Bound, Frame, attrs_of,
}
use stoolap_mariadb.Sqlgen.Classes.{Class, real, is_class, numeric, cls, orderable}
use stoolap_mariadb.Sqlgen.Gen.{Gen, emit, fail, require, within, ◌⊕◌, signed}
use stoolap_mariadb.Sqlgen.Funcs.{Arg, expr, args_csv}

-- An ORDER: its item, where it has one
pub record Key : Type 0 where
  pub of : Option Arg
  pub desc : Bool

direction : Bool → Bool → Bytes
direction directions desc =
    if directions then (if desc then codes " DESC NULLS LAST" else codes " ASC NULLS FIRST") else []

is_int : ResultType → Bool
is_int int_result = true
is_int _ = false

offset_text : Option Attrs → Gen Bytes
unfolding is_int
offset_text none = emit (codes "UNBOUNDED")
offset_text (some a) =
    require (is_int a.cmp_type && a.const_item && not (is_negative a.val_int)) "frame offset"
      (emit (signed a.val_int))

bound_text : Precedence → Option Attrs → Gen Bytes
unfolding offset_text
bound_text current offset = emit (codes "CURRENT ROW")
bound_text preceding offset = offset_text offset ⊕ emit (codes " PRECEDING")
bound_text following offset = offset_text offset ⊕ emit (codes " FOLLOWING")

unfoldable pub frame_bound : Option Bound → Gen Bytes
unfolding bound_text
frame_bound none = fail "frame bound"
frame_bound (some b) = bound_text b.precedence b.offset

frame_text : Frame → Gen Bytes
frame_text f = require (f.rows && f.excludes_none) "window frame" (
    emit (codes "ROWS BETWEEN ")
    ⊕ (frame_bound f.top_bound ⊕ (emit (codes " AND ") ⊕ frame_bound f.bottom_bound)))

module _ (trust_bin : Bool) where
  key_text : Bool → Key → Gen Bytes
  unfolding direction
  key_text directions k = elim k.of [
    | none ↦ fail "order item"
    | some x ↦
        require (orderable trust_bin x.of) "ORDER / GROUP type"
          (expr x ⊕ emit (direction directions k.desc))
  ]

  more_keys : Bool → List Key → Gen Bytes
  unfolding key_text
  more_keys directions [] = emit []
  more_keys directions (k ∷ ks) =
      emit (codes ", ") ⊕ (key_text directions k ⊕ more_keys directions ks)

  unfoldable pub order_list : Bool → List Key → Gen Bytes
  unfolding key_text more_keys
  order_list directions [] = emit []
  order_list directions (k ∷ ks) = key_text directions k ⊕ more_keys directions ks

  call_one : Bytes → Arg → Gen Bytes
  call_one opening a = within opening (codes ")") (expr a)

  count : List Arg → Gen Bytes
  unfolding call_one
  count (a ∷ []) =
      if (attrs_of a.of).basic_const && not (attrs_of a.of).is_null
      then emit (codes "COUNT(*)")
      else call_one (codes "COUNT(") a
  count _ = fail "COUNT arity"

  count_distinct : Bool → List Arg → Gen Bytes
  unfolding call_one
  count_distinct over_window (a ∷ []) =
      require (not over_window && orderable trust_bin a.of) "COUNT DISTINCT"
        (call_one (codes "COUNT(DISTINCT ") a)
  count_distinct over_window _ = fail "COUNT DISTINCT"

  total : Bytes → Bool → List Arg → Gen Bytes
  unfolding call_one
  total opening refuse (a ∷ []) =
      require (numeric (cls a.of)) "SUM"
        (require (not refuse) "SUM DISTINCT window" (call_one opening a))
  total opening refuse _ = fail "SUM"

  average : List Arg → Gen Bytes
  unfolding call_one
  average (a ∷ []) = require (is_class (cls a.of) real) "AVG" (call_one (codes "AVG(") a)
  average _ = fail "AVG"

  extreme : Bytes → List Arg → Gen Bytes
  unfolding call_one
  extreme opening (a ∷ []) = require (orderable trust_bin a.of) "MIN / MAX" (call_one opening a)
  extreme opening _ = fail "MIN / MAX"

  unfoldable pub sum : SumType → Bool → List Arg → Gen Bytes
  unfolding count count_distinct total average extreme
  sum count_func over_window args = count args
  sum count_distinct_func over_window args = count_distinct over_window args
  sum sum_func over_window args = total (codes "SUM(") false args
  sum sum_distinct_func over_window args = total (codes "SUM(DISTINCT ") over_window args
  sum avg_func over_window args = average args
  sum min_func over_window args = extreme (codes "MIN(") args
  sum max_func over_window args = extreme (codes "MAX(") args
  sum _ over_window args = fail "aggregate"

  shifted : Bytes → List Arg → Gen Bytes
  shifted opening args =
      require (leb 1 (length args) && leb (length args) 3) "LAG / LEAD arity"
        (within opening (codes ")") (args_csv args))

  framed : SumType → List Arg → Option Frame → Gen Bytes
  framed s args none = fail "window default frame"
  framed s args (some f) = sum s true args

  -- What stands before " OVER ("
  window_call : SumType → List Arg → Option Frame → Gen Bytes
  unfolding shifted framed
  window_call row_number_func args frame = emit (codes "ROW_NUMBER()")
  window_call rank_func args frame = emit (codes "RANK()")
  window_call dense_rank_func args frame = emit (codes "DENSE_RANK()")
  window_call lag_func args frame = shifted (codes "LAG(") args
  window_call lead_func args frame = shifted (codes "LEAD(") args
  window_call s args frame = framed s args frame

  unfoldable pub ranking : SumType → Bool
  ranking row_number_func = true
  ranking rank_func = true
  ranking dense_rank_func = true
  ranking lag_func = true
  ranking lead_func = true
  ranking _ = false

  spaced : Bool → Bytes → Bytes
  spaced any text = if any then codes " " ++ text else text

  partition_text : List Key → Gen Bytes
  partition_text [] = emit []
  partition_text (k ∷ ks) = emit (codes "PARTITION BY ") ⊕ order_list false (k ∷ ks)

  order_text : Bool → List Key → Gen Bytes
  unfolding spaced
  order_text any [] = emit []
  order_text any (k ∷ ks) = emit (spaced any (codes "ORDER BY ")) ⊕ order_list true (k ∷ ks)

  frame_of : Bool → Option Frame → Gen Bytes
  unfolding frame_text spaced
  frame_of any none = emit []
  frame_of any (some f) = emit (spaced any []) ⊕ frame_text f

  is_empty_keys : List Key → Bool
  is_empty_keys [] = true
  is_empty_keys (k ∷ ks) = false

  unfoldable pub window : SumType → List Arg → List Key → List Key → Option Frame → Gen Bytes
  unfolding window_call partition_text order_text frame_of is_empty_keys
  window s args partition order frame =
      let any = not (is_empty_keys partition) in
      let any' = any || not (is_empty_keys order) in
      window_call s args frame
      ⊕ within (codes " OVER (") (codes ")") (
          partition_text partition
          ⊕ (order_text any order ⊕ (if ranking s then emit [] else frame_of any' frame)))
