-- ===== src/Builder/Memory/Load.antt =====
-- doLoadInst and visitLoadInst of lib/Clam/CfgBuilder.cc, without ShadowMem.
use crab_llvm.Prelude.{
  Bool, false, ◌&&◌, ◌||◌, Option, some, List, [], ◌∷◌, if◌then◌else◌, ltb, ◌>>=◌,
}
use crab_llvm.Llvm.{Value, type_of, is_const_expr}
use crab_llvm.Utils.Types.{CrabBuilderParams, is_bool, is_integer, is_pointer, is_tracked}
use crab_llvm.Lit.{
  Lit, Var, exp_var, get_var, is_ptr_null, VariableFactory, LitState, get_lit, mk_int_var, Region,
}
use crab_llvm.Crab.{Stmt, bool_assign_var, assign, cast, Cast, ptr_load, array_load}
use crab_llvm.Builder.Compare.{havoc}
use crab_llvm.Builder.Memory.{
  Layout, MemState, get_region, get_singleton_value, is_unknown, is_arr, infer_array_index,
  region_var,
}

-- The load from a region that is one scalar.
unfoldable pub scalar_load : Value → Var → Var → List Stmt
unfolding is_bool is_integer type_of
scalar_load I x y =
    if is_integer (type_of I)
    then assign x (exp_var y) ∷ []
    else if is_bool (type_of I)
    then bool_assign_var x y false ∷ []
    else []

module _ (vfac : VariableFactory) (params : CrabBuilderParams) (mem : Layout) where
  -- The variable that is loaded: a new one where the region is narrower than the result.
  unfoldable pub load_var : Region → Var → LitState → Var × LitState
  unfolding mk_int_var
  load_var r x st =
      if ltb r.region_bitwidth x.bitwidth
      then mk_int_var vfac params r.region_bitwidth st
      else (x, st)

  -- The load from an array to `tmp`, which the source compares with the region after it has
  -- replaced it.
  unfoldable pub array_load_code :
      Value → Value → Var → Var → Region → MemState → List Stmt × MemState
  unfolding load_var infer_array_index type_of
  array_load_code I ptr tmp y r st =
      let (x, lits') = load_var r tmp st.lits in
      let (idx, st') = infer_array_index vfac params mem ptr (record st { lits = lits' }) in
      let load = array_load x y idx (mem.alloc_size (type_of I)) in
      (
        load ∷ (if ltb r.region_bitwidth x.bitwidth then cast Cast.sign_extend x tmp ∷ [] else []),
        st',
      )

  unfoldable pub do_load_inst :
      Value → Value → Bool → Var → Var → Region → MemState → List Stmt × MemState
  unfolding scalar_load array_load_code
  do_load_inst I ptr is_singleton x y r st =
      if is_singleton then (scalar_load I x y, st) else array_load_code I ptr x y r st

  -- The load by the precision, for the variable `x` of the result and the pointer's literal `l`.
  unfoldable pub load_code : Value → Value → Var → Lit → MemState → Option (List Stmt × MemState)
  unfolding is_arr is_bool is_integer is_pointer type_of get_region is_unknown get_singleton_value
      region_var do_load_inst havoc get_var
  load_code I ptr x l st =
      let r = get_region mem I ptr in
      let lower = get_singleton_value r params.lower_singleton_aliases in
      let skipped : Option (List Stmt × MemState) =
        some (havoc x params.include_useless_havoc, st) in
      if is_arr params && (is_integer (type_of I) || is_bool (type_of I))
      then (if is_unknown r then skipped else (do
        y ← region_var vfac params mem r lower
        some (do_load_inst I ptr lower x y r st)))
      else if is_pointer (type_of I) params
      then (do p ← get_var l; some (ptr_load x p ∷ [], st))
      else skipped

  -- `I` loads from `ptr`; none is the error exit or a failed assertion.
  unfoldable pub visit_load_inst : Value → Value → MemState → Option (List Stmt × MemState)
  unfolding is_tracked get_var is_const_expr is_ptr_null havoc load_code
  visit_load_inst I ptr st =
      let (ref, lits1) = get_lit vfac params I st.lits in
      let (p, lits2) = get_lit vfac params ptr lits1 in
      let st1 : MemState = record st { lits = lits1 } in
      let st2 : MemState = record st { lits = lits2 } in
      let load : Var → Option (List Stmt × MemState) = (λ x. do
        l ← p
        null ← is_ptr_null l
        (if null
            then some (havoc x params.include_useless_havoc, st2)
            else load_code I ptr x l st2)) in
      let body : Option (List Stmt × MemState) = (do
        lit ← ref
        x ← get_var lit
        (if is_const_expr ptr then some (havoc x params.include_useless_havoc, st1) else load x)) in
      if is_tracked I params then body else some ([], st)
