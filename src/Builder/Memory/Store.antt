-- ===== src/Builder/Memory/Store.antt =====
-- doStoreInst and visitStoreInst of lib/Clam/CfgBuilder.cc, without ShadowMem.
use crab_llvm.Prelude.{
  ℕ, Bool, false, not, ◌&&◌, ◌||◌, Option, none, some, List, [], ◌∷◌, ◌++◌, if◌then◌else◌, ltb,
  ◌>>=◌,
}
use crab_llvm.Prelude.Int.{pos}
use crab_llvm.Llvm.{Value, type_of, is_const_expr}
use crab_llvm.Utils.Types.{CrabBuilderParams, is_bool, is_integer, is_pointer}
use crab_llvm.Lit.{
  Lit, bool_cst, bool_var, int_cst, int_var, ptr_null, ptr_var, Var, get_exp, is_ptr_null,
  VariableFactory, LitState, get_lit, mk_int_var, Region,
}
use crab_llvm.Crab.{
  Stmt, bool_assign_cst, bool_assign_var, assign, cast, Cast, Operand, var_operand, number_operand,
  ptr_store, array_store,
}
use crab_llvm.Builder.Logic.{truth}
use crab_llvm.Builder.Memory.{
  Layout, MemState, is_member, insert_region, get_region, has_singleton, get_singleton_value,
  is_unknown, is_arr, infer_array_index, region_var,
}

-- The store to a region that is one scalar; none is a failed assertion.
unfoldable pub scalar_store : Value → Var → Lit → Option (List Stmt)
unfolding get_exp is_bool is_integer type_of truth
scalar_store value x val =
    let as_bool : Option (List Stmt) = elim val [
      | bool_cst b ↦ some (bool_assign_cst x (truth b) ∷ [])
      | bool_var y ↦ some (bool_assign_var x y false ∷ [])
      | _ ↦ none
    ] in
    if is_integer (type_of value)
    then (do e ← get_exp val; some (assign x e ∷ []))
    else if is_bool (type_of value)
    then as_bool
    else some []

-- Whether a store is a strong update, for the regions that were written before.
unfoldable pub is_strong_update : Region → Bool → List ℕ → Bool
unfolding is_member has_singleton
is_strong_update r in_entry inits = has_singleton r || (in_entry && not (is_member r.id inits))

module _ (vfac : VariableFactory) (params : CrabBuilderParams) (mem : Layout) where
  -- A variable that is stored, truncated to the region's width.
  unfoldable pub store_operand : Region → Var → LitState → List Stmt × Operand × LitState
  unfolding mk_int_var
  store_operand r x st =
      let (temp, st') = mk_int_var vfac params r.region_bitwidth st in
      if ltb r.region_bitwidth x.bitwidth
      then (cast Cast.truncate x temp ∷ [], var_operand temp, st')
      else ([], var_operand x, st)

  -- What is stored for a literal; none is a case that the source takes to be unreachable.
  unfoldable pub stored : Region → Lit → LitState → Option (List Stmt × Operand × LitState)
  unfolding store_operand
  stored r (bool_var x) st = some (store_operand r x st)
  stored r (int_var x) st = some (store_operand r x st)
  stored r (ptr_var x) st = some (store_operand r x st)
  stored r (int_cst n) st = some ([], number_operand n, st)
  stored r (bool_cst b) st = some ([], number_operand (if b then pos 1 else pos 0), st)
  stored r ptr_null st = none

  -- The store to an array; `in_entry` says whether the block is the entry of main.
  unfoldable pub array_store_code :
      Value → Value → Bool → Var → Lit → Region → MemState → Option (List Stmt × MemState)
  unfolding infer_array_index is_strong_update insert_region stored type_of
  array_store_code ptr value in_entry x val r st =
      let (idx, st1) = infer_array_index vfac params mem ptr st in
      let strong = is_strong_update r in_entry st1.init_regions in
      do
        out ← stored r val st1.lits
        some (
          out.0 ++ (array_store x idx out.1 (mem.alloc_size (type_of value)) strong ∷ []),
          record st1 { lits = out.2; init_regions = insert_region r.id st1.init_regions },
        )

  unfoldable pub do_store_inst :
      Value → Value → Bool → Bool → Var → Lit → Region → MemState → Option (List Stmt × MemState)
  unfolding scalar_store array_store_code
  do_store_inst ptr value in_entry is_singleton x val r st =
      if is_singleton
      then (do code ← scalar_store value x val; some (code, st))
      else array_store_code ptr value in_entry x val r st

  -- The store of an integer or a Boolean at the precision of arrays; none is the error exit.
  unfoldable pub region_store :
      Value → Value → Value → Bool → Option Lit → MemState → Option (List Stmt × MemState)
  unfolding get_region is_unknown get_singleton_value region_var do_store_inst
  region_store I ptr value in_entry ref st =
      let r = get_region mem I ptr in
      let lower = get_singleton_value r params.lower_singleton_aliases in
      do
        val ← ref
        (if is_unknown r then some ([], st) else (do
          x ← region_var vfac params mem r lower
          do_store_inst ptr value in_entry lower x val r st))

  -- The store of a pointer.
  unfoldable pub pointer_store : Option Lit → Option Lit → MemState → Option (List Stmt × MemState)
  pointer_store (some (ptr_var p)) (some (ptr_var v)) st = some (ptr_store p v ∷ [], st)
  pointer_store (some (ptr_var p)) (some ptr_null) st = some ([], st)
  pointer_store p v st = none

  -- `I` stores `value` to `ptr`; none is the error exit.
  unfoldable pub visit_store_inst :
      Value → Value → Value → Bool → MemState → Option (List Stmt × MemState)
  unfolding is_const_expr is_ptr_null is_arr is_bool is_integer is_pointer type_of region_store
      pointer_store
  visit_store_inst I ptr value in_entry st =
      let (p, lits1) = get_lit vfac params ptr st.lits in
      let (v, lits2) = get_lit vfac params value lits1 in
      let st' : MemState = record st { lits = lits2 } in
      let store : Option (List Stmt × MemState) =
        if is_arr params && (is_integer (type_of value) || is_bool (type_of value))
        then region_store I ptr value in_entry v st'
        else if is_pointer (type_of value) params
        then pointer_store p v st'
        else some ([], st') in
      let body : Option (List Stmt × MemState) = (do
        l ← p
        null ← is_ptr_null l
        (if null then some ([], st') else store)) in
      if is_const_expr ptr || is_const_expr value then some ([], st) else body
