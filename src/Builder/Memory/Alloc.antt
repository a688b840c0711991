-- ===== src/Builder/Memory/Alloc.antt =====
-- visitAllocaInst, doAllocFn and doMemIntrinsic of lib/Clam/CfgBuilder.cc, without ShadowMem.
use crab_llvm.Prelude.{
  ℕ, suc, ◌+◌, ◌-◌, ◌*◌, ◌%◌, ◌^◌, not, ◌&&◌, ◌||◌, Option, none, some, List, [], ◌∷◌,
  if◌then◌else◌, ltb, ◌>>=◌,
}
use crab_llvm.Prelude.Int.{pos, negsuc}
use crab_llvm.Llvm.{Value, type_of}
use crab_llvm.Utils.Types.{CrabBuilderParams, is_integer, is_pointer, is_tracked, is_void_ty}
use crab_llvm.Lit.{
  Lit, bool_cst, bool_var, int_cst, int_var, Var, exp_cst, get_exp, get_var, VariableFactory,
  get_lit, mk_array_var,
}
use crab_llvm.Crab.{
  Stmt, havoc_stmt, ptr_new_object, array_init, array_store_range, Operand, var_operand,
  number_operand, add_constant,
}
use crab_llvm.Builder.Compare.{havoc}
use crab_llvm.Builder.Memory.{Layout, MemState, insert_region, get_region, is_unknown, is_arr}

-- The type of an alloca: an array or a vector, with the storage size of its elements and, for an
-- array, their number, or another type.
pub data Allocated : Type 0 where
  array_of : ℕ → ℕ → Allocated
  vector_of : ℕ → Allocated
  other_type : Allocated

-- A memory intrinsic: memcpy and memmove, or memset of a value for a length, with its alignment.
pub data MemIntrinsic : Type 0 where
  transfer : MemIntrinsic
  memset : Value → Value → ℕ → MemIntrinsic

-- The operand of the value that memset writes.
unfoldable pub set_operand : Lit → Option Operand
set_operand (int_cst n) = some (number_operand n)
set_operand (int_var x) = some (var_operand x)
set_operand (bool_cst b) = some (number_operand (if b then pos 1 else pos 0))
set_operand (bool_var x) = some (var_operand x)
set_operand l = none

-- The default of a memory intrinsic.
unfoldable pub or_havoc : Var → Option (List Stmt) → List Stmt
or_havoc x none = havoc_stmt x ∷ []
or_havoc x (some code) = code

module _ (vfac : VariableFactory) (params : CrabBuilderParams) (mem : Layout) where
  -- A new object for an instruction; none is a failed assertion.
  unfoldable pub new_object : Value → MemState → Option (List Stmt × MemState)
  unfolding get_var
  new_object I st =
      let (ref, lits') = get_lit vfac params I st.lits in
      do
        l ← ref
        x ← get_var l
        some (
          ptr_new_object x st.object_id ∷ [],
          record st { lits = lits'; object_id = suc st.object_id },
        )

  -- The array of an alloca, which array smashing starts with zeros; the sizes are unsigned numbers
  -- of 32 bits.
  unfoldable pub alloca_array : Value → Allocated → MemState → Option (List Stmt × MemState)
  unfolding get_region is_unknown insert_region mk_array_var
  alloca_array I (array_of size n) st =
      let elems = n % 2 ^ 32 in
      let bytes = size % 2 ^ 32 in
      let r = get_region mem I I in
      let st' : MemState = record st { init_regions = insert_region r.id st.init_regions } in
      let zeros : Option (List Stmt × MemState) = (do
        x ← mk_array_var vfac r none
        some (
          array_init x (exp_cst (pos 0)) (exp_cst (pos ((elems * bytes + 2 ^ 32 - 1) % 2 ^ 32)))
                (number_operand (pos 0)) bytes
              ∷ [],
          st',
        )) in
      if is_unknown r || not (ltb 0 elems)
      then some ([], st)
      else if ltb 0 bytes
      then zeros
      else some ([], st')
  alloca_array I allocated st = some ([], st)

  unfoldable pub visit_alloca_inst : Value → Allocated → MemState → Option (List Stmt × MemState)
  unfolding is_pointer type_of is_arr new_object alloca_array
  visit_alloca_inst I allocated st =
      if is_pointer (type_of I) params
      then new_object I st
      else if is_arr params && params.use_array_smashing
      then alloca_array I allocated st
      else some ([], st)

  -- The result of an allocation function.
  unfoldable pub do_alloc_fn : Value → MemState → Option (List Stmt × MemState)
  unfolding is_void_ty is_pointer is_tracked type_of new_object havoc get_var
  do_alloc_fn I st =
      let (ref, lits') = get_lit vfac params I st.lits in
      let havocked : Option (List Stmt × MemState) = (do
        l ← ref
        x ← get_var l
        some (havoc x params.include_useless_havoc, record st { lits = lits' })) in
      let ignored : Option (List Stmt × MemState) = (do
        l ← ref
        x ← get_var l
        some ([], record st { lits = lits' })) in
      if is_void_ty (type_of I)
      then some ([], st)
      else if is_pointer (type_of I) params
      then new_object I st
      else if is_tracked I params
      then havocked
      else ignored

  -- The statement for a memset, if there is one.
  unfoldable pub memset_code : Value → Value → ℕ → Var → MemState → List Stmt × MemState
  unfolding is_integer type_of get_exp set_operand or_havoc
  memset_code value len align x st =
      let (n, lits1) = get_lit vfac params len st.lits in
      let (v, lits2) = get_lit vfac params value lits1 in
      let code : Option (List Stmt) = (do
        nl ← n
        e ← get_exp nl
        vl ← v
        op ← set_operand vl
        some (array_store_range x (exp_cst (pos 0)) (add_constant e (negsuc 0)) op align ∷ [])) in
      if is_integer (type_of value)
      then (or_havoc x code, record st { lits = lits2 })
      else (havoc_stmt x ∷ [], st)

  -- `I` writes to `dst`; none is the error exit.
  unfoldable pub do_mem_intrinsic :
      Value → Value → MemIntrinsic → MemState → Option (List Stmt × MemState)
  unfolding is_arr get_region is_unknown mk_array_var memset_code insert_region
  do_mem_intrinsic I dst op st =
      let r = get_region mem I dst in
      let code : Var → List Stmt × MemState = λ x. elim op [
        | transfer ↦ (havoc_stmt x ∷ [], st)
        | memset value len align ↦
            memset_code value len align x
              (record st { init_regions = insert_region r.id st.init_regions })
      ] in
      if not (is_arr params) || is_unknown r
      then some ([], st)
      else (do x ← mk_array_var vfac r none; some (code x))
