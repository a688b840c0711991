-- ===== src/Builder/Memory/Init.antt =====
-- doGlobalInitializer of lib/Clam/CfgBuilder.cc, without ShadowMem.
use crab_llvm.Prelude.{
  ℕ, ◌+◌, ◌-◌, ◌*◌, ◌/◌, ◌%◌, ◌^◌, Bool, false, Option, none, some, List, [], ◌∷◌, ◌==◌,
  if◌then◌else◌, ◌>>=◌,
}
use crab_llvm.Prelude.Int.{ℤ, pos}
use crab_llvm.Llvm.{Value}
use crab_llvm.Utils.Types.{CrabBuilderParams}
use crab_llvm.Lit.{
  Lit, bool_cst, bool_var, int_cst, int_var, ptr_null, ptr_var, Var, LinExp, exp_cst,
  VariableFactory, get_lit, mk_array_var, mk_array_singleton_var, Region,
}
use crab_llvm.Crab.{
  Stmt, bool_assign_cst, assign, array_init, array_store_range, number_operand, add_constant,
}
use crab_llvm.Builder.Logic.{truth}
use crab_llvm.Builder.Memory.{
  Layout, MemState, insert_region, get_region, get_singleton_value, is_unknown,
}

-- What a global or its field holds, by the type that the call's pointer points to: an integer with
-- its bits and its storage size, an array with the number and the storage size of its elements, or
-- something else.
pub data Initialized : Type 0 where
  int_data : ℕ → ℕ → Initialized
  array_data : ℕ → ℕ → Initialized
  other_data : Initialized

-- The value that a scalar integer starts with: that of a constant, or else 0; none is the error
-- exit.
unfoldable pub scalar_value : Option Lit → Option ℤ
scalar_value none = some (pos 0)
scalar_value (some (int_cst n)) = some n
scalar_value (some (int_var x)) = some (pos 0)
scalar_value (some (bool_var x)) = some (pos 0)
scalar_value (some (ptr_var x)) = some (pos 0)
scalar_value (some (bool_cst b)) = none
scalar_value (some ptr_null) = none

unfoldable pub scalar_truth : Option Lit → Option Bool
scalar_truth none = some false
scalar_truth (some (bool_cst b)) = some b
scalar_truth (some (bool_var x)) = some false
scalar_truth (some (int_var x)) = some false
scalar_truth (some (ptr_var x)) = some false
scalar_truth (some (int_cst n)) = none
scalar_truth (some ptr_null) = none

-- The value that an array starts with; none is the error exit.
unfoldable pub array_value : Option Lit → Option ℤ
array_value none = some (pos 0)
array_value (some (int_cst n)) = some n
array_value (some (int_var x)) = none
array_value (some (bool_cst b)) = some (if b then pos 1 else pos 0)
array_value (some (bool_var x)) = some (pos 0)
array_value (some l) = none

-- A number less 1, in unsigned arithmetic of w bits.
unfoldable pub unsigned_pred : ℕ → ℕ → ℤ
unsigned_pred w n = pos ((n + 2 ^ w - 1) % 2 ^ w)

module _ (vfac : VariableFactory) (params : CrabBuilderParams) (mem : Layout) where
  -- The statements for a region that is one scalar.
  unfoldable pub scalar_initializer : Initialized → Option Lit → Region → Option (List Stmt)
  unfolding mk_array_singleton_var scalar_value scalar_truth truth
  scalar_initializer (int_data bits size) ref r = do
    x ← mk_array_singleton_var vfac r none
    (if bits == 1
        then (do b ← scalar_truth ref; some (bool_assign_cst x (truth b) ∷ []))
        else (do n ← scalar_value ref; some (assign x (exp_cst n) ∷ [])))
  scalar_initializer content ref r = do x ← mk_array_singleton_var vfac r none; some []

  -- The statement for a range of an array, by the parameters.
  unfoldable pub range_code : Var → LinExp → LinExp → ℤ → ℕ → List Stmt
  range_code x lb ub v size =
      (if params.use_array_smashing
        then array_init x lb ub (number_operand v) size
        else array_store_range x lb ub (number_operand v) size)
      ∷ []

  -- The statements for an array from the static offset.
  unfoldable pub array_initializer :
      Initialized → Option Lit → Region → ℤ → MemState → Option (List Stmt × MemState)
  unfolding mk_array_var array_value range_code insert_region unsigned_pred add_constant
  array_initializer (int_data bits size) ref r offset st = do
    x ← mk_array_var vfac r none
    v ← array_value ref
    some (
      range_code x (exp_cst offset)
          (add_constant (exp_cst offset) (if bits == 1 then pos 0 else unsigned_pred 32 (bits / 8)))
          v size,
      record st { init_regions = insert_region r.id st.init_regions },
    )
  array_initializer (array_data n size) ref r offset st = do
    x ← mk_array_var vfac r none
    v ← array_value ref
    (if n == 0
        then some ([], st)
        else some (
          range_code x (exp_cst offset)
              (add_constant (exp_cst offset) (unsigned_pred 64 (n * size))) v size,
          record st { init_regions = insert_region r.id st.init_regions },
        ))
  array_initializer other_data ref r offset st = do
    x ← mk_array_var vfac r none
    v ← array_value ref
    some ([], st)

  -- The initialization after the optional argument's literal.
  unfoldable pub initializer_code :
      Value → Initialized → Option Lit → Region → MemState → Option (List Stmt × MemState)
  unfolding get_singleton_value scalar_initializer array_initializer
  initializer_code v content ref r st =
      if get_singleton_value r params.lower_singleton_aliases
      then (do code ← scalar_initializer content ref r; some (code, st))
      else elim (mem.offset_of v) [
        | none ↦ some ([], st)
        | some offset ↦ array_initializer content ref r offset st
      ]

  -- verifier.zero_initializer(v), or verifier.int_initializer(v, k).
  unfoldable pub do_global_initializer :
      Value → Value → Initialized → Option Value → MemState → Option (List Stmt × MemState)
  unfolding get_region is_unknown initializer_code
  do_global_initializer I v content none st =
      let r = get_region mem I v in
      if is_unknown r then some ([], st) else initializer_code v content none r st
  do_global_initializer I v content (some k) st =
      let r = get_region mem I v in
      let (ref, lits') = get_lit vfac params k st.lits in
      let st' : MemState = record st { lits = lits' } in
      if is_unknown r
      then some ([], st)
      else elim ref [ none ↦ some ([], st') | some l ↦ initializer_code v content (some l) r st' ]
