-- ===== src/Builder/Casts.antt =====
-- visitCastInst and normalizeFuncParamOrRet of lib/Clam/CfgBuilder.cc.
pub mod Correct
use crab_llvm.Prelude.{
  ℕ, Bool, true, false, not, ◌&&◌, ◌||◌, Option, none, some, List, [], ◌∷◌, ◌==◌, if◌then◌else◌,
  ◌>>=◌,
}
use crab_llvm.Llvm.{Ty, int, pointer, void, other, Value, type_of, width_of, is_const_expr}
use crab_llvm.Utils.Types.{CrabBuilderParams, is_tracked, is_bool, is_pointer, CastOp}
use crab_llvm.Utils.Uses.{User, all_uses_are_indirect_calls, all_uses_are_verifier_calls}
use crab_llvm.Lit.{
  Var, Lit, exp_cst, bool_cst, bool_var, int_cst, int_var, ptr_null, ptr_var, get_var,
  VariableFactory, LitState, get_lit, mk_bool_var, mk_int_var, mk_ptr_var, mk_var,
}
use crab_llvm.Crab.{
  Cast, sign_extend, zero_extend, truncate, Stmt, bool_assign_cst, assign, cast, ptr_null_stmt,
  ptr_assign,
}
use crab_llvm.Builder.Compare.{havoc}
use crab_llvm.Builder.Logic.{truth}

-- The statement for a cast of a Boolean constant, and for one of an integer or of a variable.
unfoldable pub bool_cast : CastOp → Option Cast
bool_cast CastOp.sext = some sign_extend
bool_cast CastOp.zext = some zero_extend
bool_cast _ = none

unfoldable pub int_cast : CastOp → Option Cast
int_cast CastOp.sext = some sign_extend
int_cast CastOp.zext = some zero_extend
int_cast CastOp.trunc = some truncate
int_cast _ = none

-- CastInst::isIntegerCast for the operators that have an integer as source and destination, and
-- whether both types are the same.
unfoldable pub is_integer_cast : CastOp → Bool
is_integer_cast CastOp.trunc = true
is_integer_cast CastOp.zext = true
is_integer_cast CastOp.sext = true
is_integer_cast _ = false

-- A cast instruction: its value, the operator, the operand, its users, and whether all of them are
-- memory accesses that are not tracked.
pub record CastInst : Type 0 where
  pub value : Value
  pub op : CastOp
  pub operand : Value
  pub users : List User
  pub only_untracked_memory : Bool

module _ (vfac : VariableFactory) (params : CrabBuilderParams) where
  -- A cast between integers of different widths; `w` is the width of the source. none is the error
  -- exit.
  unfoldable pub integer_cast_code :
      CastOp → ℕ → Var → Lit → LitState → Option (List Stmt × LitState)
  unfolding bool_cast int_cast truth mk_bool_var mk_int_var
  integer_cast_code op w dst (bool_cst b) st =
      let (tmp, st') = mk_bool_var vfac params st in
      do k ← bool_cast op; some (bool_assign_cst tmp (truth b) ∷ cast k tmp dst ∷ [], st')
  integer_cast_code op w dst (int_cst n) st =
      let (tmp, st') = mk_int_var vfac params w st in
      do k ← int_cast op; some (assign tmp (exp_cst n) ∷ cast k tmp dst ∷ [], st')
  integer_cast_code op w dst (bool_var x) st = do k ← int_cast op; some (cast k x dst ∷ [], st)
  integer_cast_code op w dst (int_var x) st = do k ← int_cast op; some (cast k x dst ∷ [], st)
  integer_cast_code op w dst (ptr_var x) st = do k ← int_cast op; some (cast k x dst ∷ [], st)
  integer_cast_code op w dst ptr_null st = none

  -- The other casts: a bit cast of a tracked pointer is an assignment.
  unfoldable pub pointer_cast_code : CastOp → Ty → Var → Lit → List Stmt
  unfolding is_pointer havoc
  pointer_cast_code CastOp.bit_cast src_type dst ptr_null =
      if is_pointer src_type params
      then ptr_null_stmt dst ∷ []
      else havoc dst params.include_useless_havoc
  pointer_cast_code CastOp.bit_cast src_type dst (ptr_var x) =
      if is_pointer src_type params
      then ptr_assign dst x ∷ []
      else havoc dst params.include_useless_havoc
  pointer_cast_code op src_type dst src = havoc dst params.include_useless_havoc

  same_width : Ty → Ty → Bool
  unfolding width_of
  same_width t u = width_of t == width_of u

  -- The translation of the operand whose literal is given.
  cast_code : CastInst → Var → Option Lit → LitState → Option (List Stmt × LitState)
  unfolding is_integer_cast same_width type_of width_of integer_cast_code pointer_cast_code havoc
  cast_code I dst none st = some (havoc dst params.include_useless_havoc, st)
  cast_code I dst (some src) st =
      if is_integer_cast I.op
      then if same_width (type_of I.operand) (type_of I.value)
        then some (havoc dst params.include_useless_havoc, st)
        else integer_cast_code I.op (width_of (type_of I.operand)) dst src st
      else some (pointer_cast_code I.op (type_of I.operand) dst src, st)

  -- Whether the cast is left out.
  unfoldable pub is_skipped : CastInst → Bool
  unfolding is_tracked is_bool type_of all_uses_are_indirect_calls all_uses_are_verifier_calls
  is_skipped I =
      not (is_tracked I.value params)
      || (I.only_untracked_memory
          || (all_uses_are_indirect_calls I.value I.users || elim I.op [
            | CastOp.zext ↦ is_bool (type_of I.operand) && all_uses_are_verifier_calls I.users
            | _ ↦ false
          ]))

  unfoldable pub visit_cast_inst : CastInst → LitState → Option (List Stmt × LitState)
  unfolding is_skipped cast_code get_var
  visit_cast_inst I st =
      let (rd, st1) = get_lit vfac params I.value st in
      let (rs, st2) = get_lit vfac params I.operand st1 in
      let body = (do l ← rd; dst ← get_var l; cast_code I dst rs st2) in
      if is_skipped I then some ([], st) else body

  -- The variable for a parameter or a returned value, with the statements that give it its value.
  unfoldable pub param_of_lit : Value → Lit → LitState → Var × (List Stmt × LitState)
  unfolding mk_int_var mk_bool_var mk_ptr_var width_of type_of truth
  param_of_lit v (bool_var x) st = (x, ([], st))
  param_of_lit v (int_var x) st = (x, ([], st))
  param_of_lit v (ptr_var x) st = (x, ([], st))
  param_of_lit v (int_cst n) st =
      let (res, st') = mk_int_var vfac params (width_of (type_of v)) st in
      (res, (assign res (exp_cst n) ∷ [], st'))
  param_of_lit v (bool_cst b) st =
      let (res, st') = mk_bool_var vfac params st in
      (res, (bool_assign_cst res (truth b) ∷ [], st'))
  param_of_lit v ptr_null st =
      let (res, st') = mk_ptr_var vfac params st in (res, (ptr_null_stmt res ∷ [], st'))

  -- none is the error exit.
  unfoldable pub normalize_func_param_or_ret :
      Value → LitState → Option (Var × (List Stmt × LitState))
  unfolding param_of_lit is_tracked mk_var is_const_expr
  normalize_func_param_or_ret v st =
      let (r, st1) = get_lit vfac params v st in
      let (fresh, st2) = mk_var vfac params v st1 in
      elim r [
        | some l ↦ some (param_of_lit v l st1)
        | none ↦
            if is_tracked v params && is_const_expr v
            then (do x ← fresh; some (x, ([], st2)))
            else none
      ]
