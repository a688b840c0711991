-- ===== src/Builder/Visit.antt =====
-- visitCmpInst and visitBinaryOperator of lib/Clam/CfgBuilder.cc.
pub mod Correct
use crab_llvm.Prelude.{
  ℕ, Bool, true, false, not, ◌&&◌, ◌||◌, Option, none, some, List, [], ◌∷◌, ◌++◌, if◌then◌else◌,
  ◌>>=◌,
}
use crab_llvm.CmpInst.{Predicate, Cmp}
use crab_llvm.Llvm.{Value, type_of, width_of}
use crab_llvm.Utils.Types.{
  CrabBuilderParams, is_tracked, is_bool, is_integer, is_integer_ty, is_pointer,
}
use crab_llvm.Utils.Uses.{User, all_uses_are_br_inst, all_uses_are_br_or_int_select_cond_inst}
use crab_llvm.Lit.{Var, Lit, get_var, VariableFactory, LitState, get_lit}
use crab_llvm.Crab.{Stmt, bool_assign_var}
use crab_llvm.Builder.Compare.{havoc, cmp_inst_to_crab_bool}
use crab_llvm.Builder.Logic.{Opcode, do_bool_logic_op}
use crab_llvm.Builder.Arithmetic.{is_arithmetic, do_arithmetic, do_int_logic_op}

module _ (vfac : VariableFactory) (params : CrabBuilderParams) where
  -- A comparison of Booleans; `ref` is the literal of its result and `x` the variable of it.
  unfoldable pub bool_comparison :
      Predicate → Lit → Var → Value → Value → LitState → Option (List Stmt × LitState)
  unfolding do_bool_logic_op
  bool_comparison Predicate.eq ref x v0 v1 st = do
    (tmp, out) ← do_bool_logic_op vfac params Opcode.xor_op none v0 v1 st
    some (out.0 ++ (bool_assign_var x tmp true ∷ []), out.1)
  bool_comparison Predicate.ne ref x v0 v1 st = do
    (lhs, out) ← do_bool_logic_op vfac params Opcode.xor_op (some ref) v0 v1 st
    some out
  bool_comparison _ ref x v0 v1 st = some ([], st)

  -- The comparison by the types of its operands; none is a failed assertion or the error exit.
  unfoldable pub comparison_code :
      Value → Cmp Value → List User → Lit → Var → LitState → Option (List Stmt × LitState)
  unfolding is_pointer is_integer_ty is_bool is_integer type_of all_uses_are_br_inst
      all_uses_are_br_or_int_select_cond_inst bool_comparison cmp_inst_to_crab_bool havoc
  comparison_code I c users ref x st =
      if is_pointer (type_of c.op0) params && is_pointer (type_of c.op1) params
      then some
          ((if all_uses_are_br_inst users then [] else havoc x params.include_useless_havoc), st)
      else if not (is_integer_ty (type_of c.op0)) || not (is_integer_ty (type_of c.op1))
      then some (havoc x params.include_useless_havoc, st)
      else if is_bool (type_of c.op0) && is_bool (type_of c.op1)
      then bool_comparison c.predicate ref x c.op0 c.op1 st
      else if not (is_integer (type_of c.op0) && is_integer (type_of c.op1))
      then none
      else if all_uses_are_br_or_int_select_cond_inst I users
      then some ([], st)
      else cmp_inst_to_crab_bool vfac params I c st

  -- `I` is the value of the comparison.
  unfoldable pub visit_cmp_inst :
      Value → Cmp Value → List User → LitState → Option (List Stmt × LitState)
  unfolding is_tracked get_var comparison_code
  visit_cmp_inst I c users st =
      let (r, st1) = get_lit vfac params I st in
      let body = (do ref ← r; x ← get_var ref; comparison_code I c users ref x st1) in
      if is_tracked I params then body else some ([], st)

  -- The operation by its opcode and type.
  unfoldable pub binary_code :
      Value → Opcode → Value → Value → Lit → Var → LitState → Option (List Stmt × LitState)
  unfolding is_bool type_of width_of do_arithmetic do_int_logic_op do_bool_logic_op is_arithmetic
      havoc
  binary_code I Opcode.other_op v1 v2 ref x st = some (havoc x params.include_useless_havoc, st)
  binary_code I op v1 v2 ref x st =
      let logic = (do (lhs, out) ← do_bool_logic_op vfac params op (some ref) v1 v2 st; some out) in
      if is_arithmetic op
      then do_arithmetic vfac params (some ref) op (width_of (type_of I)) v1 v2 st
      else if is_bool (type_of I)
      then logic
      else do_int_logic_op vfac params (some ref) op v1 v2 st

  unfoldable pub visit_binary_operator :
      Value → Opcode → Value → Value → LitState → Option (List Stmt × LitState)
  unfolding is_tracked get_var binary_code
  visit_binary_operator I op v1 v2 st =
      let (r, st1) = get_lit vfac params I st in
      let body = (do ref ← r; x ← get_var ref; binary_code I op v1 v2 ref x st1) in
      if is_tracked I params then body else some ([], st)
