-- ===== src/Builder/Logic.antt =====
-- doBoolLogicOp of lib/Clam/CfgBuilder.cc: And, Or and Xor of Booleans.
pub mod Correct
use crab_llvm.Prelude.{
  ℕ, Bool, true, false, not, ◌&&◌, ◌||◌, Option, none, some, List, [], ◌∷◌, if◌then◌else◌, bool_eq,
  ◌>>=◌,
}
use crab_llvm.Llvm.{Value}
use crab_llvm.Utils.Types.{CrabBuilderParams}
use crab_llvm.Lit.{
  Var, Lit, is_bool_lit, get_var, bool_cst, bool_var, VariableFactory, LitState, get_lit,
  mk_bool_var,
}
use crab_llvm.Crab.{
  LinCst, cst_true, cst_false, BinOp, BoolOp, bool_and, bool_or, bool_xor, Stmt, bool_assign_cst,
  bool_assign_var, bool_apply,
}
use crab_llvm.Builder.Compare.{havoc}

-- LLVM's binary operators; the floating-point ones are one case.
pub data Opcode : Type 0 where
  add sub mul sdiv udiv srem urem shl ashr lshr and_op or_op xor_op other_op : Opcode

-- get_true or get_false
unfoldable pub truth : Bool → LinCst
truth b = if b then cst_true else cst_false

-- The statements for two Boolean literals; none is the error exit.
unfoldable pub bool_logic_code : Bool → Opcode → Var → Lit → Lit → Option (List Stmt)
unfolding truth havoc
bool_logic_code hv Opcode.and_op lhs (bool_var x) (bool_var y) =
    some (bool_apply bool_and lhs x y ∷ [])
bool_logic_code hv Opcode.and_op lhs (bool_cst a) (bool_cst b) =
    some (bool_assign_cst lhs (truth (a && b)) ∷ [])
bool_logic_code hv Opcode.and_op lhs (bool_cst false) (bool_var y) =
    some (bool_assign_cst lhs cst_false ∷ [])
bool_logic_code hv Opcode.and_op lhs (bool_var x) (bool_cst false) =
    some (bool_assign_cst lhs cst_false ∷ [])
bool_logic_code hv Opcode.and_op lhs (bool_cst true) (bool_var y) =
    some (bool_assign_var lhs y false ∷ [])
bool_logic_code hv Opcode.and_op lhs (bool_var x) (bool_cst true) =
    some (bool_assign_var lhs x false ∷ [])
bool_logic_code hv Opcode.or_op lhs (bool_var x) (bool_var y) =
    some (bool_apply bool_or lhs x y ∷ [])
bool_logic_code hv Opcode.or_op lhs (bool_cst a) (bool_cst b) =
    some (bool_assign_cst lhs (truth (a || b)) ∷ [])
bool_logic_code hv Opcode.or_op lhs (bool_cst true) (bool_var y) =
    some (bool_assign_cst lhs cst_true ∷ [])
bool_logic_code hv Opcode.or_op lhs (bool_var x) (bool_cst true) =
    some (bool_assign_cst lhs cst_true ∷ [])
bool_logic_code hv Opcode.or_op lhs (bool_cst false) (bool_var y) =
    some (bool_assign_var lhs y false ∷ [])
bool_logic_code hv Opcode.or_op lhs (bool_var x) (bool_cst false) =
    some (bool_assign_var lhs x false ∷ [])
bool_logic_code hv Opcode.xor_op lhs (bool_var x) (bool_var y) =
    some (bool_apply bool_xor lhs x y ∷ [])
bool_logic_code hv Opcode.xor_op lhs (bool_cst a) (bool_cst b) =
    some (bool_assign_cst lhs (truth ((a && not b) || (not a && b))) ∷ [])
bool_logic_code hv Opcode.xor_op lhs (bool_cst a) (bool_var y) = some (bool_assign_var lhs y a ∷ [])
bool_logic_code hv Opcode.xor_op lhs (bool_var x) (bool_cst b) = some (bool_assign_var lhs x b ∷ [])
bool_logic_code hv Opcode.and_op lhs _ _ = none
bool_logic_code hv Opcode.or_op lhs _ _ = none
bool_logic_code hv Opcode.xor_op lhs _ _ = none
bool_logic_code hv _ lhs _ _ = some (havoc lhs hv)

-- A literal that is there and is Boolean.
unfoldable pub as_bool : Option Lit → Option Lit
unfolding is_bool_lit
as_bool none = none
as_bool (some l) = if is_bool_lit l then some l else none

module _ (vfac : VariableFactory) (params : CrabBuilderParams) where
  -- The variable of the left-hand side: the literal's, or a new one.
  unfoldable pub logic_lhs : Option Lit → LitState → Option (Var × LitState)
  unfolding is_bool_lit get_var mk_bool_var
  logic_lhs none st = some (mk_bool_var vfac params st)
  logic_lhs (some l) st = if is_bool_lit l then (do x ← get_var l; some (x, st)) else none

  unfoldable pub do_bool_logic_op :
      Opcode → Option Lit → Value → Value → LitState → Option (Var × (List Stmt × LitState))
  unfolding logic_lhs as_bool bool_logic_code havoc
  do_bool_logic_op op ref v1 v2 st = do
    (lhs, st0) ← logic_lhs ref st
    let (r1, st1) = get_lit vfac params v1 st0
    let (r2, st2) = get_lit vfac params v2 st1
    elim (as_bool r1) [
      | none ↦ some (lhs, (havoc lhs params.include_useless_havoc, st1))
      | some b1 ↦ elim (as_bool r2) [
        | none ↦ some (lhs, (havoc lhs params.include_useless_havoc, st2))
        | some b2 ↦ do
          code ← bool_logic_code params.include_useless_havoc op lhs b1 b2
          some (lhs, (code, st2))
      ]
    ]
