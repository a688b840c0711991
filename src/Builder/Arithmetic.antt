-- ===== src/Builder/Arithmetic.antt =====
-- doBinOp, doArithmetic and doIntLogicOp of lib/Clam/CfgBuilder.cc.
pub mod Documented
pub mod Computes
pub mod Correct
pub mod Bitwise
mod Tests
use crab_llvm.Prelude.{
  ℕ, Bool, true, false, Option, none, some, List, [], ◌∷◌, ◌++◌, if◌then◌else◌, ◌>>=◌,
}
use crab_llvm.Llvm.{Value}
use crab_llvm.Utils.Types.{CrabBuilderParams}
use crab_llvm.Lit.{
  Var, Lit, LinExp, is_int_lit, get_var, get_exp, exp_var, exp_cst, VariableFactory, LitState,
  get_lit, mk_int_var,
}
use crab_llvm.Crab.{BinOp, Operand, var_operand, number_operand, Stmt, assign, apply}
use crab_llvm.Builder.Compare.{havoc}
use crab_llvm.Builder.Logic.{Opcode}

-- The statement of Crab for each opcode.
unfoldable pub crab_op : Opcode → Option BinOp
crab_op Opcode.add = some BinOp.add
crab_op Opcode.sub = some BinOp.sub
crab_op Opcode.mul = some BinOp.mul
crab_op Opcode.sdiv = some BinOp.sdiv
crab_op Opcode.udiv = some BinOp.udiv
crab_op Opcode.srem = some BinOp.srem
crab_op Opcode.urem = some BinOp.urem
crab_op Opcode.and_op = some BinOp.and_op
crab_op Opcode.or_op = some BinOp.or_op
crab_op Opcode.xor_op = some BinOp.xor_op
crab_op Opcode.shl = some BinOp.shl
crab_op Opcode.ashr = some BinOp.ashr
crab_op Opcode.lshr = some BinOp.lshr
crab_op Opcode.other_op = none

-- Without a variable as the first operand nothing is emitted; none is the error exit.
unfoldable pub do_bin_op : Opcode → Var → LinExp → LinExp → Option (List Stmt)
unfolding crab_op
do_bin_op op lhs op1 op2 = do
  o ← crab_op op
  elim op1.variable [
    | none ↦ some []
    | some x ↦ elim op2.variable [
      | some y ↦ some (apply o lhs x (var_operand y) ∷ [])
      | none ↦ some (apply o lhs x (number_operand op2.constant) ∷ [])
    ]
  ]

-- The opcodes that doArithmetic accepts.
unfoldable pub is_arithmetic : Opcode → Bool
is_arithmetic Opcode.and_op = false
is_arithmetic Opcode.or_op = false
is_arithmetic Opcode.xor_op = false
is_arithmetic Opcode.other_op = false
is_arithmetic _ = true

unfoldable pub int_lhs : Option Lit → Option Var
unfolding is_int_lit get_var
int_lhs none = none
int_lhs (some l) = if is_int_lit l then get_var l else none

-- The expression of a literal that is there and is an integer.
unfoldable pub as_exp : Option Lit → Option LinExp
unfolding get_exp
as_exp none = none
as_exp (some l) = get_exp l

module _ (vfac : VariableFactory) (params : CrabBuilderParams) where
  -- Constants in the place of the first operand go through new variables of width `w`.
  unfoldable pub arithmetic_code :
      Opcode → ℕ → Var → LinExp → LinExp → LitState → Option (List Stmt × LitState)
  unfolding is_arithmetic do_bin_op mk_int_var
  arithmetic_code op w lhs op1 op2 st =
      if is_arithmetic op
      then elim op1.variable [
        | some x ↦ do code ← do_bin_op op lhs op1 op2; some (code, st)
        | none ↦ elim op2.variable [
          | none ↦
              let (t1, st1) = mk_int_var vfac params w st in
              let (t2, st2) = mk_int_var vfac params w st1 in
              do
                code ← do_bin_op op lhs (exp_var t1) (exp_var t2)
                some (
                  assign t1 (exp_cst op1.constant) ∷ assign t2 (exp_cst op2.constant) ∷ code,
                  st2,
                )
          | some y ↦
              let (t, st') = mk_int_var vfac params w st in
              do
                code ← do_bin_op op lhs (exp_var t) op2
                some (assign t (exp_cst op1.constant) ∷ code, st')
        ]
      ]
      else none

  -- `w` is the width of the instruction's type.
  unfoldable pub do_arithmetic :
      Option Lit → Opcode → ℕ → Value → Value → LitState → Option (List Stmt × LitState)
  unfolding int_lhs as_exp arithmetic_code havoc
  do_arithmetic ref op w v1 v2 st = do
    lhs ← int_lhs ref
    let (r1, st1) = get_lit vfac params v1 st
    let (r2, st2) = get_lit vfac params v2 st1
    elim (as_exp r1) [
      | none ↦ some (havoc lhs params.include_useless_havoc, st1)
      | some op1 ↦ elim (as_exp r2) [
        | none ↦ some (havoc lhs params.include_useless_havoc, st2)
        | some op2 ↦ arithmetic_code op w lhs op1 op2 st2
      ]
    ]

  unfoldable pub int_logic_code : Opcode → Var → LinExp → LinExp → Option (List Stmt)
  unfolding do_bin_op havoc
  int_logic_code Opcode.and_op lhs op1 op2 = do_bin_op Opcode.and_op lhs op1 op2
  int_logic_code Opcode.or_op lhs op1 op2 = do_bin_op Opcode.or_op lhs op1 op2
  int_logic_code Opcode.xor_op lhs op1 op2 = do_bin_op Opcode.xor_op lhs op1 op2
  int_logic_code _ lhs op1 op2 = some (havoc lhs params.include_useless_havoc)

  unfoldable pub do_int_logic_op :
      Option Lit → Opcode → Value → Value → LitState → Option (List Stmt × LitState)
  unfolding int_lhs as_exp int_logic_code havoc
  do_int_logic_op ref op v1 v2 st = do
    lhs ← int_lhs ref
    let (r1, st1) = get_lit vfac params v1 st
    let (r2, st2) = get_lit vfac params v2 st1
    elim (as_exp r1) [
      | none ↦ some (havoc lhs params.include_useless_havoc, st1)
      | some op1 ↦ elim (as_exp r2) [
        | none ↦ some (havoc lhs params.include_useless_havoc, st2)
        | some op2 ↦ do code ← int_logic_code op lhs op1 op2; some (code, st2)
      ]
    ]
