-- ===== src/Builder/Compare.antt =====
-- cmpInstToCrabBool, cmpInstToCrabPtr and cmpInstToCrabInt of lib/Clam/CfgBuilder.cc, and the
-- normalizeCmpInst of lib/Clam/CfgBuilderUtils.cc.
pub mod Sound
pub mod Correct
use crab_llvm.Prelude.{
  ℕ, Bool, true, false, not, ◌&&◌, ◌||◌, Option, none, some, List, [], ◌∷◌, if◌then◌else◌, ◌>>=◌,
}
use crab_llvm.Prelude.Int.{ℤ, pos, negsuc}
use crab_llvm.CmpInst.{Predicate, Cmp, swap_operands}
use crab_llvm.Llvm.{Value}
use crab_llvm.Utils.Types.{CrabBuilderParams}
use crab_llvm.Lit.{
  Var, Lit, LinExp, is_ptr_lit, is_var, get_var, get_exp, is_bool_lit, VariableFactory, LitState,
  get_lit, ptr_null, ptr_var,
}
use crab_llvm.Crab.{
  LinCst, lin_cst, Relation, PtrCst, ptr_true, ptr_false, eq_null, diseq_null, eq_ptr, diseq_ptr,
  Stmt, havoc_stmt, bool_assign_cst, add_constant,
}

-- havoc
unfoldable pub havoc : Var → Bool → List Stmt
havoc x include_useless_havoc = if include_useless_havoc then havoc_stmt x ∷ [] else []

unfoldable pub normalize_cmp_inst : Cmp Value → Cmp Value
unfolding swap_operands
normalize_cmp_inst c = elim c.predicate [
  | Predicate.ugt ↦ swap_operands c
  | Predicate.uge ↦ swap_operands c
  | Predicate.sgt ↦ swap_operands c
  | Predicate.sge ↦ swap_operands c
  | _ ↦ c
]

-- op0 == op1, op0 != op1, op0 <= op1 - 1 and op0 <= op1. The predicates GT and GE do not occur.
unfoldable pub bool_constraint : Predicate → LinExp → LinExp → Option LinCst
unfolding add_constant
bool_constraint Predicate.eq a b = some (lin_cst false Relation.equal a b)
bool_constraint Predicate.ne a b = some (lin_cst false Relation.disequal a b)
bool_constraint Predicate.ult a b =
    some (lin_cst true Relation.at_most a (add_constant b (negsuc 0)))
bool_constraint Predicate.slt a b =
    some (lin_cst false Relation.at_most a (add_constant b (negsuc 0)))
bool_constraint Predicate.ule a b = some (lin_cst true Relation.at_most a b)
bool_constraint Predicate.sle a b = some (lin_cst false Relation.at_most a b)
bool_constraint _ a b = none

-- The constraint of a comparison or of its negation.
unfoldable pub int_constraint : Predicate → LinExp → LinExp → Bool → Option LinCst
unfolding add_constant bool_constraint
int_constraint p a b false = bool_constraint p a b
int_constraint Predicate.eq a b true = some (lin_cst false Relation.disequal a b)
int_constraint Predicate.ne a b true = some (lin_cst false Relation.equal a b)
int_constraint Predicate.ult a b true = some (lin_cst true Relation.at_most b a)
int_constraint Predicate.slt a b true = some (lin_cst false Relation.at_most b a)
int_constraint Predicate.ule a b true =
    some (lin_cst true Relation.at_most (add_constant b (pos 1)) a)
int_constraint Predicate.sle a b true =
    some (lin_cst false Relation.at_most (add_constant b (pos 1)) a)
int_constraint _ a b true = none

-- The pointer constraints that two pointer literals give.
unfoldable pub ptr_equality : Lit → Lit → PtrCst
ptr_equality (ptr_var x) ptr_null = eq_null x
ptr_equality ptr_null (ptr_var y) = eq_null y
ptr_equality (ptr_var x) (ptr_var y) = eq_ptr x y
ptr_equality _ _ = ptr_true

unfoldable pub ptr_disequality : Lit → Lit → PtrCst
ptr_disequality (ptr_var x) ptr_null = diseq_null x
ptr_disequality ptr_null (ptr_var y) = diseq_null y
ptr_disequality (ptr_var x) (ptr_var y) = diseq_ptr x y
ptr_disequality _ _ = ptr_false

unfoldable pub ptr_constraint : Predicate → Lit → Lit → Bool → Option PtrCst
unfolding is_ptr_lit ptr_equality ptr_disequality
ptr_constraint p l0 l1 negated =
    if is_ptr_lit l0 && is_ptr_lit l1
    then elim p [
      | Predicate.eq ↦ some (if negated then ptr_disequality l0 l1 else ptr_equality l0 l1)
      | Predicate.ne ↦ some (if negated then ptr_equality l0 l1 else ptr_disequality l0 l1)
      | _ ↦ none
    ]
    else none

-- The statement for a comparison whose result is kept, given the literals of its operands; none is
-- the error exit.
unfoldable pub assign_comparison :
    Bool → Var → Predicate → Option Lit → Option Lit → Option (List Stmt)
unfolding get_exp bool_constraint havoc
assign_comparison hv lhs p l0 l1 = elim (do l ← l0; get_exp l) [
  | none ↦ some (havoc lhs hv)
  | some a ↦ elim (do l ← l1; get_exp l) [
    | none ↦ some (havoc lhs hv)
    | some b ↦ do c ← bool_constraint p a b; some (bool_assign_cst lhs c ∷ [])
  ]
]

-- The variable of a Boolean literal.
unfoldable pub bool_lhs : Lit → Option Var
unfolding is_bool_lit get_var
bool_lhs l = if is_bool_lit l then get_var l else none

module _ (vfac : VariableFactory) (params : CrabBuilderParams) where
  -- `I` is the value of the comparison.
  unfoldable pub cmp_inst_to_crab_bool :
      Value → Cmp Value → LitState → Option (List Stmt × LitState)
  unfolding normalize_cmp_inst assign_comparison bool_lhs
  cmp_inst_to_crab_bool I c st =
      let n = normalize_cmp_inst c in
      let (ref, st1) = get_lit vfac params I st in
      let (ref0, st2) = get_lit vfac params n.op0 st1 in
      let (ref1, st3) = get_lit vfac params n.op1 st2 in
      do
        l ← ref
        lhs ← bool_lhs l
        code ← assign_comparison params.include_useless_havoc lhs n.predicate ref0 ref1
        some (code, elim (do l ← ref0; get_exp l) [ none ↦ st2 | some a ↦ st3 ])

  unfoldable pub cmp_inst_to_crab_ptr : Cmp Value → Bool → LitState → Option PtrCst × LitState
  unfolding normalize_cmp_inst ptr_constraint is_ptr_lit
  cmp_inst_to_crab_ptr c negated st =
      let n = normalize_cmp_inst c in
      let (ref0, st1) = get_lit vfac params n.op0 st in
      let (ref1, st2) = get_lit vfac params n.op1 st1 in
      (
        do l0 ← ref0; l1 ← ref1; ptr_constraint n.predicate l0 l1 negated,
        elim ref0 [ none ↦ st1 | some l ↦ if is_ptr_lit l then st2 else st1 ],
      )

  unfoldable pub cmp_inst_to_crab_int : Cmp Value → Bool → LitState → Option LinCst × LitState
  unfolding normalize_cmp_inst int_constraint get_exp
  cmp_inst_to_crab_int c negated st =
      let n = normalize_cmp_inst c in
      let (ref0, st1) = get_lit vfac params n.op0 st in
      let (ref1, st2) = get_lit vfac params n.op1 st1 in
      (
        do
          l0 ← ref0
          l1 ← ref1
          a ← get_exp l0
          b ← get_exp l1
          int_constraint n.predicate a b negated,
        elim (do l ← ref0; get_exp l) [ none ↦ st1 | some a ↦ st2 ],
      )
