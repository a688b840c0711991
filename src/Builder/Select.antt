-- ===== src/Builder/Select.antt =====
-- visitSelectInst of lib/Clam/CfgBuilder.cc.
pub mod Correct
pub mod Booleans
mod Tests
use crab_llvm.Prelude.{
  ℕ, Bool, true, false, Option, none, some, List, [], ◌∷◌, ◌==◌, if◌then◌else◌, ◌>>=◌,
}
use crab_llvm.CmpInst.{Cmp}
use crab_llvm.Llvm.{Value, type_of, as_constant_int}
use crab_llvm.Utils.Types.{CrabBuilderParams, is_tracked, is_bool, is_integer, is_pointer}
use crab_llvm.Lit.{
  Var, Lit, LinExp, bool_cst, bool_var, is_bool_lit, get_var, get_exp, VariableFactory, LitState,
  get_lit, mk_bool_var, mk_int_var,
}
use crab_llvm.Crab.{
  LinCst, cst_true, Cast, zero_extend, Stmt, bool_assign_cst, bool_assign_var, bool_select, assign,
  cast, select,
}
use crab_llvm.Builder.Compare.{havoc, cmp_inst_to_crab_int}
use crab_llvm.Builder.Logic.{truth}
use crab_llvm.Builder.Verifier.{at_least_one}

-- The assignment of a Boolean literal; none where it is no Boolean.
unfoldable pub assign_bool : Var → Lit → Option Stmt
unfolding truth
assign_bool lhs (bool_cst b) = some (bool_assign_cst lhs (truth b))
assign_bool lhs (bool_var x) = some (bool_assign_var lhs x false)
assign_bool lhs _ = none

-- A constant condition chooses; none is the error exit on one that is not 0 or 1.
unfoldable pub choose {ℓ} : {A : Type ℓ} → ℕ → A → A → Option A
choose bits x y = if bits == 1 then some x else if bits == 0 then some y else none

module _ (vfac : VariableFactory) (params : CrabBuilderParams) where
  -- The select of two Boolean literals under the variable `c`; a constant goes through a new
  -- variable. With two variables both operands of bool_select are the first.
  unfoldable pub bool_select_code : Var → Var → Lit → Lit → LitState → Option (List Stmt × LitState)
  unfolding truth mk_bool_var
  bool_select_code lhs c (bool_cst a) (bool_cst b) st =
      let (tt_v, st1) = mk_bool_var vfac params st in
      let (ff_v, st2) = mk_bool_var vfac params st1 in
      some (
        bool_assign_cst tt_v (truth a)
            ∷ bool_assign_cst ff_v (truth b)
            ∷ bool_select lhs c tt_v ff_v
            ∷ [],
        st2,
      )
  bool_select_code lhs c (bool_cst a) (bool_var y) st =
      let (tt_v, st1) = mk_bool_var vfac params st in
      some (bool_assign_cst tt_v (truth a) ∷ bool_select lhs c tt_v y ∷ [], st1)
  bool_select_code lhs c (bool_var x) (bool_cst b) st =
      let (ff_v, st1) = mk_bool_var vfac params st in
      some (bool_assign_cst ff_v (truth b) ∷ bool_select lhs c x ff_v ∷ [], st1)
  bool_select_code lhs c (bool_var x) (bool_var y) st = some (bool_select lhs c x x ∷ [], st)
  bool_select_code lhs c _ _ st = none

  -- `cond` is the condition, with its literal.
  unfoldable pub select_bool :
      Value → Var → Lit → Lit → Lit → LitState → Option (List Stmt × LitState)
  unfolding is_bool_lit choose assign_bool bool_select_code as_constant_int get_var havoc
  select_bool cond lhs c op1 op2 st =
      if is_bool_lit op1
      then (if is_bool_lit op2
          then elim (as_constant_int cond) [
            | some (w, bits) ↦ do l ← choose bits op1 op2; s ← assign_bool lhs l; some (s ∷ [], st)
            | none ↦ do x ← get_var c; bool_select_code lhs x op1 op2 st
          ]
          else some (havoc lhs params.include_useless_havoc, st))
      else some (havoc lhs params.include_useless_havoc, st)

  -- A condition that is a Boolean: its zext is compared with 1.
  unfoldable pub select_zext : Var → Var → LinExp → LinExp → LitState → List Stmt × LitState
  unfolding mk_int_var
  select_zext lhs c e1 e2 st =
      let (icond, st') = mk_int_var vfac params 8 st in
      (cast zero_extend c icond ∷ select lhs (at_least_one icond) e1 e2 ∷ [], st')

  -- `cmp` is the comparison that the condition is, if it is one.
  unfoldable pub select_int :
      Value → Option (Cmp Value) → Var → Lit → Lit → Lit → LitState → Option (List Stmt × LitState)
  unfolding get_exp choose as_constant_int get_var havoc cmp_inst_to_crab_int select_zext
  select_int cond cmp lhs c op1 op2 st = elim (get_exp op1) [
    | none ↦ some (havoc lhs params.include_useless_havoc, st)
    | some e1 ↦ elim (get_exp op2) [
      | none ↦ some (havoc lhs params.include_useless_havoc, st)
      | some e2 ↦ elim (as_constant_int cond) [
        | some (w, bits) ↦ do e ← choose bits e1 e2; some (assign lhs e ∷ [], st)
        | none ↦ do
          x ← get_var c
          elim cmp [
            | none ↦ some (select_zext lhs x e1 e2 st)
            | some i ↦
                let (cst, st') = cmp_inst_to_crab_int vfac params i false st in
                elim cst [
                  | some k ↦ some (select lhs k e1 e2 ∷ [], st')
                  | none ↦ some (select_zext lhs x e1 e2 st')
                ]
          ]
      ]
    ]
  ]

  -- The literals of the operands are asked for in this order.
  select_operands :
      Value
      → Value
      → Option (Cmp Value)
      → Value
      → Value
      → Var
      → LitState
      → Option (List Stmt × LitState)
  unfolding is_bool is_integer type_of select_bool select_int
  select_operands I cond cmp true_value false_value lhs st =
      let (rc, st2) = get_lit vfac params cond st in
      let (r1, st3) = get_lit vfac params true_value st2 in
      let (r2, st4) = get_lit vfac params false_value st3 in
      do
        c ← rc
        op1 ← r1
        op2 ← r2
        elim (is_bool (type_of I)) [
          | true ↦ select_bool cond lhs c op1 op2 st4
          | false ↦
              if is_integer (type_of I)
              then select_int cond cmp lhs c op1 op2 st4
              else some ([], st4)
        ]

  -- `I` is the select; none is a failed assertion or the error exit.
  unfoldable pub visit_select_inst :
      Value → Value → Option (Cmp Value) → Value → Value → LitState → Option (List Stmt × LitState)
  unfolding is_tracked is_pointer type_of get_var select_operands havoc
  visit_select_inst I cond cmp true_value false_value st =
      let (r, st1) = get_lit vfac params I st in
      let body = (do
        l ← r
        lhs ← get_var l
        elim (is_pointer (type_of I) params) [
          | true ↦ some (havoc lhs params.include_useless_havoc, st1)
          | false ↦ select_operands I cond cmp true_value false_value lhs st1
        ]) in
      if is_tracked I params then body else some ([], st)
