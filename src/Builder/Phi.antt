-- ===== src/Builder/Phi.antt =====
-- CrabPhiVisitor::visitBasicBlock of lib/Clam/CfgBuilder.cc, where there is no ShadowMem: the PHI
-- nodes of a block, for one predecessor.
pub mod Values
pub mod Olds
pub mod Save
pub mod Loop
pub mod Assign
pub mod Moves
pub mod Correct
mod Tests
use crab_llvm.Prelude.{
  Bool, true, false, not, ◌&&◌, ◌||◌, Option, none, some, List, [], ◌∷◌, ◌++◌, if◌then◌else◌, ◌>>=◌,
}
use crab_llvm.Llvm.{Value, Value-discrete, type_of, width_of}
use crab_llvm.Utils.Types.{CrabBuilderParams, is_tracked, is_bool, is_integer_ty, is_pointer}
use crab_llvm.Lit.{
  Lit, bool_cst, bool_var, int_cst, int_var, ptr_null, ptr_var, Var, exp_var, exp_cst, get_var,
  is_bool_lit, is_int_lit, VariableFactory, LitState, get_lit, mk_bool_var, mk_int_var, mk_ptr_var,
}
use crab_llvm.Crab.{
  Stmt, havoc_stmt, bool_assign_cst, bool_assign_var, assign, ptr_null_stmt, ptr_assign,
}
use crab_llvm.Builder.Logic.{truth}

-- A PHI node, its incoming value for the predecessor, and whether its name starts with
-- "shadow.mem".
pub record PhiNode : Type 0 where
  pub node : Value
  pub incoming : Value
  pub shadow_name : Bool

-- Whether a value is a PHI node of the block.
unfoldable pub is_phi_of : Value → List PhiNode → Bool
unfolding Value-discrete
is_phi_of v [] = false
is_phi_of v (p ∷ block) = elim (Value-discrete p.node v) [ yes e ↦ true | no d ↦ is_phi_of v block ]

-- old_val_map.find
unfoldable pub find_old : Value → List (Value × Var) → Option Var
unfolding Value-discrete
find_old v [] = none
find_old v ((u, y) ∷ rest) = elim (Value-discrete u v) [ yes e ↦ some y | no d ↦ find_old v rest ]

-- The assignment of a literal to a variable.
unfoldable pub assign_lit : Var → Lit → List Stmt
unfolding truth
assign_lit x (bool_cst b) = bool_assign_cst x (truth b) ∷ []
assign_lit x (bool_var y) = bool_assign_var x y false ∷ []
assign_lit x (int_cst n) = assign x (exp_cst n) ∷ []
assign_lit x (int_var y) = assign x (exp_var y) ∷ []
assign_lit x ptr_null = ptr_null_stmt x ∷ []
assign_lit x (ptr_var y) = ptr_assign x y ∷ []

module _ (vfac : VariableFactory) (params : CrabBuilderParams) where
  -- The new variable for the old version of a value with the literal.
  unfoldable pub old_var : Value → Lit → LitState → Var × LitState
  unfolding is_bool_lit is_int_lit mk_bool_var mk_int_var mk_ptr_var width_of type_of
  old_var v l st =
      if is_bool_lit l
      then mk_bool_var vfac params st
      else if is_int_lit l
      then mk_int_var vfac params (width_of (type_of v)) st
      else mk_ptr_var vfac params st

  -- The old version of a PHI node `v` that has a literal.
  unfoldable pub save_lit :
      Value → Lit → List (Value × Var) → LitState → List Stmt × List (Value × Var) × LitState
  unfolding old_var assign_lit
  save_lit v l olds st = let (y, st') = old_var v l st in (assign_lit y l, (v, y) ∷ olds, st')

  unfoldable pub is_absent : Value → List (Value × Var) → Bool
  unfolding find_old
  is_absent v olds = elim (find_old v olds) [ none ↦ true | some y ↦ false ]

  -- One round of the first loop.
  unfoldable pub save_old :
      List PhiNode
      → PhiNode
      → List (Value × Var)
      → LitState
      → List Stmt × List (Value × Var) × LitState
  unfolding is_tracked is_phi_of is_absent save_lit
  save_old block p olds st =
      let (ref, st') = get_lit vfac params p.incoming st in
      let saved : List Stmt × List (Value × Var) × LitState = elim ref [
        | none ↦ ([], olds, st')
        | some l ↦ if p.shadow_name then ([], olds, st') else save_lit p.incoming l olds st'
      ] in
      if is_tracked p.incoming params && is_phi_of p.incoming block && is_absent p.incoming olds
      then saved
      else ([], olds, st)

  unfoldable pub save_olds :
      List PhiNode
      → List PhiNode
      → List (Value × Var)
      → LitState
      → List Stmt × List (Value × Var) × LitState
  unfolding save_old
  save_olds block [] olds st = ([], olds, st)
  save_olds block (p ∷ ps) olds st =
      let (code, olds', st') = save_old block p olds st in
      let (more, olds'', st'') = save_olds block ps olds' st' in (code ++ more, olds'', st'')

  -- The assignment of an old version, by the type of the PHI node.
  unfoldable pub assign_old : Value → Var → Var → List Stmt
  unfolding is_bool is_integer_ty is_pointer type_of
  assign_old node x y =
      if is_bool (type_of node)
      then bool_assign_var x y false ∷ []
      else if is_integer_ty (type_of node)
      then assign x (exp_var y) ∷ []
      else if is_pointer (type_of node) params
      then ptr_assign x y ∷ []
      else []

  -- The assignment of the incoming value; a value without a literal is havocked.
  unfoldable pub assign_incoming : Var → Value → LitState → List Stmt × LitState
  unfolding assign_lit
  assign_incoming x v st =
      let (ref, st') = get_lit vfac params v st in
      elim ref [ none ↦ (havoc_stmt x ∷ [], st') | some l ↦ (assign_lit x l, st') ]

  -- One round of the second loop; none is the error exit.
  unfoldable pub assign_phi :
      List (Value × Var) → PhiNode → LitState → Option (List Stmt × LitState)
  unfolding is_tracked get_var find_old assign_old assign_incoming
  assign_phi olds p st =
      let (ref, st') = get_lit vfac params p.node st in
      let body : Option (List Stmt × LitState) = (do
        l ← ref
        x ← get_var l
        some (elim (find_old p.incoming olds) [
          | some y ↦ (assign_old p.node x y, st')
          | none ↦ assign_incoming x p.incoming st'
        ])) in
      if not (is_tracked p.node params) || p.shadow_name then some ([], st) else body

  unfoldable pub assign_phis :
      List (Value × Var) → List PhiNode → LitState → Option (List Stmt × LitState)
  unfolding assign_phi
  assign_phis olds [] st = some ([], st)
  assign_phis olds (p ∷ ps) st = do
    (code, st') ← assign_phi olds p st
    (more, st'') ← assign_phis olds ps st'
    some (code ++ more, st'')

  unfoldable pub visit_phis : List PhiNode → LitState → Option (List Stmt × LitState)
  unfolding save_olds assign_phis
  visit_phis block st =
      let (code, olds, st') = save_olds block block [] st in
      do (more, st'') ← assign_phis olds block st'; some (code ++ more, st'')
