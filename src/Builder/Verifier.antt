-- ===== src/Builder/Verifier.antt =====
-- doVerifierCall of lib/Clam/CfgBuilder.cc: calls of the verifier's functions.
pub mod Correct
use Prim.Native.String.{String}
use crab_llvm.Prelude.{
  ℕ, Bool, true, false, not, ◌&&◌, ◌||◌, Option, none, some, List, [], ◌∷◌, if◌then◌else◌, ◌>>=◌,
}
use crab_llvm.Prelude.Int.{ℤ, pos, ltb_ℤ}
use crab_llvm.Llvm.{Value, as_constant_int}
use crab_llvm.Utils.Types.{CrabBuilderParams, is_tracked}
use crab_llvm.Utils.Numbers.{get_int_constant}
use crab_llvm.Utils.Names.{
  is_error_fn, is_sea_horn_fail, is_assert_fn, is_assume_fn, is_not_assume_fn,
}
use crab_llvm.Lit.{
  Var, Lit, bool_cst, bool_var, int_cst, int_var, ptr_null, ptr_var, get_var, exp_var, exp_cst,
  VariableFactory, LitState, get_lit,
}
use crab_llvm.Crab.{
  LinCst, lin_cst, cst_false, Relation, Stmt, assume, assertion, bool_assume, bool_not_assume,
  bool_assert,
}

-- v <= 0 and v >= 1.
abbrev pub at_most_zero : Var → LinCst
at_most_zero v = lin_cst false Relation.at_most (exp_var v) (exp_cst (pos 0))

abbrev pub at_least_one : Var → LinCst
at_least_one v = lin_cst false Relation.at_most (exp_cst (pos 1)) (exp_var v)

-- The statements for a constant condition.
unfoldable pub constant_call : String → ℤ × Bool → List Stmt
unfolding is_assert_fn is_assume_fn is_not_assume_fn
constant_call callee (n, true) = []
constant_call callee (n, false) =
    if ltb_ℤ (pos 0) n
    then (if is_assert_fn callee || is_assume_fn callee then [] else assume cst_false ∷ [])
    else if is_not_assume_fn callee
    then []
    else if is_assume_fn callee
    then assume cst_false ∷ []
    else assertion cst_false ∷ []

-- For a Boolean variable, and for an integer variable.
unfoldable pub bool_call : String → Var → Stmt
unfolding is_assume_fn is_not_assume_fn
bool_call callee v =
    if is_not_assume_fn callee
    then bool_not_assume v
    else if is_assume_fn callee
    then bool_assume v
    else bool_assert v

unfoldable pub int_call : String → Var → Stmt
unfolding is_assume_fn is_not_assume_fn
int_call callee v =
    if is_not_assume_fn callee
    then assume (at_most_zero v)
    else if is_assume_fn callee
    then assume (at_least_one v)
    else assertion (at_least_one v)

module _ (vfac : VariableFactory) (params : CrabBuilderParams) where
  -- A condition that is a variable; `source` is the operand where the condition is the zext of a
  -- Boolean.
  unfoldable pub variable_call :
      String → Lit → Option Value → LitState → Option (List Stmt × LitState)
  unfolding bool_call int_call get_var
  variable_call callee (bool_var v) source st = some (bool_call callee v ∷ [], st)
  variable_call callee (int_var v) none st = some (int_call callee v ∷ [], st)
  variable_call callee (int_var v) (some u) st =
      let (r, st') = get_lit vfac params u st in
      do l ← r; x ← get_var l; some (bool_call callee x ∷ [], st')
  variable_call callee (ptr_var v) source st = some ([], st)
  variable_call callee _ source st = none

  unfoldable pub condition_call :
      String → Value → Option Value → LitState → Option (List Stmt × LitState)
  unfolding is_tracked constant_call get_int_constant variable_call as_constant_int
  condition_call callee cond source st =
      if is_tracked cond params
      then elim (as_constant_int cond) [
        | some (w, bits) ↦ some (constant_call callee (get_int_constant w bits params), st)
        | none ↦
            let (r, st') = get_lit vfac params cond st in
            do l ← r; variable_call callee l source st'
      ]
      else some ([], st)

  -- The called function's name, if it is known; `has_fail` is m_has_seahorn_fail, and none is a
  -- failed assertion.
  unfoldable pub do_verifier_call :
      Option String
      → Value
      → Option Value
      → Bool
      → LitState
      → Option (List Stmt × (Bool × LitState))
  unfolding is_error_fn is_sea_horn_fail is_assert_fn is_assume_fn is_not_assume_fn condition_call
  do_verifier_call none cond source has_fail st = some ([], (has_fail, st))
  do_verifier_call (some callee) cond source has_fail st =
      if is_error_fn callee
      then some (assertion cst_false ∷ [], (has_fail, st))
      else if is_sea_horn_fail callee
      then some ([], (true, st))
      else if not (is_assert_fn callee || (is_assume_fn callee || is_not_assume_fn callee))
      then some ([], (has_fail, st))
      else (do (code, st') ← condition_call callee cond source st; some (code, (has_fail, st')))
