-- ===== src/Builder/Visit/Correct.antt =====
-- Comparisons of Booleans.
use crab_llvm.Prelude.{
  ◌≡◌, Bool, true, false, not, none, some, List, [], ◌∷◌, ◌++◌, bool_eq, refl, ◌∙◌, ==_refl,
}
use crab_llvm.CmpInst.{Predicate}
use crab_llvm.Llvm.{Value}
use crab_llvm.Utils.Types.{CrabBuilderParams}
use crab_llvm.Lit.{Var, Lit, VariableFactory, LitState, get_lit, mk_bool_var}
use crab_llvm.Crab.{Stmt, Env, set_bool, bool_at, bool_of, Meaning, continues, bool_assign_var}
use crab_llvm.Crab.Run.{exec, run, run-append}
use crab_llvm.Builder.Logic.{Opcode, logic_lhs}
use crab_llvm.Builder.Logic.Correct.{logic_result, do_bool_logic_op-computes}
use crab_llvm.Builder.Visit.{bool_comparison}

not-not : (b : Bool) → not (not b) ≡ b
not-not true = refl
not-not false = refl

module _ (vfac : VariableFactory) (params : CrabBuilderParams) (μ : Meaning) (env : Env) where
  -- Two Booleans with literals, compared for equality: the statements go on, put the difference in
  -- a new variable, and assign whether they are equal.
  bool_comparison-eq :
      (ref : Lit) (x : Var) (v0 v1 : Value) (l0 l1 : Lit) (a b : Bool) (st : LitState)
      → (get_lit vfac params v0 (mk_bool_var vfac params st).1).0 ≡ some l0
      → (get_lit vfac params v1 (get_lit vfac params v0 (mk_bool_var vfac params st).1).1).0
        ≡ some l1
      → bool_of env l0 ≡ some a
      → bool_of env l1 ≡ some b
      → (code : List Stmt) × (st' : LitState) × (bool_comparison vfac params Predicate.eq ref x v0
            v1 st
          ≡ some (code, st'))
        × (run μ code env
            ≡ continues (
                set_bool x.name
                  (bool_eq a b)
                  (set_bool (vfac.fresh_name st.fresh_count) (not (bool_eq a b)) env)))
  unfolding bool_comparison mk_bool_var
  bool_comparison-eq ref x v0 v1 l0 l1 a b st e0 e1 h0 h1 =
      let (code, f, g) =
        do_bool_logic_op-computes vfac params μ env Opcode.xor_op none v0 v1 st
          (mk_bool_var vfac params st).1 (mk_bool_var vfac params st).0 l0 l1 a b
          (not (bool_eq a b)) (unfold logic_lhs in refl) e0 e1 h0 h1
          (unfold logic_result in refl) in
      (
        code ++ (bool_assign_var x (mk_bool_var vfac params st).0 true ∷ []),
        (get_lit vfac params v1 (get_lit vfac params v0 (mk_bool_var vfac params st).1).1).1,
        rw f refl,
        run-append μ code _ env _ g
            ∙ (unfold run exec bool_at in
                rw (==_refl (vfac.fresh_name st.fresh_count), not-not (bool_eq a b)) refl),
      )
