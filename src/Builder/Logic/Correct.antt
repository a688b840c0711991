-- ===== src/Builder/Logic/Correct.antt =====
-- About doBoolLogicOp.
use crab_llvm.Prelude.{
  ◌≡◌, Bool, true, not, ◌&&◌, ◌||◌, Option, none, some, List, bool_eq, arith, refl, ◌>>=◌,
}
use crab_llvm.Llvm.{Value}
use crab_llvm.Utils.Types.{CrabBuilderParams}
use crab_llvm.Lit.{Var, Lit, is_bool_lit, VariableFactory, LitState, get_lit}
use crab_llvm.Crab.{Stmt, Env, set_bool, Meaning, bool_of, apply_bool, continues}
use crab_llvm.Crab.Run.{holds, exec, run, run_result, run_result-some}
use crab_llvm.Builder.Logic.{Opcode, truth, bool_logic_code, logic_lhs, do_bool_logic_op}

-- The result of an operation that this translation covers.
unfoldable pub logic_result : Opcode → Bool → Bool → Option Bool
logic_result Opcode.and_op a b = some (a && b)
logic_result Opcode.or_op a b = some (a || b)
logic_result Opcode.xor_op a b = some (not (bool_eq a b))
logic_result _ a b = none

module _ (μ : Meaning) (env : Env) where
  code_computes :
      (hv : Bool) (op : Opcode) (lhs : Var) (l1 l2 : Lit) (a b r : Bool)
      → bool_of env l1 ≡ some a
      → bool_of env l2 ≡ some b
      → logic_result op a b ≡ some r
      → run_result μ (bool_logic_code hv op lhs l1 l2) env
        ≡ some (continues (set_bool lhs.name r env))
  unfolding bool_logic_code run exec holds truth bool_of apply_bool logic_result run_result
  code_computes hv Opcode.and_op lhs l1 l2 a b r h1 h2 h = ground arith
  code_computes hv Opcode.or_op lhs l1 l2 a b r h1 h2 h = ground arith
  code_computes hv Opcode.xor_op lhs l1 l2 a b r h1 h2 h = ground arith
  code_computes hv op lhs l1 l2 a b r h1 h2 h = ground arith

is_bool_lit-bool_of :
    (env : Env) (l : Lit) (b : Bool) → bool_of env l ≡ some b → is_bool_lit l ≡ true
unfolding bool_of is_bool_lit
is_bool_lit-bool_of env l b h = ground arith

module _ (vfac : VariableFactory) (params : CrabBuilderParams) (μ : Meaning) (env : Env) where
  -- And, Or and Xor of two values with Boolean literals, variables or constants, are translated to
  -- statements that go on and assign the result to the left-hand side, the literal's variable or,
  -- where there is no literal, a new one.
  pub do_bool_logic_op-computes :
      (op : Opcode) (ref : Option Lit) (v1 v2 : Value) (st st0 : LitState) (lhs : Var) (l1 l2 : Lit)
      (a b r : Bool)
      → logic_lhs vfac params ref st ≡ some (lhs, st0)
      → (get_lit vfac params v1 st0).0 ≡ some l1
      → (get_lit vfac params v2 (get_lit vfac params v1 st0).1).0 ≡ some l2
      → bool_of env l1 ≡ some a
      → bool_of env l2 ≡ some b
      → logic_result op a b ≡ some r
      → (code : List Stmt) × (do_bool_logic_op vfac params op ref v1 v2 st
          ≡ some (lhs, (code, (get_lit vfac params v2 (get_lit vfac params v1 st0).1).1)))
        × (run μ code env ≡ continues (set_bool lhs.name r env))
  unfolding do_bool_logic_op
  do_bool_logic_op-computes op ref v1 v2 st st0 lhs l1 l2 a b r e e1 e2 h1 h2 h =
      let (code, f, g) =
        run_result-some μ _ env _
          (code_computes μ env params.include_useless_havoc op lhs l1 l2 a b r h1 h2 h) in
      (
        code,
        rw (e, ◌>>=◌)
            (rw (e1, is_bool_lit-bool_of env l1 a h1)
              (rw (e2, is_bool_lit-bool_of env l2 b h2) (rw f refl))),
        g,
      )
