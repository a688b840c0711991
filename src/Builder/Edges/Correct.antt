-- ===== src/Builder/Edges/Correct.antt =====
-- What the block for a conditional edge lets through.
use crab_llvm.Prelude.{
  ℕ, ◌≡◌, inl, inr, refl, ap, ◌∙◌, Bool, true, false, not, ◌&&◌, some, List, [], ◌∷◌, if◌then◌else◌,
  Bool-cases,
}
use crab_llvm.CmpInst.{Cmp, compares}
use crab_llvm.Llvm.{Value, type_of}
use crab_llvm.Utils.Types.{CrabBuilderParams, is_bool, is_integer}
use crab_llvm.Lit.{Lit, Var, bool_var, get_var, is_bool_lit, VariableFactory, LitState, get_lit}
use crab_llvm.Crab.{
  Stmt, LinCst, assume, bool_assume, bool_not_assume, unreachable, Env, bool_at, Meaning, Outcome,
  continues, blocked,
}
use crab_llvm.Crab.Run.{holds, exec, run}
use crab_llvm.Builder.Compare.{cmp_inst_to_crab_int}
use crab_llvm.Builder.Compare.Correct.{
  is_signed, negate_if, IsComparison, cmp_inst_to_crab_int-holds,
}
use crab_llvm.Builder.Edges.{
  Condition, constant, comparison, other_value, lin_assume, literal_assume, comparison_assume,
  bool_code, edge_code,
}

module _ (vfac : VariableFactory) (params : CrabBuilderParams) (μ : Meaning) (k : ℕ)
    (bits : Value → ℕ) (env : Env) where
  -- The truth of a condition, in a state in which its edge is translated: constants of one bit,
  -- Boolean variables, and comparisons of integers by a predicate that is not an unsigned one. If
  -- such a comparison has two uses or more, its Boolean variable has its value.
  pub data HasTruth (st : LitState) : Condition → Bool → Type 0 where
    is_one : HasTruth st (constant 1) true
    is_zero : HasTruth st (constant 0) false
    variable :
        (v : Value) (x : Var)
        → (get_lit vfac params v st).0 ≡ some (bool_var x)
        → HasTruth st (other_value v) (bool_at env x.name)
    compared :
        (v : Value) (c : Cmp Value) (l0 l1 : Lit)
        → is_bool (type_of c.op0) ≡ false
        → is_integer (type_of c.op0) && is_integer (type_of c.op1) ≡ true
        → IsComparison vfac params k bits env c st l0 l1
        → is_signed c.predicate ≡ true
        → HasTruth st (comparison v c false) (compares k c.predicate (bits c.op0) (bits c.op1))
    compared_and_kept :
        (v : Value) (c : Cmp Value) (l0 l1 : Lit) (x : Var)
        → is_bool (type_of c.op0) ≡ false
        → is_integer (type_of c.op0) && is_integer (type_of c.op1) ≡ true
        → IsComparison vfac params k bits env c st l0 l1
        → is_signed c.predicate ≡ true
        → ((second : Bool)
            → (get_lit vfac params v (cmp_inst_to_crab_int vfac params c second st).1).0
              ≡ some (bool_var x))
        → bool_at env x.name ≡ compares k c.predicate (bits c.op0) (bits c.op1)
        → HasTruth st (comparison v c true) (compares k c.predicate (bits c.op0) (bits c.op1))

  -- The outcome of an assumption.
  passes : Bool → Outcome
  passes b = if b then continues env else blocked

  -- A statement that goes on in the same state or blocks.
  run_first :
      (s : Stmt) (rest : List Stmt) (b : Bool)
      → exec μ s env ≡ passes b
      → run μ (s ∷ rest) env ≡ (if b then run μ rest env else blocked)
  unfolding run passes
  run_first s rest true h = rw (run, h) refl
  run_first s rest false h = rw (run, h) refl

  run_last : (s : Stmt) (b : Bool) → exec μ s env ≡ passes b → run μ (s ∷ []) env ≡ passes b
  unfolding passes
  run_last s b h = run_first s [] b h ∙ unfold run in refl

  exec-bool_assume : (x : Var) → exec μ (bool_assume x) env ≡ passes (bool_at env x.name)
  unfolding exec passes
  exec-bool_assume x = refl

  exec-bool_not_assume :
      (x : Var) → exec μ (bool_not_assume x) env ≡ passes (not (bool_at env x.name))
  unfolding exec passes
  exec-bool_not_assume x = elim (Bool-cases (bool_at env x.name)) [
    | inl e ↦ rw (exec, e) refl
    | inr e ↦ rw (exec, e) refl
  ]

  exec-assume : (c : LinCst) → exec μ (assume c) env ≡ passes (holds μ env c)
  unfolding exec passes
  exec-assume c = refl

  bool_code_lem :
      (second : Bool) (v : Value) (st : LitState) (x : Var)
      → (get_lit vfac params v st).0 ≡ some (bool_var x)
      → (code : List Stmt) × (st' : LitState) × (bool_code vfac params second v st
          ≡ some (code, st'))
        × (run μ code env ≡ passes (negate_if second (bool_at env x.name)))
  unfolding bool_code literal_assume get_var is_bool_lit
  bool_code_lem true v st x h = (
    bool_not_assume x ∷ [],
    (get_lit vfac params v st).1,
    rw h refl,
    run_last (bool_not_assume x) _ (exec-bool_not_assume x),
  )
  bool_code_lem false v st x h = (
    bool_assume x ∷ [],
    (get_lit vfac params v st).1,
    rw h refl,
    run_last (bool_assume x) _ (exec-bool_assume x),
  )

  comparison_assume_lem :
      (second : Bool) (c : Cmp Value) (st : LitState) (l0 l1 : Lit)
      → is_bool (type_of c.op0) ≡ false
      → is_integer (type_of c.op0) && is_integer (type_of c.op1) ≡ true
      → IsComparison vfac params k bits env c st l0 l1
      → is_signed c.predicate ≡ true
      → (cst : LinCst) × (comparison_assume vfac params second c st
          ≡ (assume cst ∷ [], (cmp_inst_to_crab_int vfac params c second st).1, false))
        × (holds μ env cst ≡ negate_if second (compares k c.predicate (bits c.op0) (bits c.op1)))
  unfolding comparison_assume lin_assume
  comparison_assume_lem second c st l0 l1 not_bool integers is_cmp signed =
      let (cst, e, truth) =
        cmp_inst_to_crab_int-holds vfac params μ k bits env c st l0 l1 second is_cmp in
      (cst, rw (not_bool, integers) (rw e refl), truth signed)

  passes_twice : (b : Bool) → (if b then passes b else blocked) ≡ passes b
  unfolding passes
  passes_twice true = refl
  passes_twice false = refl

  -- The block for an edge of a conditional branch with two different successors, where the
  -- condition is the constant 0 or 1 of type i1, a Boolean variable, or a comparison of integers
  -- whose predicate is not an unsigned one: its statements are found, and a run of them ends in the
  -- state that it began in if the condition's truth leads to this edge, and is blocked if it does
  -- not.
  pub edge_code-follows :
      (cond : Condition) (st : LitState) (truth : Bool) (second : Bool)
      → HasTruth st cond truth
      → (code : List Stmt) × (st' : LitState) × (edge_code vfac params cond (not second) second st
          ≡ some (code, st'))
        × (run μ code env ≡ (if negate_if second truth then continues env else blocked))
  unfolding edge_code passes
  edge_code-follows cond st truth false is_one = ([], st, refl, unfold run in refl)
  edge_code-follows cond st truth true is_one =
      (unreachable ∷ [], st, refl, unfold run exec in refl)
  edge_code-follows cond st truth false is_zero =
      (unreachable ∷ [], st, refl, unfold run exec in refl)
  edge_code-follows cond st truth true is_zero = ([], st, refl, unfold run in refl)
  edge_code-follows cond st truth second (variable v x h) = bool_code_lem second v st x h
  edge_code-follows cond st truth second (compared v c l0 l1 not_bool integers is_cmp signed) =
      let (cst, e, holds_cst) =
        comparison_assume_lem second c st l0 l1 not_bool integers is_cmp signed in
      (
        assume cst ∷ [],
        (cmp_inst_to_crab_int vfac params c second st).1,
        rw e refl,
        run_last (assume cst) _ (exec-assume cst) ∙ ap passes holds_cst,
      )
  edge_code-follows cond st truth second
        (compared_and_kept v c l0 l1 x not_bool integers is_cmp signed lit same) =
      let (cst, e, holds_cst) =
        comparison_assume_lem second c st l0 l1 not_bool integers is_cmp signed in
      let (more, st', e', runs) =
        bool_code_lem second v (cmp_inst_to_crab_int vfac params c second st).1 x (lit second) in
      (
        assume cst ∷ more,
        st',
        rw e (rw e' refl),
        run_first (assume cst) more _ (exec-assume cst)
            ∙ ap (λ o. if holds μ env cst then o else blocked) runs
            ∙ ap (λ h. if h then passes (negate_if second (bool_at env x.name)) else blocked)
                holds_cst
            ∙ ap
                (λ a.
                  if negate_if second (compares k c.predicate (bits c.op0) (bits c.op1))
                  then passes (negate_if second a)
                  else blocked)
                same
            ∙ passes_twice (negate_if second (compares k c.predicate (bits c.op0) (bits c.op1))),
      )
