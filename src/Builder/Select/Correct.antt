-- ===== src/Builder/Select/Correct.antt =====
-- Selects of integers.
use crab_llvm.Prelude.{
  ℕ, ◌≡◌, ◌≢◌, inl, inr, Bool, true, false, Option, none, some, List, [], ◌∷◌, if◌then◌else◌, refl,
  ==_refl, ne→test, Option-cases, sym, ap, ◌∙◌, some_inj,
}
use crab_llvm.Prelude.Int.{ℤ, pos, ◌+ℤ◌}
use crab_llvm.CmpInst.{Cmp, compares}
use crab_llvm.Llvm.{Value, as_constant_int}
use crab_llvm.Utils.Types.{CrabBuilderParams}
use crab_llvm.Lit.{
  Var, bool_type, Lit, LinExp, bool_var, get_var, get_exp, VariableFactory, LitState,
}
use crab_llvm.Crab.{
  LinCst, zero_extend, Stmt, assign, Env, set_int, bool_at, int_at, exp_at, int_of, related,
  Meaning, continues, select,
}
use crab_llvm.Crab.Run.{holds, exec, run, cast_var}
use crab_llvm.Builder.Compare.{cmp_inst_to_crab_int}
use crab_llvm.Builder.Compare.Correct.{
  is_signed, IsComparison, get_exp_of, cmp_inst_to_crab_int-holds,
}
use crab_llvm.Builder.Arithmetic.Computes.{Computes}
use crab_llvm.Builder.Verifier.{at_least_one}
use crab_llvm.Builder.Select.{choose, select_zext, select_int}

-- An assignment to a variable that an expression does not read.
exp_at-set_int :
    (env : Env) (x : ℕ) (n : ℤ) (e : LinExp)
    → ((z : Var) → e.variable ≡ some z → x ≢ z.name)
    → exp_at (set_int x n env) e ≡ exp_at env e
unfolding exp_at int_at
exp_at-set_int env x n e new = elim (Option-cases e.variable) [
  | inl h ↦ rw h refl
  | inr (z, h) ↦ rw h (rw (ne→test x z.name (new z h)) refl)
]

module _ (vfac : VariableFactory) (params : CrabBuilderParams) (μ : Meaning) (env : Env) where
  zext_holds :
      (t : Var) (b : Bool)
      → holds μ (set_int t.name (if b then pos 1 else pos 0) env) (at_least_one t) ≡ b
  unfolding holds related exp_at int_at
  zext_holds t true = rw (==_refl t.name) (unfold ◌+ℤ◌ in refl)
  zext_holds t false = rw (==_refl t.name) (unfold ◌+ℤ◌ in refl)

  pub select_zext-chooses :
      (lhs c : Var) (e1 e2 : LinExp) (st : LitState)
      → ((b : Bool) → μ.cast_from_bool zero_extend b ≡ (if b then pos 1 else pos 0))
      → c.var_type ≡ bool_type
      → ((z : Var) → e1.variable ≡ some z → vfac.fresh_name st.fresh_count ≢ z.name)
      → ((z : Var) → e2.variable ≡ some z → vfac.fresh_name st.fresh_count ≢ z.name)
      → run μ (select_zext vfac params lhs c e1 e2 st).0 env
        ≡ continues (
            set_int lhs.name (if bool_at env c.name then exp_at env e1 else exp_at env e2) (
              set_int
                (vfac.fresh_name st.fresh_count)
                (if bool_at env c.name then pos 1 else pos 0)
                env))
  unfolding select_zext run exec cast_var
  select_zext-chooses lhs c e1 e2 st zext is_bool new1 new2 =
      rw (is_bool, zext (bool_at env c.name))
        (rw
          (
            zext_holds _ (bool_at env c.name),
            exp_at-set_int env _ _ e1 new1,
            exp_at-set_int env _ _ e2 new2,
          )
          refl)

-- What a condition is, and its truth: a constant 0 or 1, a Boolean variable that is no comparison, or
-- a comparison of integers whose predicate is not an unsigned one.
pub data IntCondition (vfac : VariableFactory) (params : CrabBuilderParams) (k : ℕ)
    (bits : Value → ℕ) (env : Env) (st : LitState) (cond : Value) (c : Lit)
    : Option (Cmp Value) → Bool → Type 0 where
  is_one :
      (cmp : Option (Cmp Value)) (w : ℕ)
      → as_constant_int cond ≡ some (w, 1)
      → IntCondition vfac params k bits env st cond c cmp true
  is_zero :
      (cmp : Option (Cmp Value)) (w : ℕ)
      → as_constant_int cond ≡ some (w, 0)
      → IntCondition vfac params k bits env st cond c cmp false
  variable :
      (x : Var)
      → as_constant_int cond ≡ none
      → c ≡ bool_var x
      → x.var_type ≡ bool_type
      → IntCondition vfac params k bits env st cond c none (bool_at env x.name)
  compared :
      (x : Var) (i : Cmp Value) (l0 l1 : Lit)
      → as_constant_int cond ≡ none
      → c ≡ bool_var x
      → IsComparison vfac params k bits env i st l0 l1
      → is_signed i.predicate ≡ true
      → IntCondition vfac params k bits env st cond c
          (some i)
          (compares k i.predicate (bits i.op0) (bits i.op1))

module _ (vfac : VariableFactory) (params : CrabBuilderParams) (μ : Meaning) (env : Env) where
  exp_value :
      (l : Lit) (e : LinExp) (n : ℤ) → get_exp l ≡ some e → int_of env l ≡ some n → exp_at env e ≡ n
  exp_value l e n g h =
      let (x, g', v) = get_exp_of env l n h in ap (exp_at env) (some_inj e x (sym g ∙ g')) ∙ v

  assigned-Computes :
      (lhs : Var) (r : ℤ) (code : List Stmt)
      → run μ code env ≡ continues (set_int lhs.name r env)
      → Computes vfac μ env lhs r code
  unfolding int_at
  assigned-Computes lhs r code h = record {
    after = set_int lhs.name r env;
    goes_on = h;
    result = rw (==_refl lhs.name) refl;
    kept = λ x ne new. rw (ne→test lhs.name x (λ e. ne (sym e))) refl;
  }

  run-assign :
      (lhs : Var) (e : LinExp) (r : ℤ)
      → exp_at env e ≡ r
      → run μ (assign lhs e ∷ []) env ≡ continues (set_int lhs.name r env)
  unfolding run exec
  run-assign lhs e r h = ap (λ n. continues (set_int lhs.name n env)) h

  run-select :
      (lhs : Var) (cst : LinCst) (e1 e2 : LinExp) (t : Bool) (a b : ℤ)
      → holds μ env cst ≡ t
      → exp_at env e1 ≡ a
      → exp_at env e2 ≡ b
      → run μ (select lhs cst e1 e2 ∷ []) env
        ≡ continues (set_int lhs.name (if t then a else b) env)
  unfolding run exec
  run-select lhs cst e1 e2 t a b h h1 h2 = rw (h, h1, h2) refl

  -- The zext of a Boolean, and the select by it.
  zext-Computes :
      (lhs x : Var) (e1 e2 : LinExp) (a b : ℤ) (st : LitState)
      → ((v : Bool) → μ.cast_from_bool zero_extend v ≡ (if v then pos 1 else pos 0))
      → x.var_type ≡ bool_type
      → ((z : Var) → e1.variable ≡ some z → vfac.fresh_name st.fresh_count ≢ z.name)
      → ((z : Var) → e2.variable ≡ some z → vfac.fresh_name st.fresh_count ≢ z.name)
      → exp_at env e1 ≡ a
      → exp_at env e2 ≡ b
      → Computes vfac μ env lhs
          (if bool_at env x.name then a else b)
          (select_zext vfac params lhs x e1 e2 st).0
  unfolding int_at
  zext-Computes lhs x e1 e2 a b st zext is_bool new1 new2 h1 h2 = record {
    after = set_int lhs.name (if bool_at env x.name then exp_at env e1 else exp_at env e2) (
        set_int (vfac.fresh_name st.fresh_count) (if bool_at env x.name then pos 1 else pos 0) env);
    goes_on = select_zext-chooses vfac params μ env lhs x e1 e2 st zext is_bool new1 new2;
    result = rw (==_refl lhs.name, h1, h2) refl;
    kept = λ z ne new.
        rw
          (
            ne→test lhs.name z (λ e. ne (sym e)),
            ne→test (vfac.fresh_name st.fresh_count) z (λ e. new _ (sym e)),
          )
          refl;
  }

  -- A select of two integer literals, where the zext of a Boolean is 1 or 0 and the operands do not
  -- have the next fresh variable: under a constant 0 or 1, under a comparison of integers whose
  -- predicate is not an unsigned one, and under a Boolean variable that is no comparison, the
  -- statements go on, assign the first operand if the condition is true and the second otherwise,
  -- and change no other integer variable but fresh ones.
  pub select_int-chooses :
      (k : ℕ) (bits : Value → ℕ) (cond : Value) (cmp : Option (Cmp Value)) (lhs : Var)
      (c l1 l2 : Lit) (e1 e2 : LinExp) (a b : ℤ) (truth : Bool) (st : LitState)
      → ((v : Bool) → μ.cast_from_bool zero_extend v ≡ (if v then pos 1 else pos 0))
      → IntCondition vfac params k bits env st cond c cmp truth
      → get_exp l1 ≡ some e1
      → get_exp l2 ≡ some e2
      → int_of env l1 ≡ some a
      → int_of env l2 ≡ some b
      → ((z : Var) → e1.variable ≡ some z → vfac.fresh_name st.fresh_count ≢ z.name)
      → ((z : Var) → e2.variable ≡ some z → vfac.fresh_name st.fresh_count ≢ z.name)
      → (code : List Stmt) × (st' : LitState) × (select_int vfac params cond cmp lhs c l1 l2 st
          ≡ some (code, st'))
        × Computes vfac μ env lhs (if truth then a else b) code
  unfolding select_int choose get_var
  select_int-chooses k bits cond cmp lhs c l1 l2 e1 e2 a b truth st zext (is_one m w h) g1 g2 h1 h2
        new1 new2 =
      (
        assign lhs e1 ∷ [],
        st,
        rw (g1, select_int) (rw (g2, select_int) (rw h refl)),
        assigned-Computes lhs a _ (run-assign lhs e1 a (exp_value l1 e1 a g1 h1)),
      )
  select_int-chooses k bits cond cmp lhs c l1 l2 e1 e2 a b truth st zext (is_zero m w h) g1 g2 h1 h2
        new1 new2 =
      (
        assign lhs e2 ∷ [],
        st,
        rw (g1, select_int) (rw (g2, select_int) (rw h refl)),
        assigned-Computes lhs b _ (run-assign lhs e2 b (exp_value l2 e2 b g2 h2)),
      )
  select_int-chooses k bits cond cmp lhs c l1 l2 e1 e2 a b truth st zext (variable x h f is_bool) g1
        g2 h1 h2 new1 new2 =
      (
        (select_zext vfac params lhs x e1 e2 st).0,
        (select_zext vfac params lhs x e1 e2 st).1,
        rw (g1, select_int) (rw (g2, select_int) (rw (h, f) refl)),
        zext-Computes lhs x e1 e2 a b st zext is_bool new1 new2 (exp_value l1 e1 a g1 h1)
            (exp_value l2 e2 b g2 h2),
      )
  select_int-chooses k bits cond cmp lhs c l1 l2 e1 e2 a b truth st zext
        (compared x i m0 m1 h f is_cmp signed) g1 g2 h1 h2 new1 new2 =
      let (cst, e, holds_cst) =
        cmp_inst_to_crab_int-holds vfac params μ k bits env i st m0 m1 false is_cmp in
      (
        select lhs cst e1 e2 ∷ [],
        (cmp_inst_to_crab_int vfac params i false st).1,
        rw (g1, select_int) (rw (g2, select_int) (rw (h, f) (rw e refl))),
        assigned-Computes lhs _ _ (
            run-select lhs cst e1 e2 _ a b (holds_cst signed) (exp_value l1 e1 a g1 h1)
              (exp_value l2 e2 b g2 h2)),
      )
