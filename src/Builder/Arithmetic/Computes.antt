-- ===== src/Builder/Arithmetic/Computes.antt =====
-- What the statements of an integer operation compute.
use crab_llvm.Prelude.{ℕ, ◌≡◌, ◌≢◌, some, List, [], ◌∷◌, arith, refl, ◌∙◌, sym, ==_refl, ne→test}
use crab_llvm.Prelude.Int.{ℤ}
use crab_llvm.Lit.{Var, Lit, get_exp, exp_cst, int_cst, int_var, LinExp, VariableFactory}
use crab_llvm.Crab.{
  BinOp, Operand, var_operand, Stmt, assign, apply, Env, set_int, int_at, exp_at, Meaning, int_of,
  continues,
}
use crab_llvm.Crab.Run.{exec, run, operand_at}

-- The statements go on, assign `r` to `lhs`, and change no other integer variable but fresh ones.
pub record Computes (vfac : VariableFactory) (μ : Meaning) (env : Env) (lhs : Var) (r : ℤ)
    (code : List Stmt) : Type 0 where
  pub after : Env
  pub goes_on : run μ code env ≡ continues after
  pub result : int_at after lhs.name ≡ r
  pub kept :
      (x : ℕ) → x ≢ lhs.name → ((n : ℕ) → x ≢ vfac.fresh_name n) → int_at after x ≡ int_at env x

module _ (vfac : VariableFactory) (μ : Meaning) (env : Env) (lhs : Var) (o : BinOp) where
  pub direct-Computes :
      (x : Var) (z : Operand)
      → Computes vfac μ env lhs
          (μ.compute o (int_at env x.name) (operand_at env z))
          (apply o lhs x z ∷ [])
  unfolding run exec int_at
  direct-Computes x z = record {
    after = set_int lhs.name (μ.compute o (int_at env x.name) (operand_at env z)) env;
    goes_on = refl;
    result = rw (==_refl lhs.name) refl;
    kept = λ y ne new. rw (ne→test lhs.name y (λ e. ne (sym e))) refl;
  }

  pub first-Computes :
      (n : ℤ) (c : ℕ) (t : Var) (y : Var)
      → t.name ≡ vfac.fresh_name c
      → t.name ≢ y.name
      → Computes vfac μ env lhs
          (μ.compute o n (int_at env y.name))
          (assign t (exp_cst n) ∷ apply o lhs t (var_operand y) ∷ [])
  unfolding run exec int_at exp_at operand_at
  first-Computes n c t y fresh ne = record {
    after = set_int lhs.name (μ.compute o n (int_at env y.name)) (set_int t.name n env);
    goes_on = rw (==_refl t.name, ne→test t.name y.name ne) refl;
    result = rw (==_refl lhs.name) refl;
    kept = λ z ne' new.
        rw (ne→test lhs.name z (λ e. ne' (sym e)), ne→test t.name z (λ e. new c (sym e ∙ fresh)))
          refl;
  }

  pub both-Computes :
      (n m : ℤ) (c d : ℕ) (t u : Var)
      → t.name ≡ vfac.fresh_name c
      → u.name ≡ vfac.fresh_name d
      → u.name ≢ t.name
      → Computes vfac μ env lhs
          (μ.compute o n m)
          (assign t (exp_cst n) ∷ assign u (exp_cst m) ∷ apply o lhs t (var_operand u) ∷ [])
  unfolding run exec int_at exp_at operand_at
  both-Computes n m c d t u fresh_t fresh_u ne = record {
    after = set_int lhs.name (μ.compute o n m) (set_int u.name m (set_int t.name n env));
    goes_on = rw (==_refl t.name, ==_refl u.name, ne→test u.name t.name ne) refl;
    result = rw (==_refl lhs.name) refl;
    kept = λ z ne' new.
        rw
          (
            ne→test lhs.name z (λ e. ne' (sym e)),
            ne→test u.name z (λ e. new d (sym e ∙ fresh_u)),
            ne→test t.name z (λ e. new c (sym e ∙ fresh_t)),
          )
          refl;
  }

module _ (env : Env) where
  pub exp_of : (l : Lit) (a : ℤ) → int_of env l ≡ some a → (x : LinExp) × (get_exp l ≡ some x)
  unfolding int_of get_exp
  exp_of (int_cst n) a h = (_, refl)
  exp_of (int_var x) a h = (_, refl)
  exp_of l a h = ground arith
