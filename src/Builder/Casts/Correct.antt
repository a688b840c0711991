-- ===== src/Builder/Casts/Correct.antt =====
-- Parameters and returned values.
use crab_llvm.Prelude.{
  ℕ, ◌≡◌, Bool, none, some, List, [], arith, refl, ap, ==_refl, Bool-cases, inl, inr, some_inj,
}
use crab_llvm.Prelude.Int.{ℤ}
use crab_llvm.Llvm.{Value}
use crab_llvm.Utils.Types.{CrabBuilderParams}
use crab_llvm.Lit.{
  Var, Lit, bool_cst, bool_var, int_cst, int_var, ptr_null, ptr_var, VariableFactory, LitState,
  get_lit,
}
use crab_llvm.Crab.{
  Stmt, Env, bool_at, int_at, ptr_at, exp_at, set_int, set_bool, set_ptr, bool_of, int_of, ptr_of,
  Meaning, continues,
}
use crab_llvm.Crab.Run.{holds, exec, run}
use crab_llvm.Builder.Logic.{truth}
use crab_llvm.Builder.Casts.{param_of_lit, normalize_func_param_or_ret}

none_ne_some {ℓ} : {A : Type ℓ} (a : A) → ¬ (none ≡ some a)
none_ne_some a h = ground arith

-- The variable that has the value of a literal.
pub record HasValue (env env' : Env) (l : Lit) (x : Var) : Type 0 where
  pub bools : (b : Bool) → bool_of env l ≡ some b → bool_at env' x.name ≡ b
  pub ints : (n : ℤ) → int_of env l ≡ some n → int_at env' x.name ≡ n
  pub ptrs : (p : ℕ) → ptr_of env l ≡ some p → ptr_at env' x.name ≡ p

module _ (vfac : VariableFactory) (params : CrabBuilderParams) (μ : Meaning) (env : Env) where
  -- One case for each kind of literal.
  param_case :
      (v : Value) (l : Lit) (st : LitState)
      → (x : Var) × (code : List Stmt) × (st' : LitState) × (after : Env) × (param_of_lit vfac
            params v l st
          ≡ (x, (code, st')))
        × (run μ code env ≡ continues after)
        × HasValue env after l x
  unfolding param_of_lit run exec holds truth exp_at bool_of int_of ptr_of bool_at int_at ptr_at
  param_case v (bool_var x) st = (
    x,
    [],
    st,
    env,
    refl,
    refl,
    record {
      bools = λ b h. some_inj _ _ h;
      ints = λ n h. absurd (none_ne_some _ h);
      ptrs = λ p h. absurd (none_ne_some _ h);
    },
  )
  param_case v (int_var x) st = (
    x,
    [],
    st,
    env,
    refl,
    refl,
    record {
      bools = λ b h. absurd (none_ne_some _ h);
      ints = λ n h. some_inj _ _ h;
      ptrs = λ p h. absurd (none_ne_some _ h);
    },
  )
  param_case v (ptr_var x) st = (
    x,
    [],
    st,
    env,
    refl,
    refl,
    record {
      bools = λ b h. absurd (none_ne_some _ h);
      ints = λ n h. absurd (none_ne_some _ h);
      ptrs = λ p h. some_inj _ _ h;
    },
  )
  param_case v (bool_cst b) st = (
    _,
    _,
    _,
    set_bool (vfac.fresh_name st.fresh_count) b env,
    refl,
    elim (Bool-cases b) [ inl e ↦ rw e refl | inr e ↦ rw e refl ],
    record {
      bools = λ b' h. rw (==_refl (vfac.fresh_name st.fresh_count)) (some_inj _ _ h);
      ints = λ n' h. absurd (none_ne_some _ h);
      ptrs = λ p' h. absurd (none_ne_some _ h);
    },
  )
  param_case v (int_cst n) st = (
    _,
    _,
    _,
    set_int (vfac.fresh_name st.fresh_count) n env,
    refl,
    refl,
    record {
      bools = λ b' h. absurd (none_ne_some _ h);
      ints = λ n' h. rw (==_refl (vfac.fresh_name st.fresh_count)) (some_inj _ _ h);
      ptrs = λ p' h. absurd (none_ne_some _ h);
    },
  )
  param_case v ptr_null st = (
    _,
    _,
    _,
    set_ptr (vfac.fresh_name st.fresh_count) 0 env,
    refl,
    refl,
    record {
      bools = λ b' h. absurd (none_ne_some _ h);
      ints = λ n' h. absurd (none_ne_some _ h);
      ptrs = λ p' h. rw (==_refl (vfac.fresh_name st.fresh_count)) (some_inj _ _ h);
    },
  )

  -- A value with a literal is normalised to a variable, and the statements emitted go on and leave
  -- the literal's value in that variable.
  pub normalize_func_param_or_ret-HasValue :
      (v : Value) (l : Lit) (st : LitState)
      → (get_lit vfac params v st).0 ≡ some l
      → (x : Var) × (code : List Stmt) × (st' : LitState) × (after : Env)
        × (normalize_func_param_or_ret vfac params v st ≡ some (x, (code, st')))
        × (run μ code env ≡ continues after)
        × HasValue env after l x
  unfolding normalize_func_param_or_ret
  normalize_func_param_or_ret-HasValue v l st e =
      let (x, code, st', after, f, g, h) = param_case v l (get_lit vfac params v st).1 in
      (x, code, st', after, rw (e, normalize_func_param_or_ret) (ap some f), g, h)
