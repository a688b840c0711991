-- ===== src/Builder/Verifier/Correct.antt =====
-- What the calls of the verifier's functions do to a run.
use Prim.Native.String.{String}
use crab_llvm.Prelude.{
  ℕ, ◌≡◌, Bool, true, false, not, ◌||◌, Option, none, some, List, [], ◌∷◌, if◌then◌else◌, arith,
  refl, ◌∙◌, ap, ◌>>=◌, some_inj,
}
use crab_llvm.Prelude.Int.{ℤ, pos, ltb_ℤ, leb_ℤ}
use crab_llvm.Llvm.{Value, as_constant_int}
use crab_llvm.Utils.Types.{CrabBuilderParams, is_tracked}
use crab_llvm.Utils.Numbers.{get_int_constant}
use crab_llvm.Utils.Names.{
  is_error_fn, is_sea_horn_fail, is_assert_fn, is_assume_fn, is_not_assume_fn, checks_one,
}
use crab_llvm.Lit.{Var, Lit, bool_var, int_var, VariableFactory, LitState, get_lit}
use crab_llvm.Crab.{
  Stmt, Env, Meaning, Outcome, continues, blocked, failed, bool_at, int_at, exp_at, related,
}
use crab_llvm.Crab.Run.{holds, exec, run, +ℤ_zero}
use crab_llvm.Builder.Verifier.{
  constant_call, bool_call, int_call, at_least_one, at_most_zero, variable_call, condition_call,
  do_verifier_call,
}

-- What a call is documented to do, by the truth of its condition.
unfoldable pub verdict : String → Bool → Env → Outcome
unfolding is_assert_fn is_assume_fn is_not_assume_fn
verdict callee b env =
    if is_assert_fn callee
    then (if b then continues env else failed)
    else if is_assume_fn callee
    then (if b then continues env else blocked)
    else (if b then blocked else continues env)

abbrev pub IsCheck : String → Type 0
IsCheck n = is_assert_fn n || (is_assume_fn n || is_not_assume_fn n) ≡ true

-- The constraints on a condition that is an integer variable.
at_least_one-holds :
    (μ : Meaning) (env : Env) (v : Var)
    → holds μ env (at_least_one v) ≡ leb_ℤ (pos 1) (int_at env v.name)
unfolding holds related exp_at
at_least_one-holds μ env v = rw (+ℤ_zero (int_at env v.name)) refl

at_most_zero-holds :
    (μ : Meaning) (env : Env) (v : Var)
    → holds μ env (at_most_zero v) ≡ not (leb_ℤ (pos 1) (int_at env v.name))
unfolding holds related exp_at
at_most_zero-holds μ env v = rw (+ℤ_zero (int_at env v.name)) (flip (int_at env v.name))
  where
    flip : (a : ℤ) → leb_ℤ a (pos 0) ≡ not (leb_ℤ (pos 1) a)
    flip a = ground arith

module _ (μ : Meaning) (env : Env) (callee : String) (check : IsCheck callee) where
  bool_call-verdict :
      (v : Var) → run μ (bool_call callee v ∷ []) env ≡ verdict callee (bool_at env v.name) env
  unfolding run exec bool_call verdict
  bool_call-verdict v = ground (arith, check, checks_one callee)

  -- The statement for a constraint that says `b` and one that says the opposite.
  int_call-choice :
      (v : Var) (b : Bool)
      → holds μ env (at_least_one v) ≡ b
      → holds μ env (at_most_zero v) ≡ not b
      → run μ (int_call callee v ∷ []) env ≡ verdict callee b env
  unfolding run exec int_call verdict
  int_call-choice v b yes_holds no_holds =
      ground (arith, check, checks_one callee, yes_holds, no_holds)

  int_call-verdict :
      (v : Var)
      → run μ (int_call callee v ∷ []) env ≡ verdict callee (leb_ℤ (pos 1) (int_at env v.name)) env
  int_call-verdict v = int_call-choice v _ (at_least_one-holds μ env v) (at_most_zero-holds μ env v)

  constant_call-verdict :
      (n : ℤ) → run μ (constant_call callee (n, false)) env ≡ verdict callee (ltb_ℤ (pos 0) n) env
  constant_call-verdict n = constant_choice n (ltb_ℤ (pos 0) n) refl
    where
      constant_choice :
          (n : ℤ) (b : Bool)
          → ltb_ℤ (pos 0) n ≡ b
          → run μ (constant_call callee (n, false)) env ≡ verdict callee b env
      constant_choice n b e =
          unfold run exec constant_call verdict holds in ground (arith, check, checks_one callee)

-- The truth of a condition that is a Boolean variable, or an integer variable, where it is that the
-- value is at least 1.
unfoldable pub condition_truth : Env → Lit → Option Bool
condition_truth env (bool_var v) = some (bool_at env v.name)
condition_truth env (int_var v) = some (leb_ℤ (pos 1) (int_at env v.name))
condition_truth env _ = none

module _ (vfac : VariableFactory) (params : CrabBuilderParams) (μ : Meaning) (env : Env)
    (callee : String) (check : IsCheck callee) where
  check_call :
      (cond : Value) (source : Option Value) (has_fail : Bool) (st : LitState)
      → do_verifier_call vfac params (some callee) cond source has_fail st ≡ (do
        (code, st') ← condition_call vfac params callee cond source st
        some (code, (has_fail, st')))
  unfolding do_verifier_call
  check_call cond source has_fail st = rw (not_error, not_fail, check) refl
    where
      not_error : is_error_fn callee ≡ false
      not_error = ground (arith, check, checks_one callee)

      not_fail : is_sea_horn_fail callee ≡ false
      not_fail = ground (arith, check, checks_one callee)

  variable_verdict :
      (l : Lit) (b : Bool) (st : LitState)
      → condition_truth env l ≡ some b
      → (code : List Stmt) × (variable_call vfac params callee l none st ≡ some (code, st))
        × (run μ code env ≡ verdict callee b env)
  unfolding condition_truth variable_call
  variable_verdict (bool_var v) b st h = (
    _,
    refl,
    bool_call-verdict μ env callee check v ∙ ap (λ c. verdict callee c env) (some_inj _ _ h),
  )
  variable_verdict (int_var v) b st h = (
    _,
    refl,
    int_call-verdict μ env callee check v ∙ ap (λ c. verdict callee c env) (some_inj _ _ h),
  )
  variable_verdict l b st h = ground arith

  -- An assert, assume or negated assume of a tracked Boolean or integer variable that is not handled
  -- as the zext of a Boolean is translated to statements that do what the call is documented to do:
  -- the run goes on, fails or is blocked by the condition, which for an integer is that it is at
  -- least 1.
  pub do_verifier_call-verdict :
      (cond : Value) (l : Lit) (b has_fail : Bool) (st : LitState)
      → is_tracked cond params ≡ true
      → as_constant_int cond ≡ none
      → (get_lit vfac params cond st).0 ≡ some l
      → condition_truth env l ≡ some b
      → (code : List Stmt) × (st' : LitState) × (do_verifier_call vfac params
            (some callee)
            cond
            none
            has_fail
            st
          ≡ some (code, (has_fail, st')))
        × (run μ code env ≡ verdict callee b env)
  unfolding condition_call
  do_verifier_call-verdict cond l b has_fail st t c e h =
      let (code, f, g) = variable_verdict l b (get_lit vfac params cond st).1 h in
      (
        code,
        (get_lit vfac params cond st).1,
        rw (check_call cond none has_fail st, t, c, e) (rw f refl),
        g,
      )

  -- An assert, assume or negated assume of a constant that is no excluded bignum is translated to
  -- statements that do what the call is documented to do, with the condition taken as true exactly
  -- if the integer of the constant is positive.
  pub do_verifier_call-constant :
      (w bits : ℕ) (source : Option Value) (n : ℤ) (has_fail : Bool) (st : LitState)
      → get_int_constant w bits params ≡ (n, false)
      → (code : List Stmt) × (do_verifier_call vfac params
            (some callee)
            (Value.const_int w bits)
            source
            has_fail
            st
          ≡ some (code, (has_fail, st)))
        × (run μ code env ≡ verdict callee (ltb_ℤ (pos 0) n) env)
  unfolding condition_call as_constant_int
  do_verifier_call-constant w bits source n has_fail st e = (
    constant_call callee (n, false),
    rw (check_call (Value.const_int w bits) source has_fail st, e) refl,
    constant_call-verdict μ env callee check n,
  )
