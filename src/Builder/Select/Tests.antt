-- ===== src/Builder/Select/Tests.antt =====
-- Selects of the sample's values: under a comparison, and of two constants under a variable.
use crab_llvm.Prelude.{
  ◌≡◌, refl, Bool, true, false, ◌&&◌, ◌||◌, some, List, if◌then◌else◌, some_inj, sym, ap, ◌∙◌, ◌≢◌,
  arith, ℕ,
}
use crab_llvm.Prelude.Int.{pos}
use crab_llvm.CmpInst.{Predicate, compares}
use crab_llvm.Lit.{LitState, bool_cst, bool_var, int_cst, int_var, exp_var, exp_cst, get_var}
use crab_llvm.Lit.Sample.{
  sample_factory, sample_factory-IsVariableFactory, sample_params, empty_state,
}
use crab_llvm.Crab.{Env, set_bool, bool_at, bool_of, Stmt, continues}
use crab_llvm.Crab.Run.{run}
use crab_llvm.Builder.Sample.{
  zext_is_bit, number_not_fresh, ten_not_fresh, meaning, env, number, ten, flag, bits, greater,
  number_var, flag_var, greater-IsComparison, number_at, ten_at, flag_not_constant, number_exp,
  ten_exp,
}
use crab_llvm.Builder.Arithmetic.Computes.{Computes}
use crab_llvm.Builder.Select.{select_int, select_bool}
use crab_llvm.Builder.Select.Correct.{IntCondition, compared, select_int-chooses}
use crab_llvm.Builder.Select.Booleans.{
  BoolCondition, variable, both_variables, IsUnused, select_bool-chooses,
}

-- 5 is not greater than 10.
greater-IntCondition :
    IntCondition sample_factory sample_params 7 bits env empty_state flag
      (bool_var flag_var)
      (some greater)
      (compares 7 Predicate.sgt (bits number) (bits ten))
greater-IntCondition =
    compared flag_var greater (int_cst (pos 10)) (int_var number_var) flag_not_constant refl
      greater-IsComparison refl

select_int-chooses_example :
    (code : List Stmt) × (st' : LitState) × (select_int sample_factory sample_params flag
        (some greater)
        number_var
        (bool_var flag_var)
        (int_var number_var)
        (int_cst (pos 10))
        empty_state
      ≡ some (code, st'))
    × Computes sample_factory meaning env number_var
        (if compares 7 Predicate.sgt (bits number) (bits ten) then pos 5 else pos 10)
        code
select_int-chooses_example =
    select_int-chooses sample_factory sample_params meaning env 7 bits flag (some greater)
      number_var (bool_var flag_var) (int_var number_var) (int_cst (pos 10)) (exp_var number_var)
      (exp_cst (pos 10)) (pos 5) (pos 10) (compares 7 Predicate.sgt (bits number) (bits ten))
      empty_state zext_is_bit greater-IntCondition number_exp ten_exp number_at ten_at
      number_not_fresh ten_not_fresh

-- The sample's values, with a false condition.
abbrev false_env : Env
false_env = set_bool flag_var.name false env

flag_false : bool_at false_env flag_var.name ≡ false
unfolding bool_at
flag_false = refl

flag-BoolCondition :
    BoolCondition false_env flag (bool_var flag_var) (bool_at false_env flag_var.name) true
flag-BoolCondition = variable flag_var flag_not_constant refl

true_at : bool_of false_env (bool_cst true) ≡ some true
unfolding bool_of
true_at = refl

false_at : bool_of false_env (bool_cst false) ≡ some false
unfolding bool_of
false_at = refl

constant-IsUnused : (b : Bool) → IsUnused sample_factory empty_state (bool_cst b)
unfolding get_var
constant-IsUnused b n z le h = absurd (ground arith)

flag-IsUnused : IsUnused sample_factory empty_state (bool_var flag_var)
unfolding get_var
flag-IsUnused n z le h e = odd n (e ∙ ap (λ v. v.name) (sym (some_inj flag_var z h)))
  where
    odd : (m : ℕ) → sample_factory.fresh_name m ≢ flag_var.name
    odd m e = omega arith

select_bool-chooses_example :
    (code : List Stmt) × (st' : LitState) × (after : Env) × (select_bool sample_factory
        sample_params flag flag_var
        (bool_var flag_var)
        (bool_cst true)
        (bool_cst false)
        empty_state
      ≡ some (code, st'))
    × (run meaning code false_env ≡ continues after)
    × (bool_at after flag_var.name ≡ (
        if bool_at false_env flag_var.name
          || (true && both_variables (bool_cst true) (bool_cst false))
        then true
        else false))
select_bool-chooses_example =
    select_bool-chooses sample_factory sample_params meaning false_env
      sample_factory-IsVariableFactory flag flag_var (bool_var flag_var) (bool_cst true)
      (bool_cst false) true false (bool_at false_env flag_var.name) true empty_state
      flag-BoolCondition true_at false_at flag-IsUnused (constant-IsUnused true)
      (constant-IsUnused false)
