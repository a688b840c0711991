-- ===== src/Builder/Tests.antt =====
-- The translations on the sample's instructions.
use crab_llvm.Prelude.{◌≡◌, ◌≢◌, ◌⊎◌, refl, some, none, true, false, not, List, ◌==◌}
use crab_llvm.Prelude.Int.{pos, negsuc, ltb_ℤ}
use crab_llvm.CmpInst.{Predicate, compares}
use crab_llvm.Llvm.{Value}
use crab_llvm.Lit.{Var, LitState, int_cst, bool_var, int_var, ptr_null, ptr_var, get_lit}
use crab_llvm.Lit.Sample.{sample_factory, sample_params, empty_state}
use crab_llvm.Crab.{Env, set_bool, Stmt, LinCst, PtrCst, continues, ptr_holds}
use crab_llvm.Crab.Run.{run, holds}
use crab_llvm.Builder.Compare.{cmp_inst_to_crab_int, cmp_inst_to_crab_bool, cmp_inst_to_crab_ptr}
use crab_llvm.Builder.Compare.Correct.{
  is_signed, negate_if, cmp_inst_to_crab_int-holds, cmp_inst_to_crab_bool-assigns,
  cmp_inst_to_crab_ptr-holds,
}
use crab_llvm.Builder.Logic.{Opcode, do_bool_logic_op}
use crab_llvm.Builder.Logic.Correct.{do_bool_logic_op-computes}
use crab_llvm.Builder.Verifier.{do_verifier_call}
use crab_llvm.Builder.Verifier.Correct.{
  verdict, do_verifier_call-verdict, do_verifier_call-constant,
}
use crab_llvm.Builder.Casts.{normalize_func_param_or_ret}
use crab_llvm.Builder.Casts.Correct.{HasValue, normalize_func_param_or_ret-HasValue}
use crab_llvm.Builder.Sample.{
  meaning, env, number, ten, flag, bits, greater, number_var, flag_var, number_lit,
  greater-IsComparison, flag_lit, greater_after_flag, pointer_var, is_null, pointer_lit, null_lit,
  pointer_at, null_at, flag_at, flag_again, flag_lhs, and_result, flag_tracked, flag_not_constant,
  flag_truth, is_check, minus_one,
}

cmp_inst_to_crab_int-holds_example :
    (cst : LinCst) × ((cmp_inst_to_crab_int sample_factory sample_params greater true empty_state).0
      ≡ some cst)
    × (is_signed Predicate.sgt ≡ true
        → holds meaning env cst
          ≡ negate_if true (compares 7 Predicate.sgt (bits number) (bits ten)))
cmp_inst_to_crab_int-holds_example =
    cmp_inst_to_crab_int-holds sample_factory sample_params meaning 7 bits env greater empty_state
      (int_cst (pos 10)) (int_var number_var) true greater-IsComparison

cmp_inst_to_crab_bool-assigns_example :
    (code : List Stmt) × (st' : LitState) × (cmp_inst_to_crab_bool sample_factory sample_params flag
        greater empty_state
      ≡ some (code, st'))
    × (run meaning code env
        ≡ continues
            (set_bool flag_var.name (compares 7 Predicate.sgt (bits number) (bits ten)) env))
cmp_inst_to_crab_bool-assigns_example =
    cmp_inst_to_crab_bool-assigns sample_factory sample_params meaning 7 bits env greater
      empty_state flag flag_var (int_cst (pos 10)) (int_var number_var) flag_lit greater_after_flag
      refl

cmp_inst_to_crab_ptr-holds_example :
    (((cmp_inst_to_crab_ptr sample_factory sample_params is_null false empty_state).0 ≡ none)
      × (Predicate.eq ≢ Predicate.eq)
      × (Predicate.eq ≢ Predicate.ne))
    ⊎ ((cst : PtrCst) × ((cmp_inst_to_crab_ptr sample_factory sample_params is_null false
            empty_state).0
          ≡ some cst)
        × (((Predicate.eq ≡ Predicate.eq) × (ptr_holds env cst ≡ negate_if false (7 == 0)))
            ⊎ ((Predicate.eq ≡ Predicate.ne)
                × (ptr_holds env cst ≡ negate_if false (not (7 == 0))))))
cmp_inst_to_crab_ptr-holds_example =
    cmp_inst_to_crab_ptr-holds sample_factory sample_params env is_null empty_state
      (ptr_var pointer_var) ptr_null 7 0 false pointer_lit null_lit pointer_at null_at

do_bool_logic_op-computes_example :
    (code : List Stmt) × (do_bool_logic_op sample_factory sample_params Opcode.and_op
        (some (bool_var flag_var))
        flag
        flag
        empty_state
      ≡ some (
        flag_var,
        (
          code,
          (get_lit sample_factory sample_params flag
              (get_lit sample_factory sample_params flag empty_state).1).1,
        ),
      ))
    × (run meaning code env ≡ continues (set_bool flag_var.name true env))
do_bool_logic_op-computes_example =
    do_bool_logic_op-computes sample_factory sample_params meaning env Opcode.and_op
      (some (bool_var flag_var)) flag flag empty_state empty_state flag_var (bool_var flag_var)
      (bool_var flag_var) true true true flag_lhs flag_lit flag_again flag_at flag_at and_result

normalize_func_param_or_ret-HasValue_example :
    (x : Var) × (code : List Stmt) × (st' : LitState) × (after : Env) × (normalize_func_param_or_ret
        sample_factory sample_params number empty_state
      ≡ some (x, (code, st')))
    × (run meaning code env ≡ continues after)
    × HasValue env after (int_var number_var) x
normalize_func_param_or_ret-HasValue_example =
    normalize_func_param_or_ret-HasValue sample_factory sample_params meaning env number
      (int_var number_var) empty_state number_lit

do_verifier_call-verdict_example :
    (code : List Stmt) × (st' : LitState) × (do_verifier_call sample_factory sample_params
        (some "verifier.assert")
        flag
        none
        false
        empty_state
      ≡ some (code, (false, st')))
    × (run meaning code env ≡ verdict "verifier.assert" true env)
do_verifier_call-verdict_example =
    do_verifier_call-verdict sample_factory sample_params meaning env "verifier.assert" is_check
      flag (bool_var flag_var) true false empty_state flag_tracked flag_not_constant flag_lit
      flag_truth

do_verifier_call-constant_example :
    (code : List Stmt) × (do_verifier_call sample_factory sample_params
        (some "verifier.assert")
        (Value.const_int 8 255)
        none
        false
        empty_state
      ≡ some (code, (false, empty_state)))
    × (run meaning code env ≡ verdict "verifier.assert" (ltb_ℤ (pos 0) (negsuc 0)) env)
do_verifier_call-constant_example =
    do_verifier_call-constant sample_factory sample_params meaning env "verifier.assert" is_check 8
      255 none (negsuc 0) false empty_state minus_one
