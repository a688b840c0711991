-- ===== src/Builder/Sample.antt =====
-- Concrete values for the tests: %0 and %1 of type i8, %2 of type i1 and the pointer %3.
use crab_llvm.Prelude.{
  suc, ◌&&◌, Bool, ◌≢◌, some_inj, sym, ap, ◌∙◌, ℕ, ℕ_discrete, ◌≡◌, refl, some, none, true, false,
  ◌||◌, arith, if◌then◌else◌,
}
use crab_llvm.Prelude.Int.{pos, negsuc, leb_ℤ}
use crab_llvm.CmpInst.{Predicate, Cmp, swap_operands}
use crab_llvm.Llvm.{int, pointer, Value, as_constant_int}
use crab_llvm.Utils.Numbers.{get_int_constant, to_z_number, is_signed_bignum}
use crab_llvm.Utils.Names.{is_assert_fn, is_assume_fn, is_not_assume_fn}
use crab_llvm.Utils.Types.{is_tracked}
use crab_llvm.Lit.{
  Var, LitState, int_cst, bool_var, int_var, ptr_null, ptr_var, int_type, bool_type, ptr_type,
  find_lit, make_lit, get_lit, get_int_lit, get_bool_lit, get_ptr_lit, remember, get_exp, exp_var,
  exp_cst, mk_bool_var, is_bool_lit, get_var,
}
use crab_llvm.Lit.Sample.{sample_factory, sample_params, empty_state}
use crab_llvm.Crab.{
  zero_extend, Meaning, Env, start, bool_of, int_of, ptr_of, bool_at, int_at, ptr_at,
}
use crab_llvm.Builder.Compare.{normalize_cmp_inst}
use crab_llvm.Builder.Compare.Correct.{IsComparison}
use crab_llvm.Builder.Logic.{Opcode, logic_lhs}
use crab_llvm.Builder.Logic.Correct.{logic_result}
use crab_llvm.Builder.Verifier.Correct.{condition_truth}

abbrev pub meaning : Meaning
meaning = record {
  compute = λ o a b. pos 3;
  cast_int = λ k v w n. n;
  cast_from_bool = λ k b. if b then pos 1 else pos 0;
  cast_to_bool = λ k n. true;
  unsigned_holds = λ r a b. false;
  chosen_bool = λ n. false;
  chosen_int = λ n. pos 0;
  chosen_ptr = λ n. 0;
  object_address = λ n. suc n;
  range_set = λ size lb ub v cells i. if leb_ℤ lb i && leb_ℤ i ub then v else cells i;
}

-- Every Boolean is true, every integer 5, and every pointer 7.
abbrev pub env : Env
env = start (λ n. true) (λ n. pos 5) (λ n. 7) (λ n i. pos 0) (λ n. 0)

abbrev pub number : Value
number = Value.reg 0 (int 8)

abbrev pub ten : Value
ten = Value.const_int 8 10

abbrev pub flag : Value
flag = Value.reg 2 (int 1)

-- The patterns of the values.
abbrev pub bits : Value → ℕ
bits (Value.const_int w b) = b
bits _ = 5

-- `icmp sgt i8 %0, 10`
abbrev pub greater : Cmp Value
greater = record { predicate = Predicate.sgt; op0 = number; op1 = ten }

abbrev pub number_var : Var
number_var = record { name = sample_factory.value_name number; var_type = int_type; bitwidth = 8 }

abbrev pub flag_var : Var
flag_var = record { name = sample_factory.value_name flag; var_type = bool_type; bitwidth = 1 }

pub number_lit :
    (get_lit sample_factory sample_params number empty_state).0 ≡ some (int_var number_var)
unfolding get_lit find_lit make_lit get_int_lit get_bool_lit get_ptr_lit remember to_z_number
    is_signed_bignum ℕ_discrete
number_lit = refl

pub ten_lit :
    (get_lit sample_factory sample_params ten
      (get_lit sample_factory sample_params number empty_state).1).0
    ≡ some (int_cst (pos 10))
unfolding get_lit find_lit make_lit get_int_lit get_bool_lit get_ptr_lit remember to_z_number
    is_signed_bignum ℕ_discrete
ten_lit = refl

pub greater-IsComparison :
    IsComparison sample_factory sample_params 7 bits env greater empty_state
      (int_cst (pos 10))
      (int_var number_var)
unfolding get_lit find_lit make_lit get_int_lit get_bool_lit get_ptr_lit remember to_z_number
    is_signed_bignum ℕ_discrete normalize_cmp_inst swap_operands int_of int_at
greater-IsComparison = record {
  first = refl;
  second = refl;
  range0 = omega arith;
  range1 = omega arith;
  value0 = refl;
  value1 = refl;
}

pub flag_lit : (get_lit sample_factory sample_params flag empty_state).0 ≡ some (bool_var flag_var)
unfolding get_lit find_lit make_lit get_int_lit get_bool_lit get_ptr_lit remember to_z_number
    is_signed_bignum ℕ_discrete
flag_lit = refl

pub greater_after_flag :
    IsComparison sample_factory sample_params 7 bits env greater
      (get_lit sample_factory sample_params flag empty_state).1
      (int_cst (pos 10))
      (int_var number_var)
unfolding get_lit find_lit make_lit get_int_lit get_bool_lit get_ptr_lit remember to_z_number
    is_signed_bignum ℕ_discrete normalize_cmp_inst swap_operands int_of int_at
greater_after_flag = record {
  first = refl;
  second = refl;
  range0 = omega arith;
  range1 = omega arith;
  value0 = refl;
  value1 = refl;
}

abbrev pub pointer_value : Value
pointer_value = Value.reg 3 pointer

abbrev pub pointer_var : Var
pointer_var = record {
  name = sample_factory.value_name pointer_value;
  var_type = ptr_type;
  bitwidth = 0;
}

-- `icmp eq %3, null`
abbrev pub is_null : Cmp Value
is_null = record { predicate = Predicate.eq; op0 = pointer_value; op1 = Value.null }

pub pointer_lit :
    (get_lit sample_factory sample_params (normalize_cmp_inst is_null).op0 empty_state).0
    ≡ some (ptr_var pointer_var)
unfolding get_lit find_lit make_lit get_int_lit get_bool_lit get_ptr_lit remember to_z_number
    is_signed_bignum ℕ_discrete normalize_cmp_inst
pointer_lit = refl

pub null_lit :
    (get_lit sample_factory sample_params
      (normalize_cmp_inst is_null).op1
      (get_lit sample_factory sample_params (normalize_cmp_inst is_null).op0 empty_state).1).0
    ≡ some ptr_null
unfolding get_lit find_lit make_lit get_int_lit get_bool_lit get_ptr_lit remember to_z_number
    is_signed_bignum ℕ_discrete normalize_cmp_inst
null_lit = refl

pub pointer_at : ptr_of env (ptr_var pointer_var) ≡ some 7
unfolding ptr_of ptr_at
pointer_at = refl

pub null_at : ptr_of env ptr_null ≡ some 0
unfolding ptr_of
null_at = refl

pub number_at : int_of env (int_var number_var) ≡ some (pos 5)
unfolding int_of int_at
number_at = refl

pub ten_at : int_of env (int_cst (pos 10)) ≡ some (pos 10)
unfolding int_of
ten_at = refl

pub flag_at : bool_of env (bool_var flag_var) ≡ some true
unfolding bool_of bool_at
flag_at = refl

pub flag_again :
    (get_lit sample_factory sample_params flag
      (get_lit sample_factory sample_params flag empty_state).1).0
    ≡ some (bool_var flag_var)
unfolding get_lit find_lit make_lit get_int_lit get_bool_lit get_ptr_lit remember to_z_number
    is_signed_bignum ℕ_discrete
flag_again = refl

pub flag_lhs :
    logic_lhs sample_factory sample_params (some (bool_var flag_var)) empty_state
    ≡ some (flag_var, empty_state)
unfolding logic_lhs
flag_lhs = unfold logic_lhs is_bool_lit get_var in refl

pub and_result : logic_result Opcode.and_op true true ≡ some true
unfolding logic_result
and_result = refl

abbrev pub after_temp : LitState
after_temp = (mk_bool_var sample_factory sample_params empty_state).1

pub flag-after_temp :
    (get_lit sample_factory sample_params flag after_temp).0 ≡ some (bool_var flag_var)
unfolding get_lit find_lit make_lit get_int_lit get_bool_lit get_ptr_lit remember to_z_number
    is_signed_bignum ℕ_discrete mk_bool_var
flag-after_temp = refl

pub flag-after_temp_again :
    (get_lit sample_factory sample_params flag
      (get_lit sample_factory sample_params flag after_temp).1).0
    ≡ some (bool_var flag_var)
unfolding get_lit find_lit make_lit get_int_lit get_bool_lit get_ptr_lit remember to_z_number
    is_signed_bignum ℕ_discrete mk_bool_var
flag-after_temp_again = refl

pub flag_tracked : is_tracked flag sample_params ≡ true
unfolding is_tracked
flag_tracked = refl

pub flag_not_constant : as_constant_int flag ≡ none
unfolding as_constant_int
flag_not_constant = refl

pub flag_truth : condition_truth env (bool_var flag_var) ≡ some true
unfolding condition_truth bool_at
flag_truth = refl

pub is_check :
    is_assert_fn "verifier.assert"
      || (is_assume_fn "verifier.assert" || is_not_assume_fn "verifier.assert")
    ≡ true
unfolding is_assert_fn
is_check = refl

pub minus_one : get_int_constant 8 255 sample_params ≡ (negsuc 0, false)
unfolding get_int_constant to_z_number is_signed_bignum
minus_one = refl

pub number_exp : get_exp (int_var number_var) ≡ some (exp_var number_var)
unfolding get_exp
number_exp = refl

pub ten_exp : get_exp (int_cst (pos 10)) ≡ some (exp_cst (pos 10))
unfolding get_exp
ten_exp = refl

pub zext_is_bit : (b : Bool) → meaning.cast_from_bool zero_extend b ≡ (if b then pos 1 else pos 0)
zext_is_bit b = refl

pub number_not_fresh :
    (z : Var) → (exp_var number_var).variable ≡ some z → sample_factory.fresh_name 0 ≢ z.name
number_not_fresh z h e = odd (e ∙ ap (λ v. v.name) (sym (some_inj number_var z h)))
  where
    odd : sample_factory.fresh_name 0 ≢ number_var.name
    odd e = omega arith

pub ten_not_fresh :
    (z : Var) → (exp_cst (pos 10)).variable ≡ some z → sample_factory.fresh_name 0 ≢ z.name
ten_not_fresh z h e = absurd (ground arith)
