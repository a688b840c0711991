-- ===== src/Builder/Arithmetic/Tests.antt =====
-- A difference and a conjunction of the sample's numbers, with Crab's operations as documented.
use Prim.Native.Nat.{bit_and, bit_or, bit_xor}
use crab_llvm.Prelude.{◌/◌, ◌%◌, ◌^◌, ◌≡◌, ◌⊎◌, refl, some, true, List}
use crab_llvm.Prelude.Int.{ℤ, pos, negsuc, ◌+ℤ◌, neg_ℤ}
use crab_llvm.Lit.{Var, LitState, int_cst, int_var}
use crab_llvm.Lit.Sample.{
  sample_factory, sample_factory-IsVariableFactory, sample_params, empty_state, empty_state-IsValid,
}
use crab_llvm.Crab.{BinOp, Meaning, Stmt, continues}
use crab_llvm.Crab.Run.{run}
use crab_llvm.Builder.Sample.{
  meaning, env, number, ten, number_var, number_lit, ten_lit, number_at, ten_at,
}
use crab_llvm.Builder.Logic.{Opcode}
use crab_llvm.Builder.Arithmetic.{is_arithmetic, do_arithmetic, do_int_logic_op}
use crab_llvm.Builder.Arithmetic.Documented.{
  product, quotient, remainder, shifted_left, shifted_right, llvm_value, IsDocumented,
}
use crab_llvm.Builder.Arithmetic.Computes.{Computes}
use crab_llvm.Builder.Arithmetic.Correct.{do_arithmetic-Computes}
use crab_llvm.Builder.Arithmetic.Bitwise.{is_bitwise, do_int_logic_op-Computes}

abbrev crab_compute : BinOp → ℤ → ℤ → ℤ
crab_compute BinOp.add a b = a +ℤ b
crab_compute BinOp.sub a b = a +ℤ neg_ℤ b
crab_compute BinOp.mul a b = product a b
crab_compute BinOp.sdiv a b = quotient a b
crab_compute BinOp.srem a b = remainder a b
crab_compute BinOp.udiv (pos a) (pos b) = pos (a / b)
crab_compute BinOp.urem (pos a) (pos b) = pos (a % b)
crab_compute BinOp.and_op (pos a) (pos b) = pos (bit_and a b)
crab_compute BinOp.or_op (pos a) (pos b) = pos (bit_or a b)
crab_compute BinOp.xor_op (pos a) (pos b) = pos (bit_xor a b)
crab_compute BinOp.shl a (pos b) = shifted_left a b
crab_compute BinOp.ashr a (pos b) = shifted_right a b
crab_compute BinOp.lshr (pos a) (pos b) = pos (a / 2 ^ b)
crab_compute op a b = pos 0

abbrev crab : Meaning
crab = record meaning { compute = crab_compute }

crab-IsDocumented : IsDocumented crab
crab-IsDocumented = record {
  addition = λ a b. refl;
  subtraction = λ a b. refl;
  multiplication = λ a b. refl;
  signed_division = λ a b h. refl;
  signed_remainder = λ a b h. refl;
  unsigned_division = λ a b h. refl;
  unsigned_remainder = λ a b h. refl;
  bits_of_both = λ a b. refl;
  bits_of_any = λ a b. refl;
  bits_of_one = λ a b. refl;
  left_shift = λ a b. refl;
  arithmetic_shift = λ a b. refl;
  logical_shift = λ a b. refl;
}

sub_accepted : is_arithmetic Opcode.sub ≡ true
unfolding is_arithmetic
sub_accepted = refl

and_accepted : is_bitwise Opcode.and_op ≡ true
unfolding is_bitwise
and_accepted = refl

five_minus_ten : llvm_value Opcode.sub (pos 5) (pos 10) ≡ some (negsuc 4)
unfolding llvm_value ◌+ℤ◌
five_minus_ten = refl

five_and_ten : llvm_value Opcode.and_op (pos 5) (pos 10) ≡ some (pos 0)
unfolding llvm_value
five_and_ten = refl

-- The operations at negative numbers, as LLVM rounds them.
minus_seven_by_two : llvm_value Opcode.sdiv (negsuc 6) (pos 2) ≡ some (negsuc 2)
unfolding llvm_value quotient
minus_seven_by_two = refl

minus_seven_rest : llvm_value Opcode.srem (negsuc 6) (pos 2) ≡ some (negsuc 0)
unfolding llvm_value remainder
minus_seven_rest = refl

minus_seven_shifted : llvm_value Opcode.ashr (negsuc 6) (pos 1) ≡ some (negsuc 3)
unfolding llvm_value shifted_right
minus_seven_shifted = refl

do_arithmetic-Computes_example :
    (code : List Stmt) × (st' : LitState) × (do_arithmetic sample_factory sample_params
        (some (int_var number_var))
        Opcode.sub
        8
        number
        ten
        empty_state
      ≡ some (code, st'))
    × Computes sample_factory crab env number_var (negsuc 4) code
do_arithmetic-Computes_example =
    do_arithmetic-Computes sample_factory sample_params crab env sample_factory-IsVariableFactory
      Opcode.sub 8 number_var number ten (int_var number_var) (int_cst (pos 10)) (pos 5) (pos 10)
      (negsuc 4) empty_state crab-IsDocumented empty_state-IsValid sub_accepted number_lit ten_lit
      number_at ten_at five_minus_ten

do_int_logic_op-Computes_example :
    (code : List Stmt) × (st' : LitState) × (do_int_logic_op sample_factory sample_params
        (some (int_var number_var))
        Opcode.and_op
        number
        ten
        empty_state
      ≡ some (code, st'))
    × (((x : Var) × (int_var number_var ≡ int_var x)
          × Computes sample_factory crab env number_var (pos 0) code)
        ⊎ ((int_var number_var ≡ int_cst (pos 5)) × (run crab code env ≡ continues env)))
do_int_logic_op-Computes_example =
    do_int_logic_op-Computes sample_factory sample_params crab env Opcode.and_op number_var number
      ten (int_var number_var) (int_cst (pos 10)) (pos 5) (pos 10) (pos 0) empty_state
      crab-IsDocumented and_accepted number_lit ten_lit number_at ten_at five_and_ten
