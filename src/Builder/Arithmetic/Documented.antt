-- ===== src/Builder/Arithmetic/Documented.antt =====
-- What LLVM's integer operations and Crab's compute, as their documents say, on integers without
-- bounds: where a result is left undefined there, there is none.
use Prim.Native.Nat.{bit_and, bit_or, bit_xor}
use crab_llvm.Prelude.{
  ℕ, suc, ◌*◌, ◌/◌, ◌%◌, ◌^◌, ◌≡◌, Bool, true, false, not, Option, none, some, ◌==◌, if◌then◌else◌,
  bool_eq, arith,
}
use crab_llvm.Prelude.Int.{ℤ, pos, negsuc, ◌+ℤ◌, neg_ℤ, sub_ℕ}
use crab_llvm.Crab.{BinOp, Meaning}
use crab_llvm.Builder.Logic.{Opcode}
use crab_llvm.Builder.Arithmetic.{crab_op}

abbrev pub magnitude : ℤ → ℕ
magnitude (pos n) = n
magnitude (negsuc n) = suc n

abbrev pub is_negative : ℤ → Bool
is_negative (pos n) = false
is_negative (negsuc n) = true

abbrev pub with_sign : Bool → ℕ → ℤ
with_sign negative n = if negative then sub_ℕ 0 n else pos n

abbrev pub differ_in_sign : ℤ → ℤ → Bool
differ_in_sign a b = not (bool_eq (is_negative a) (is_negative b))

unfoldable pub product : ℤ → ℤ → ℤ
product a b = with_sign (differ_in_sign a b) (magnitude a * magnitude b)

-- The quotient is rounded towards 0, and the remainder has the sign of the first operand.
unfoldable pub quotient : ℤ → ℤ → ℤ
quotient a b = with_sign (differ_in_sign a b) (magnitude a / magnitude b)

unfoldable pub remainder : ℤ → ℤ → ℤ
remainder a b = with_sign (is_negative a) (magnitude a % magnitude b)

unfoldable pub shifted_left : ℤ → ℕ → ℤ
shifted_left a n = with_sign (is_negative a) (magnitude a * 2 ^ n)

-- The quotient by 2 ^ n, rounded down.
unfoldable pub shifted_right : ℤ → ℕ → ℤ
shifted_right (pos a) n = pos (a / 2 ^ n)
shifted_right (negsuc a) n = negsuc (a / 2 ^ n)

-- LLVM's result of an opcode.
unfoldable pub llvm_value : Opcode → ℤ → ℤ → Option ℤ
llvm_value Opcode.add a b = some (a +ℤ b)
llvm_value Opcode.sub a b = some (a +ℤ neg_ℤ b)
llvm_value Opcode.mul a b = some (product a b)
llvm_value Opcode.sdiv a b = if magnitude b == 0 then none else some (quotient a b)
llvm_value Opcode.srem a b = if magnitude b == 0 then none else some (remainder a b)
llvm_value Opcode.udiv (pos a) (pos b) = if b == 0 then none else some (pos (a / b))
llvm_value Opcode.urem (pos a) (pos b) = if b == 0 then none else some (pos (a % b))
llvm_value Opcode.and_op (pos a) (pos b) = some (pos (bit_and a b))
llvm_value Opcode.or_op (pos a) (pos b) = some (pos (bit_or a b))
llvm_value Opcode.xor_op (pos a) (pos b) = some (pos (bit_xor a b))
llvm_value Opcode.shl a (pos b) = some (shifted_left a b)
llvm_value Opcode.ashr a (pos b) = some (shifted_right a b)
llvm_value Opcode.lshr (pos a) (pos b) = some (pos (a / 2 ^ b))
llvm_value op a b = none

-- What Crab documents of its operations.
pub record IsDocumented (μ : Meaning) : Type 0 where
  pub addition : (a b : ℤ) → μ.compute BinOp.add a b ≡ a +ℤ b
  pub subtraction : (a b : ℤ) → μ.compute BinOp.sub a b ≡ a +ℤ neg_ℤ b
  pub multiplication : (a b : ℤ) → μ.compute BinOp.mul a b ≡ product a b
  pub signed_division :
      (a b : ℤ) → (magnitude b == 0) ≡ false → μ.compute BinOp.sdiv a b ≡ quotient a b
  pub signed_remainder :
      (a b : ℤ) → (magnitude b == 0) ≡ false → μ.compute BinOp.srem a b ≡ remainder a b
  pub unsigned_division :
      (a b : ℕ) → (b == 0) ≡ false → μ.compute BinOp.udiv (pos a) (pos b) ≡ pos (a / b)
  pub unsigned_remainder :
      (a b : ℕ) → (b == 0) ≡ false → μ.compute BinOp.urem (pos a) (pos b) ≡ pos (a % b)
  pub bits_of_both : (a b : ℕ) → μ.compute BinOp.and_op (pos a) (pos b) ≡ pos (bit_and a b)
  pub bits_of_any : (a b : ℕ) → μ.compute BinOp.or_op (pos a) (pos b) ≡ pos (bit_or a b)
  pub bits_of_one : (a b : ℕ) → μ.compute BinOp.xor_op (pos a) (pos b) ≡ pos (bit_xor a b)
  pub left_shift : (a : ℤ) (b : ℕ) → μ.compute BinOp.shl a (pos b) ≡ shifted_left a b
  pub arithmetic_shift : (a : ℤ) (b : ℕ) → μ.compute BinOp.ashr a (pos b) ≡ shifted_right a b
  pub logical_shift : (a b : ℕ) → μ.compute BinOp.lshr (pos a) (pos b) ≡ pos (a / 2 ^ b)

module _ (μ : Meaning) (documented : IsDocumented μ) where
  open documented use {
    addition, subtraction, multiplication, signed_division, signed_remainder, unsigned_division,
    unsigned_remainder, bits_of_both, bits_of_any, bits_of_one, left_shift, arithmetic_shift,
    logical_shift,
  }

  -- Crab's operation for an opcode computes LLVM's result.
  pub compute-crab_op :
      (op : Opcode) (o : BinOp) (a b r : ℤ)
      → crab_op op ≡ some o
      → llvm_value op a b ≡ some r
      → μ.compute o a b ≡ r
  unfolding crab_op llvm_value
  compute-crab_op Opcode.add o a b r e h = cc (addition a b)
  compute-crab_op Opcode.sub o a b r e h = cc (subtraction a b)
  compute-crab_op Opcode.mul o a b r e h = cc (multiplication a b)
  compute-crab_op Opcode.sdiv o a b r e h = ground (arith, signed_division a b)
  compute-crab_op Opcode.srem o a b r e h = ground (arith, signed_remainder a b)
  compute-crab_op Opcode.udiv o (pos a) (pos b) r e h = ground (arith, unsigned_division a b)
  compute-crab_op Opcode.urem o (pos a) (pos b) r e h = ground (arith, unsigned_remainder a b)
  compute-crab_op Opcode.and_op o (pos a) (pos b) r e h = cc (bits_of_both a b)
  compute-crab_op Opcode.or_op o (pos a) (pos b) r e h = cc (bits_of_any a b)
  compute-crab_op Opcode.xor_op o (pos a) (pos b) r e h = cc (bits_of_one a b)
  compute-crab_op Opcode.shl o a (pos b) r e h = cc (left_shift a b)
  compute-crab_op Opcode.ashr o a (pos b) r e h = cc (arithmetic_shift a b)
  compute-crab_op Opcode.lshr o (pos a) (pos b) r e h = cc (logical_shift a b)
  compute-crab_op op o a b r e h = absurd (ground arith)
