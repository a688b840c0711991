-- ===== src/Utils/Tests.antt =====
-- The i8 constant with pattern 200, an i8, and the name of an assertion.
use crab_llvm.Prelude.{◌-◌, ◌≡◌, ◌↔◌, ◌≤◌, true, false, arith}
use crab_llvm.Prelude.Int.{◌≤ℤ◌}
use crab_llvm.CmpInst.{signed_value}
use crab_llvm.Llvm.{int, Value}
use crab_llvm.Utils.Types.{CrabBuilderParams, Precision}
use crab_llvm.Utils.Numbers.{
  to_z_number, is_signed_bignum, min_int64, max_int64, to_z_number-signed_value,
  is_signed_bignum_iff,
}
use crab_llvm.Utils.Names.{kinds, is_verifier_call, kinds-le-one}

abbrev params : CrabBuilderParams
params = record {
  precision_level = Precision.num;
  interprocedural = true;
  include_useless_havoc = true;
  enable_bignums = true;
  lower_singleton_aliases = false;
  use_array_smashing = false;
}

to_z_number-signed_value_example : (to_z_number 8 200 params).0 ≡ signed_value (8 - 1) 200
to_z_number-signed_value_example = to_z_number-signed_value 8 200 params (omega arith) (omega arith)

is_signed_bignum_iff_example :
    (is_signed_bignum 8 200 ≡ false)
    ↔ ((min_int64 ≤ℤ signed_value (8 - 1) 200) × (signed_value (8 - 1) 200 ≤ℤ max_int64))
is_signed_bignum_iff_example = is_signed_bignum_iff 8 200 (omega arith) (omega arith)

abbrev call : Value
call = Value.reg 3 (int 32)

kinds-le-one_example :
    (kinds "verifier.assert" ≤ 1)
    × ((is_verifier_call "verifier.assert" ≡ true) ↔ (kinds "verifier.assert" ≡ 1))
kinds-le-one_example = kinds-le-one "verifier.assert"
