-- ===== src/Utils/Numbers.antt =====
-- Integer constants: bignums, and their value as an unbounded integer.
use native.Mathlib.Nat.{pow-suc, add-suc, add-zero, mod-eq_of_lt}
use crab_llvm.Prelude.{
  ℕ, zero, suc, ◌+◌, ◌-◌, ◌%◌, ◌^◌, ◌<◌, ◌≤◌, ◌≡◌, ◌↔◌, subst, Bool, false, not, ◌||◌, arith, leb,
  ltb, ◌==◌, if◌then◌else◌,
}
use crab_llvm.Prelude.Int.{ℤ, pos, negsuc, neg_ℤ, ltb_ℤ, ◌≤ℤ◌}
use crab_llvm.CmpInst.{signed_value}
use crab_llvm.Utils.Types.{CrabBuilderParams}

-- getSignedMaxValue(64) and getSignedMinValue(64).
abbrev pub max_int64 : ℤ
max_int64 = pos (2 ^ 63 - 1)

abbrev pub min_int64 : ℤ
min_int64 = negsuc (2 ^ 63 - 1)

-- Any integer that cannot be represented by 64 bits is a bignum. `v` is a pattern of width `b`; sgt
-- and slt compare signed values.
unfoldable pub is_signed_bignum : ℕ → ℕ → Bool
is_signed_bignum b v =
    if leb b 64
    then false
    else ltb_ℤ max_int64 (signed_value (b - 1) v) || ltb_ℤ (signed_value (b - 1) v) min_int64

-- APInt::isNegative and APInt::abs.
is_negative : ℕ → ℕ → Bool
is_negative b v = not (ltb v (2 ^ (b - 1)))

abs_pattern : ℕ → ℕ → ℕ
unfolding is_negative
abs_pattern b v = if is_negative b v then (2 ^ b - v) % 2 ^ b else v

-- The number, and whether it is a bignum that must not be used.
unfoldable pub to_z_number : ℕ → ℕ → CrabBuilderParams → ℤ × Bool
unfolding is_negative abs_pattern
to_z_number b v params =
    let is_bignum = if params.enable_bignums then false else is_signed_bignum b v in
    let res = pos (abs_pattern b v) in (if is_negative b v then neg_ℤ res else res, is_bignum)

unfoldable pub get_int_constant : ℕ → ℕ → CrabBuilderParams → ℤ × Bool
get_int_constant b v params = if b == 1 then (pos v, false) else to_z_number b v params

pow_mono : (m d : ℕ) → 2 ^ m ≤ 2 ^ (m + d)
pow_mono m zero = rw add-zero (omega arith)
pow_mono m (suc d) = rw (add-suc, pow-suc) (omega (arith, pow_mono m d))

pub pow_half : (b : ℕ) → 0 < b → 2 ^ b ≡ 2 ^ (b - 1) + 2 ^ (b - 1)
pow_half zero h = absurd (omega arith)
pow_half (suc k) h = let e : suc k - 1 ≡ k = omega arith in rw (pow-suc, e) (omega arith)

pow-le-max : (b : ℕ) → 0 < b → b ≤ 64 → 2 ^ (b - 1) ≤ 2 ^ 63
pow-le-max b h le =
    let e : (b - 1) + (64 - b) ≡ 63 = omega arith in
    subst (λ n. 2 ^ (b - 1) ≤ 2 ^ n) e (pow_mono (b - 1) (64 - b))

-- The number of a constant is the integer that its pattern stands for.
pub to_z_number-signed_value :
    (b v : ℕ) (params : CrabBuilderParams)
    → 0 < b
    → v < 2 ^ b
    → (to_z_number b v params).0 ≡ signed_value (b - 1) v
unfolding to_z_number
to_z_number-signed_value b v params pos_b h =
    ground (arith, pow_half b pos_b, mod-eq_of_lt {n = 2 ^ b - v} {m = 2 ^ b})

-- A constant is a bignum exactly if its value is not an int64.
pub is_signed_bignum_iff :
    (b v : ℕ)
    → 0 < b
    → v < 2 ^ b
    → (is_signed_bignum b v ≡ false)
      ↔ ((min_int64 ≤ℤ signed_value (b - 1) v) × (signed_value (b - 1) v ≤ℤ max_int64))
unfolding is_signed_bignum
is_signed_bignum_iff b v pos_b h = ground (arith, pow_half b pos_b, pow-le-max b pos_b)
