-- ===== src/LowerICmp/Signs.antt =====
-- Sign bits decide comparisons.
use native.Mathlib.Nat.{pow-suc}
use crab_llvm.Prelude.{ℕ, zero, suc, ◌+◌, ◌^◌, ◌<◌, ◌≡◌, ◌⊎◌, true, false, arith, ltb}
use crab_llvm.CmpInst.{Predicate, compares, signed_predicate}

pow_pos : (k : ℕ) → 0 < 2 ^ k
pow_pos zero = omega arith
pow_pos (suc k) = omega (arith, pow-suc 2 k, pow_pos k)

-- The test of `mk_non_negative` reads the sign bit.
pub sge_zero : (k v : ℕ) → compares k Predicate.sge v 0 ≡ ltb v (2 ^ k)
unfolding compares
sge_zero k v = ground (arith, pow_pos k)

abbrev pub IsLowered : Predicate → Type 0
IsLowered p = (p ≡ Predicate.ult) ⊎ (p ≡ Predicate.ule)

-- With different sign bits the signed comparison is decided by them.
pub signed_neg_pos :
    (k : ℕ) (p : Predicate) (a b : ℕ)
    → IsLowered p
    → ltb a (2 ^ k) ≡ false
    → ltb b (2 ^ k) ≡ true
    → compares k (signed_predicate p) a b ≡ true
unfolding compares signed_predicate
signed_neg_pos k p a b h ha hb = ground arith

pub signed_pos_neg :
    (k : ℕ) (p : Predicate) (a b : ℕ)
    → IsLowered p
    → ltb a (2 ^ k) ≡ true
    → ltb b (2 ^ k) ≡ false
    → compares k (signed_predicate p) a b ≡ false
unfolding compares signed_predicate
signed_pos_neg k p a b h ha hb = ground arith

-- With equal sign bits the signed and the unsigned comparison agree.
pub signed_same :
    (k : ℕ) (p : Predicate) (a b : ℕ)
    → IsLowered p
    → a < 2 ^ k + 2 ^ k
    → b < 2 ^ k + 2 ^ k
    → ltb a (2 ^ k) ≡ ltb b (2 ^ k)
    → compares k (signed_predicate p) a b ≡ compares k p a b
unfolding compares signed_predicate
signed_same k p a b h ha hb e = ground arith

-- With different sign bits they differ.
pub signed_differs :
    (k : ℕ) (p : Predicate) (a b : ℕ)
    → IsLowered p
    → compares k (signed_predicate p) a b ≡ compares k p a b
    → ltb a (2 ^ k) ≡ ltb b (2 ^ k)
unfolding compares signed_predicate
signed_differs k p a b h e = ground arith

pub unsigned_pos_neg :
    (k : ℕ) (p : Predicate) (a b : ℕ)
    → IsLowered p
    → ltb a (2 ^ k) ≡ true
    → ltb b (2 ^ k) ≡ false
    → compares k p a b ≡ true
unfolding compares
unsigned_pos_neg k p a b h ha hb = ground arith
