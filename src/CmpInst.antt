-- ===== src/CmpInst.antt =====
-- LLVM's integer comparisons: the predicates, what they mean on bit patterns (LLVM's language
-- reference), and the instruction as the passes read it.
use crab_llvm.Prelude.{ℕ, ◌+◌, ◌-◌, ◌^◌, ◌≡◌, Bool, not, ltb, leb, ◌==◌, if◌then◌else◌, arith}
use crab_llvm.Prelude.Int.{ℤ, pos, negsuc, ltb_ℤ, leb_ℤ}

pub data Predicate : Type 0 where
  eq ne ugt uge ult ule sgt sge slt sle : Predicate

-- CmpInst::swapOperands also swaps the predicate.
unfoldable pub swap_predicate : Predicate → Predicate
swap_predicate Predicate.eq = Predicate.eq
swap_predicate Predicate.ne = Predicate.ne
swap_predicate Predicate.ugt = Predicate.ult
swap_predicate Predicate.uge = Predicate.ule
swap_predicate Predicate.ult = Predicate.ugt
swap_predicate Predicate.ule = Predicate.uge
swap_predicate Predicate.sgt = Predicate.slt
swap_predicate Predicate.sge = Predicate.sle
swap_predicate Predicate.slt = Predicate.sgt
swap_predicate Predicate.sle = Predicate.sge

-- ICmpInst::getSignedPredicate
unfoldable pub signed_predicate : Predicate → Predicate
signed_predicate Predicate.ugt = Predicate.sgt
signed_predicate Predicate.uge = Predicate.sge
signed_predicate Predicate.ult = Predicate.slt
signed_predicate Predicate.ule = Predicate.sle
signed_predicate p = p

-- A comparison over operands of some kind.
pub record Cmp {ℓ} (A : Type ℓ) : Type ℓ where
  pub predicate : Predicate
  pub op0 : A
  pub op1 : A

module _ {ℓ} {A : Type ℓ} where
  unfoldable pub swap_operands : Cmp A → Cmp A
  unfolding swap_predicate
  swap_operands c = record { predicate = swap_predicate c.predicate; op0 = c.op1; op1 = c.op0 }

-- The integer that a bit pattern below 2 ^ suc k stands for in two's complement.
abbrev pub signed_value : ℕ → ℕ → ℤ
signed_value k x = if ltb x (2 ^ k) then pos x else negsuc (2 ^ k + 2 ^ k - 1 - x)

-- The result of a comparison of two patterns of width suc k.
unfoldable pub compares : ℕ → Predicate → ℕ → ℕ → Bool
compares k Predicate.eq a b = a == b
compares k Predicate.ne a b = not (a == b)
compares k Predicate.ugt a b = ltb b a
compares k Predicate.uge a b = leb b a
compares k Predicate.ult a b = ltb a b
compares k Predicate.ule a b = leb a b
compares k Predicate.sgt a b = ltb_ℤ (signed_value k b) (signed_value k a)
compares k Predicate.sge a b = leb_ℤ (signed_value k b) (signed_value k a)
compares k Predicate.slt a b = ltb_ℤ (signed_value k a) (signed_value k b)
compares k Predicate.sle a b = leb_ℤ (signed_value k a) (signed_value k b)

pub compares-swap_predicate :
    (k : ℕ) (p : Predicate) (a b : ℕ) → compares k (swap_predicate p) b a ≡ compares k p a b
unfolding compares swap_predicate
compares-swap_predicate k Predicate.eq a b = ground arith
compares-swap_predicate k p a b = ground arith
