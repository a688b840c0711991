-- ===== src/PromoteAssume/Tests.antt =====
-- Tests of the pass, and witnesses: the blocks 0 and 1 of a function.
use crab_llvm.Prelude.{ℕ, ◌≡◌, ◌⊎◌, refl, Bool, true, false, some, none, List, [], ◌∷◌, ◌==◌}
use crab_llvm.PromoteAssume.{
  reg, call, llvm_assume, negation, Placed, at, kind_of, used, has_assume_users, is_call,
  promote_assumes,
}
use crab_llvm.PromoteAssume.Paths.{inst_holds, inst_negates, on_path}
use crab_llvm.PromoteAssume.Clear.{is_clear, all_clear, is_below, is_called}
use crab_llvm.PromoteAssume.Exact.{promote_assumes-holds}

abbrev code : List Placed
code =
    at 0 (call (some "verifier.assume") (reg 4))
    ∷ at 0 (call none (reg 5))
    ∷ at 1 (call (some "verifier.assume.not") (reg 3))
    ∷ []

abbrev new_code : List Placed
new_code =
    at 0 (llvm_assume (reg 4) true)
    ∷ at 0 (call none (reg 5))
    ∷ at 1 (negation 9 (reg 3))
    ∷ at 1 (llvm_assume (reg 9) true)
    ∷ []

promoted_test : promote_assumes [] 9 code ≡ (new_code, true)
unfolding promote_assumes kind_of
promoted_test = refl

-- The second call is dropped, though it stands in another block.
twice_test :
    promote_assumes [] 9 (
      at 0 (call (some "verifier.assume") (reg 4))
      ∷ at 1 (call (some "verifier.assume") (reg 4))
      ∷ [])
    ≡ (at 0 (llvm_assume (reg 4) true) ∷ [], true)
unfolding promote_assumes kind_of
twice_test = refl

-- A negated assumption is dropped too, where the operand itself is assumed.
lost_test :
    promote_assumes [] 9
      (at 0 (llvm_assume (reg 4) false) ∷ at 0 (call (some "verifier.assume.not") (reg 4)) ∷ [])
    ≡ (at 0 (llvm_assume (reg 4) false) ∷ [], true)
unfolding promote_assumes kind_of
lost_test = refl

-- From block 0 to block 1 and back, with the register 4 true, and 9 the negation of 3.
abbrev path : List (ℕ × (ℕ → Bool))
path = (0, λ r. r == 4) ∷ (1, λ r. r == 9) ∷ (0, λ r. r == 4) ∷ []

path_negates : on_path inst_negates (promote_assumes [] 9 code).0 path ≡ true
unfolding promote_assumes kind_of on_path inst_negates
path_negates = refl

-- The calls of the code are clear, so the second part is an equation.
code_clear : all_clear 9 (used [] [] code) code ≡ true
unfolding kind_of all_clear is_clear used has_assume_users is_call is_below is_called
code_clear = refl

promote_assumes-holds_example :
    ((on_path inst_holds code path ≡ false)
      ⊎ (on_path inst_holds (promote_assumes [] 9 code).0 path ≡ true))
    × ((all_clear 9 (used [] [] code) code ≡ false)
        ⊎ (on_path inst_holds (promote_assumes [] 9 code).0 path ≡ on_path inst_holds code path))
promote_assumes-holds_example = promote_assumes-holds [] 9 code path path_negates
