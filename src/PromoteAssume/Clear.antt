-- ===== src/PromoteAssume/Clear.antt =====
-- Functions whose calls assume different registers that no llvm.assume has: the pass drops none of
-- their calls.
use Prim.Native.String.{String}
use crab_llvm.Prelude.{
  ℕ, ◌≤◌, ◌≡◌, refl, sym, ◌∙◌, Bool, true, false, not, ◌&&◌, ◌||◌, Option, List, [], ◌∷◌, ◌++◌, map,
  arith, ltb, Bool-cases, inl, inr,
}
use crab_llvm.PromoteAssume.{
  Operand, const, reg, Inst, call, llvm_assume, negation, other_inst, Placed, at, same_operand,
  is_assume_of, has_assume_users, Kind, kind_of, used, promoted, new_code, is_call,
}
use crab_llvm.PromoteAssume.Paths.{has_assume_users-append}
use crab_llvm.PromoteAssume.Sound.{and_left, and_right, and_intro}

-- A register with a number below the next free one.
unfoldable pub is_below : ℕ → Operand → Bool
is_below n (const b) = false
is_below n (reg r) = ltb r n

-- A call of the verifier's assume with this argument.
unfoldable pub is_call_of : Operand → Inst → Bool
unfolding is_call same_operand
is_call_of a (call f x) = is_call (call f x) && same_operand x a
is_call_of a i = false

unfoldable pub is_called : Operand → List Placed → Bool
unfolding is_call_of
is_called a [] = false
is_called a (at b i ∷ code) = is_call_of a i || is_called a code

-- An instruction that is a call of the verifier's assume has a register that is not used and that
-- no later call has.
unfoldable pub is_clear : ℕ → (Operand → Bool) → Inst → List Placed → Bool
unfolding is_call is_called is_below
is_clear n uses (call f a) rest =
    not (is_call (call f a)) || (is_below n a && (not (uses a) && not (is_called a rest)))
is_clear n uses i rest = true

unfoldable pub all_clear : ℕ → (Operand → Bool) → List Placed → Bool
unfolding is_clear
all_clear n uses [] = true
all_clear n uses (at b i ∷ rest) = is_clear n uses i rest && all_clear n uses rest

same_operand_refl : (a : Operand) → same_operand a a ≡ true
unfolding same_operand
same_operand_refl (const true) = refl
same_operand_refl (const false) = refl
same_operand_refl (reg r) = ground arith

same_operand-eq : (a b : Operand) → same_operand a b ≡ true → a ≡ b
unfolding same_operand
same_operand-eq (const a) (const b) h = ground arith
same_operand-eq (const a) (reg q) h = ground arith
same_operand-eq (reg r) (const b) h = ground arith
same_operand-eq (reg r) (reg q) h = ground arith

or_left : (p q : Bool) → p ≡ true → p || q ≡ true
or_left p q e = ground arith

or_right : (p q : Bool) → q ≡ true → p || q ≡ true
or_right p q e = ground arith

or_false : (p q : Bool) → p || q ≡ false → (p ≡ false) × (q ≡ false)
or_false p q e = ground arith

or_intro : (p q : Bool) → p ≡ false → q ≡ false → p || q ≡ false
or_intro p q e f = ground arith

clear_inst :
    (n : ℕ) (uses uses' : Operand → Bool) (i : Inst) (rest : List Placed)
    → ((x : Operand)
        → is_below n x ≡ true
        → uses x ≡ false
        → is_call_of x i ≡ true
        → uses' x ≡ false)
    → is_clear n uses i rest ≡ true
    → is_clear n uses' i rest ≡ true
unfolding is_clear is_call_of
clear_inst n uses uses' (call f a) rest same h = ground (arith, same a, same_operand_refl a)
clear_inst n uses uses' (llvm_assume a m) rest same h = refl
clear_inst n uses uses' (negation r a) rest same h = refl
clear_inst n uses uses' other_inst rest same h = refl

-- Uses that do not matter to the calls of some code.
all_clear-weaken :
    (n : ℕ) (uses uses' : Operand → Bool) (rest : List Placed)
    → ((x : Operand)
        → is_below n x ≡ true
        → uses x ≡ false
        → is_called x rest ≡ true
        → uses' x ≡ false)
    → all_clear n uses rest ≡ true
    → all_clear n uses' rest ≡ true
unfolding all_clear is_called
all_clear-weaken n uses uses' [] same h = refl
all_clear-weaken n uses uses' (at b i ∷ rest) same h =
    and_intro _ _
      (clear_inst n uses uses' i rest
        (λ x below unused called. same x below unused (or_left _ _ called)) (and_left _ _ h))
      (all_clear-weaken n uses uses' rest
        (λ x below unused called. same x below unused (or_right _ _ called)) (and_right _ _ h))

-- A call behind has another operand.
other_operand :
    (a x : Operand) (rest : List Placed)
    → is_called a rest ≡ false
    → is_called x rest ≡ true
    → same_operand x a ≡ false
other_operand a x rest h k = elim (Bool-cases (same_operand x a)) [
  | inl e ↦ absurd (differ (sym (rw (same_operand-eq x a e) at k) ∙ h))
  | inr e ↦ e
]
  where
    differ : ¬ (true ≡ false)
    differ q = ground arith

-- The new code for a call has an llvm.assume of its operand, of a constant or of a new register.
promoted-unused :
    (n next c : ℕ) (u : Bool) (k : Kind) (f : Option String) (a x : Operand)
    → n ≤ next
    → is_below n x ≡ true
    → (k ≡ Kind.assume → same_operand x a ≡ false)
    → has_assume_users x (map (at c) (promoted next u k f a).0) ≡ false
unfolding promoted has_assume_users is_assume_of same_operand is_below
promoted-unused n next c u Kind.no_assume f a x le below d = refl
promoted-unused n next c true Kind.assume f a x le below d = refl
promoted-unused n next c false Kind.assume f a x le below d = or_intro _ _ (d refl) refl
promoted-unused n next c true Kind.assume_not f a x le below d = refl
promoted-unused n next c false Kind.assume_not f (const b) (const v) le below d = ground arith
promoted-unused n next c false Kind.assume_not f (const b) (reg q) le below d = refl
promoted-unused n next c false Kind.assume_not f (reg r) (const v) le below d = refl
promoted-unused n next c false Kind.assume_not f (reg r) (reg q) le below d = ground arith

assume-is_call :
    (f : Option String) (a : Operand) → kind_of f ≡ Kind.assume → is_call (call f a) ≡ true
unfolding is_call
assume-is_call f a e = rw (is_call, e) refl

new_code-unused :
    (n next c : ℕ) (u : Bool) (uses : Operand → Bool) (i : Inst) (rest : List Placed) (x : Operand)
    → n ≤ next
    → is_below n x ≡ true
    → is_assume_of x i ≡ false
    → is_clear n uses i rest ≡ true
    → is_called x rest ≡ true
    → has_assume_users x (map (at c) (new_code next u i).0) ≡ false
unfolding new_code has_assume_users is_clear
new_code-unused n next c u uses (call f a) rest x le below no_user clear called =
    promoted-unused n next c u (kind_of f) f a x le below
      (λ e. other_operand a x rest (not_called (assume-is_call f a e) clear) called)
  where
    not_called :
        is_call (call f a) ≡ true
        → not (is_call (call f a)) || (is_below n a && (not (uses a) && not (is_called a rest)))
          ≡ true
        → is_called a rest ≡ false
    not_called e h = ground arith
new_code-unused n next c u uses (llvm_assume a m) rest x le below no_user clear called =
    or_intro _ _ no_user refl
new_code-unused n next c u uses (negation r a) rest x le below no_user clear called =
    or_intro _ _ no_user refl
new_code-unused n next c u uses other_inst rest x le below no_user clear called =
    or_intro _ _ no_user refl

-- The calls behind stay clear.
pub all_clear-step :
    (others : List Placed) (n next c : ℕ) (u : Bool) (done : List Placed) (i : Inst)
    (rest : List Placed)
    → n ≤ next
    → all_clear n (used others done (at c i ∷ rest)) (at c i ∷ rest) ≡ true
    → all_clear n (used others (done ++ map (at c) (new_code next u i).0) rest) rest ≡ true
unfolding all_clear used has_assume_users
all_clear-step others n next c u done i rest le h =
    all_clear-weaken n (used others done (at c i ∷ rest)) _ rest
      (λ x below unused called.
        let (in_others, here) = or_false _ _ unused in
        let (in_done, behind) = or_false _ _ here in
        let (at_i, in_rest) = or_false _ _ behind in
        or_intro _ _ in_others (
          or_intro _ _
            (has_assume_users-append x done (map (at c) (new_code next u i).0)
              ∙ or_intro _ _ in_done
                  (new_code-unused n next c u _ i rest x le below at_i (and_left _ _ h) called))
            in_rest))
      (and_right _ _ h)
