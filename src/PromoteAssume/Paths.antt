-- ===== src/PromoteAssume/Paths.antt =====
-- What the code of a function assumes on a path through its blocks.
use crab_llvm.Prelude.{
  ℕ, ◌≡◌, inl, inr, refl, Bool, true, not, ◌&&◌, ◌||◌, List, [], ◌∷◌, ◌++◌, map, Bool-cases, arith,
  bool_eq, ◌==◌, if◌then◌else◌,
}
use crab_llvm.PromoteAssume.{
  Operand, const, reg, Inst, call, llvm_assume, negation, Placed, at, has_assume_users, Kind,
  kind_of,
}

-- The value of an operand at a visit of a block, where every register has one value.
unfoldable pub value : (ℕ → Bool) → Operand → Bool
value σ (const b) = b
value σ (reg r) = σ r

unfoldable pub assumed : (ℕ → Bool) → Kind → Operand → Bool
unfolding value
assumed σ Kind.no_assume a = true
assumed σ Kind.assume a = value σ a
assumed σ Kind.assume_not a = not (value σ a)

-- What an instruction assumes, and what it defines.
unfoldable pub inst_holds : (ℕ → Bool) → Inst → Bool
unfolding assumed
inst_holds σ (call f a) = assumed σ (kind_of f) a
inst_holds σ (llvm_assume a marked) = value σ a
inst_holds σ i = true

unfoldable pub inst_negates : (ℕ → Bool) → Inst → Bool
unfolding value
inst_negates σ (negation r a) = bool_eq (σ r) (not (value σ a))
inst_negates σ i = true

unfoldable pub all_of : (Inst → Bool) → List Inst → Bool
all_of p [] = true
all_of p (i ∷ code) = p i && all_of p code

-- The instructions of a block.
unfoldable pub block_code : ℕ → List Placed → List Inst
block_code b [] = []
block_code b (at c i ∷ code) = if b == c then i ∷ block_code b code else block_code b code

-- All assumptions of a path hold, and all negations on it have their values: a path is the list of
-- the visits, each of a block with the values of the registers there.
unfoldable pub on_path : ((ℕ → Bool) → Inst → Bool) → List Placed → List (ℕ × (ℕ → Bool)) → Bool
unfolding all_of block_code
on_path p code [] = true
on_path p code ((b, σ) ∷ path) = all_of (p σ) (block_code b code) && on_path p code path

pub all_of-append :
    (p : Inst → Bool) (xs ys : List Inst) → all_of p (xs ++ ys) ≡ all_of p xs && all_of p ys
unfolding all_of
all_of-append p [] ys = refl
all_of-append p (i ∷ xs) ys = ground (arith, all_of-append p xs ys)

block_code-append :
    (b : ℕ) (xs ys : List Placed) → block_code b (xs ++ ys) ≡ block_code b xs ++ block_code b ys
unfolding block_code
block_code-append b [] ys = refl
block_code-append b (at c i ∷ xs) ys = elim (Bool-cases (b == c)) [
  | inl e ↦ rw (e, block_code-append b xs ys) refl
  | inr e ↦ rw (e, block_code-append b xs ys) refl
]

pub has_assume_users-append :
    (a : Operand) (xs ys : List Placed)
    → has_assume_users a (xs ++ ys) ≡ has_assume_users a xs || has_assume_users a ys
unfolding has_assume_users
has_assume_users-append a [] ys = refl
has_assume_users-append a (at c i ∷ xs) ys = ground (arith, has_assume_users-append a xs ys)

-- A test of all instructions that the code of one block adds.
unfoldable pub in_block : (Inst → Bool) → ℕ → List Placed → Bool
in_block p b code = all_of p (block_code b code)

pub in_block-append :
    (p : Inst → Bool) (b : ℕ) (xs ys : List Placed)
    → in_block p b (xs ++ ys) ≡ in_block p b xs && in_block p b ys
unfolding in_block
in_block-append p b xs ys = rw block_code-append (all_of-append p _ _)

pub in_block-map :
    (p : Inst → Bool) (b c : ℕ) (code : List Inst)
    → in_block p b (map (at c) code) ≡ (if b == c then all_of p code else true)
unfolding in_block block_code all_of
in_block-map p b c [] = elim (Bool-cases (b == c)) [ inl e ↦ rw e refl | inr e ↦ rw e refl ]
in_block-map p b c (i ∷ code) = ground (arith, in_block-map p b c code)

pub in_block-cons :
    (p : Inst → Bool) (b c : ℕ) (i : Inst) (code : List Placed)
    → in_block p b (at c i ∷ code) ≡ (if b == c then p i else true) && in_block p b code
unfolding in_block block_code all_of
in_block-cons p b c i code = ground arith
