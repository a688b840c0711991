-- ===== src/PromoteAssume/Sound.antt =====
-- The pass adds no assumption.
use Prim.Native.String.{String}
use crab_llvm.Prelude.{
  ℕ, ◌≡◌, refl, sym, ◌∙◌, Bool, true, false, ◌&&◌, Option, List, [], ◌∷◌, ◌++◌, map, arith, ◌==◌,
  if◌then◌else◌, Bool-cases, inl, inr,
}
use crab_llvm.PromoteAssume.{
  Operand, const, reg, Inst, call, llvm_assume, negation, other_inst, Placed, at, Kind, kind_of,
  is_used, promoted, new_code, promote,
}
use crab_llvm.PromoteAssume.Paths.{
  value, assumed, inst_holds, inst_negates, all_of, block_code, on_path, in_block, in_block-append,
  in_block-map, in_block-cons,
}

-- What replaces an instruction assumes nothing that the instruction does not.
promoted-holds :
    (σ : ℕ → Bool) (next : ℕ) (u : Bool) (k : Kind) (f : Option String) (a : Operand)
    → kind_of f ≡ k
    → all_of (inst_negates σ) (promoted next u k f a).0 ≡ true
    → assumed σ k a ≡ true
    → all_of (inst_holds σ) (promoted next u k f a).0 ≡ true
unfolding promoted all_of inst_negates inst_holds assumed value
promoted-holds σ next u Kind.no_assume f a e n h = rw e refl
promoted-holds σ next true Kind.assume f a e n h = refl
promoted-holds σ next false Kind.assume f a e n h = rw h refl
promoted-holds σ next true Kind.assume_not f a e n h = refl
promoted-holds σ next false Kind.assume_not f (const b) e n h = rw h refl
promoted-holds σ next false Kind.assume_not f (reg r) e n h = ground arith

new_code-holds :
    (σ : ℕ → Bool) (next : ℕ) (u : Bool) (i : Inst)
    → all_of (inst_negates σ) (new_code next u i).0 ≡ true
    → inst_holds σ i ≡ true
    → all_of (inst_holds σ) (new_code next u i).0 ≡ true
unfolding new_code all_of inst_holds
new_code-holds σ next u (call f a) n h = promoted-holds σ next u (kind_of f) f a refl n h
new_code-holds σ next u (llvm_assume a m) n h = rw h refl
new_code-holds σ next u (negation r a) n h = refl
new_code-holds σ next u other_inst n h = refl

pub and_left : (a b : Bool) → a && b ≡ true → a ≡ true
and_left a b h = ground arith

pub and_right : (a b : Bool) → a && b ≡ true → b ≡ true
and_right a b h = ground arith

pub and_intro : (a b : Bool) → a ≡ true → b ≡ true → a && b ≡ true
and_intro a b h k = ground arith

module _ (others : List Placed) (b : ℕ) (σ : ℕ → Bool) where
  -- The negations of the code so far stay in the new code.
  pub negates-promote :
      (next : ℕ) (done rest : List Placed)
      → in_block (inst_negates σ) b (promote others next done rest) ≡ true
      → in_block (inst_negates σ) b done ≡ true
  unfolding promote
  negates-promote next done [] h = h
  negates-promote next done (at c i ∷ rest) h =
      let new = new_code next (is_used others done rest i) i in
      and_left _ _ (
        sym (in_block-append (inst_negates σ) b done (map (at c) new.0))
        ∙ negates-promote new.1 (done ++ map (at c) new.0) rest h)

  -- The new code of one instruction has its negations.
  pub negates-new_code :
      (next c : ℕ) (done : List Placed) (i : Inst) (rest : List Placed)
      → in_block (inst_negates σ) b (promote others next done (at c i ∷ rest)) ≡ true
      → (b == c) ≡ true
      → all_of (inst_negates σ) (new_code next (is_used others done rest i) i).0 ≡ true
  unfolding promote
  negates-new_code next c done i rest h e =
      let new = (new_code next (is_used others done rest i) i).0 in
      let kept : in_block (inst_negates σ) b (map (at c) new) ≡ true =
        and_right (in_block (inst_negates σ) b done) _ (
          sym (in_block-append (inst_negates σ) b done (map (at c) new))
          ∙ negates-promote (new_code next (is_used others done rest i) i).1 _ rest h) in
      rw e at (sym (in_block-map (inst_negates σ) b c new) ∙ kept)

  holds-step :
      (c : ℕ) (i : Inst) (new : List Inst)
      → ((b == c) ≡ true → all_of (inst_negates σ) new ≡ true)
      → ((all_of (inst_negates σ) new ≡ true)
          → inst_holds σ i ≡ true
          → all_of (inst_holds σ) new ≡ true)
      → (if b == c then inst_holds σ i else true) ≡ true
      → in_block (inst_holds σ) b (map (at c) new) ≡ true
  holds-step c i new n sound h = elim (Bool-cases (b == c)) [
    | inl e ↦ in_block-map (inst_holds σ) b c new ∙ rw e (sound (n e) (rw e at h))
    | inr e ↦ in_block-map (inst_holds σ) b c new ∙ rw e refl
  ]

  holds-promote :
      (next : ℕ) (done rest : List Placed)
      → in_block (inst_negates σ) b (promote others next done rest) ≡ true
      → in_block (inst_holds σ) b done ≡ true
      → in_block (inst_holds σ) b rest ≡ true
      → in_block (inst_holds σ) b (promote others next done rest) ≡ true
  unfolding promote
  holds-promote next done [] n h k = h
  holds-promote next done (at c i ∷ rest) n h k =
      let new = new_code next (is_used others done rest i) i in
      let split = sym (in_block-cons (inst_holds σ) b c i rest) ∙ k in
      let step =
        holds-step c i new.0 (negates-new_code next c done i rest n)
          (new_code-holds σ next (is_used others done rest i) i) (and_left _ _ split) in
      holds-promote new.1 (done ++ map (at c) new.0) rest n
        (in_block-append (inst_holds σ) b done (map (at c) new.0) ∙ rw (h, step) refl)
        (and_right _ _ split)

block_holds :
    (others : List Placed) (next : ℕ) (code : List Placed) (b : ℕ) (σ : ℕ → Bool)
    → all_of (inst_negates σ) (block_code b (promote others next [] code)) ≡ true
    → all_of (inst_holds σ) (block_code b code) ≡ true
    → all_of (inst_holds σ) (block_code b (promote others next [] code)) ≡ true
unfolding in_block all_of block_code
block_holds others next code b σ n h = holds-promote others b σ next [] code n refl h

-- Where all assumptions of a path hold, those of the new code do.
pub path_holds :
    (others : List Placed) (next : ℕ) (code : List Placed) (path : List (ℕ × (ℕ → Bool)))
    → on_path inst_negates (promote others next [] code) path ≡ true
    → on_path inst_holds code path ≡ true
    → on_path inst_holds (promote others next [] code) path ≡ true
unfolding on_path
path_holds others next code [] n h = refl
path_holds others next code ((b, σ) ∷ path) n h =
    and_intro _ _ (block_holds others next code b σ (and_left _ _ n) (and_left _ _ h))
      (path_holds others next code path (and_right _ _ n) (and_right _ _ h))
