-- ===== src/PromoteAssume/Exact.antt =====
-- The assumptions on the paths of a function before and after the pass.
use Prim.Native.String.{String}
use crab_llvm.Prelude.{
  ℕ, ◌≤◌, ◌≡◌, refl, sym, ap, ◌∙◌, Bool, true, false, ◌&&◌, Option, List, [], ◌∷◌, ◌++◌, map, arith,
  ◌==◌, if◌then◌else◌, Bool-cases, ◌⊎◌, inl, inr,
}
use crab_llvm.PromoteAssume.{
  Operand, const, reg, Inst, call, llvm_assume, negation, other_inst, Placed, at, is_assume_of,
  has_assume_users, Kind, kind_of, used, is_used, promoted, new_code, promote, is_call,
  promote_assumes,
}
use crab_llvm.PromoteAssume.Paths.{
  value, assumed, inst_holds, inst_negates, all_of, block_code, on_path, in_block, in_block-append,
  in_block-map, in_block-cons,
}
use crab_llvm.PromoteAssume.Sound.{and_left, and_right, negates-new_code, path_holds}
use crab_llvm.PromoteAssume.Clear.{is_clear, all_clear, all_clear-step}

-- What replaces an instruction assumes the same, where a call is not dropped.
promoted-exact :
    (σ : ℕ → Bool) (next : ℕ) (k : Kind) (f : Option String) (a : Operand)
    → kind_of f ≡ k
    → all_of (inst_negates σ) (promoted next false k f a).0 ≡ true
    → all_of (inst_holds σ) (promoted next false k f a).0 ≡ assumed σ k a
unfolding promoted all_of inst_negates inst_holds assumed value
promoted-exact σ next Kind.no_assume f a e n = rw e refl
promoted-exact σ next Kind.assume f a e n = ground arith
promoted-exact σ next Kind.assume_not f (const b) e n = ground arith
promoted-exact σ next Kind.assume_not f (reg r) e n = ground arith

kept_call :
    (σ : ℕ → Bool) (next : ℕ) (u : Bool) (k : Kind) (f : Option String) (a : Operand)
    → kind_of f ≡ k
    → (is_call (call f a) ≡ true → u ≡ false)
    → (promoted next u k f a).0 ≡ (promoted next false k f a).0
unfolding is_call promoted
kept_call σ next u Kind.no_assume f a e h = refl
kept_call σ next u Kind.assume f a e h = rw (h (rw (is_call, e) refl)) refl
kept_call σ next u Kind.assume_not f a e h = rw (h (rw (is_call, e) refl)) refl

new_code-exact :
    (σ : ℕ → Bool) (next : ℕ) (u : Bool) (i : Inst)
    → (is_call i ≡ true → u ≡ false)
    → all_of (inst_negates σ) (new_code next u i).0 ≡ true
    → all_of (inst_holds σ) (new_code next u i).0 ≡ inst_holds σ i
unfolding new_code all_of inst_holds
new_code-exact σ next u (call f a) h n =
    let same = kept_call σ next u (kind_of f) f a refl h in
    rw same (promoted-exact σ next (kind_of f) f a refl (rw same at n))
new_code-exact σ next u (llvm_assume a m) h n = ground arith
new_code-exact σ next u (negation r a) h n = refl
new_code-exact σ next u other_inst h n = refl

clear_call :
    (others : List Placed) (n c : ℕ) (done : List Placed) (i : Inst) (rest : List Placed)
    → is_clear n (used others done (at c i ∷ rest)) i rest ≡ true
    → is_call i ≡ true
    → is_used others done rest i ≡ false
unfolding is_clear is_used used has_assume_users is_assume_of is_call
clear_call others n c done (call f a) rest h e = ground arith
clear_call others n c done (llvm_assume a m) rest h e = refl
clear_call others n c done (negation r a) rest h e = refl
clear_call others n c done other_inst rest h e = refl

promoted-le :
    (n next : ℕ) (u : Bool) (k : Kind) (f : Option String) (a : Operand)
    → n ≤ next
    → n ≤ (promoted next u k f a).1
unfolding promoted
promoted-le n next u Kind.no_assume f a le = le
promoted-le n next true Kind.assume f a le = le
promoted-le n next false Kind.assume f a le = le
promoted-le n next true Kind.assume_not f a le = le
promoted-le n next false Kind.assume_not f (const b) le = le
promoted-le n next false Kind.assume_not f (reg r) le = omega arith

new_code-le : (n next : ℕ) (u : Bool) (i : Inst) → n ≤ next → n ≤ (new_code next u i).1
unfolding new_code
new_code-le n next u (call f a) le = promoted-le n next u (kind_of f) f a le
new_code-le n next u (llvm_assume a m) le = le
new_code-le n next u (negation r a) le = le
new_code-le n next u other_inst le = le

and_assoc : (a b c : Bool) → (a && b) && c ≡ a && (b && c)
and_assoc a b c = ground arith

and_true : (a : Bool) → a ≡ a && true
and_true a = ground arith

module _ (others : List Placed) (n b : ℕ) (σ : ℕ → Bool) where
  step-exact :
      (c : ℕ) (i : Inst) (new : List Inst)
      → ((b == c) ≡ true → all_of (inst_holds σ) new ≡ inst_holds σ i)
      → in_block (inst_holds σ) b (map (at c) new) ≡ (if b == c then inst_holds σ i else true)
  step-exact c i new same = elim (Bool-cases (b == c)) [
    | inl e ↦ in_block-map (inst_holds σ) b c new ∙ rw e (same e)
    | inr e ↦ in_block-map (inst_holds σ) b c new ∙ rw e refl
  ]

  exact-promote :
      (next : ℕ) (done rest : List Placed)
      → n ≤ next
      → all_clear n (used others done rest) rest ≡ true
      → in_block (inst_negates σ) b (promote others next done rest) ≡ true
      → in_block (inst_holds σ) b (promote others next done rest)
        ≡ in_block (inst_holds σ) b done && in_block (inst_holds σ) b rest
  unfolding promote
  exact-promote next done [] le h k = unfold in_block block_code all_of in and_true _
  exact-promote next done (at c i ∷ rest) le h k =
      let u = is_used others done rest i in
      let new = new_code next u i in
      let clear : is_clear n (used others done (at c i ∷ rest)) i rest ≡ true =
        unfold all_clear in and_left _ _ h in
      let same = step-exact c i new.0 (λ e.
        new_code-exact σ next u i (clear_call others n c done i rest clear)
          (negates-new_code others b σ next c done i rest k e)) in
      exact-promote new.1 (done ++ map (at c) new.0) rest (new_code-le n next u i le)
        (all_clear-step others n next c u done i rest le h) k
      ∙ ap (λ t. t && in_block (inst_holds σ) b rest)
          (in_block-append (inst_holds σ) b done (map (at c) new.0))
      ∙ and_assoc (in_block (inst_holds σ) b done) (in_block (inst_holds σ) b (map (at c) new.0))
          (in_block (inst_holds σ) b rest)
      ∙ ap (λ t. in_block (inst_holds σ) b done && (t && in_block (inst_holds σ) b rest)) same
      ∙ ap (λ t. in_block (inst_holds σ) b done && t)
          (sym (in_block-cons (inst_holds σ) b c i rest))

block_exact :
    (others : List Placed) (next : ℕ) (code : List Placed) (b : ℕ) (σ : ℕ → Bool)
    → all_clear next (used others [] code) code ≡ true
    → all_of (inst_negates σ) (block_code b (promote others next [] code)) ≡ true
    → all_of (inst_holds σ) (block_code b (promote others next [] code))
      ≡ all_of (inst_holds σ) (block_code b code)
unfolding in_block all_of block_code
block_exact others next code b σ clear n =
    exact-promote others next b σ next [] code (omega arith) clear n

path_exact :
    (others : List Placed) (next : ℕ) (code : List Placed) (path : List (ℕ × (ℕ → Bool)))
    → all_clear next (used others [] code) code ≡ true
    → on_path inst_negates (promote others next [] code) path ≡ true
    → on_path inst_holds (promote others next [] code) path ≡ on_path inst_holds code path
unfolding on_path
path_exact others next code [] clear n = refl
path_exact others next code ((b, σ) ∷ path) clear n =
    ap (λ t. t && on_path inst_holds (promote others next [] code) path)
      (block_exact others next code b σ clear (and_left _ _ n))
    ∙ ap (λ t. all_of (inst_holds σ) (block_code b code) && t)
        (path_exact others next code path clear (and_right _ _ n))

-- On every path on which the negations of the new code have their values: where all assumptions of
-- the code hold, those of the new code do; and the two hold on the same paths, if the calls of
-- verifier.assume and verifier.assume.not have different registers, none of them in an llvm.assume
-- of the module.
pub promote_assumes-holds :
    (others : List Placed) (next : ℕ) (code : List Placed) (path : List (ℕ × (ℕ → Bool)))
    → on_path inst_negates (promote_assumes others next code).0 path ≡ true
    → ((on_path inst_holds code path ≡ false)
        ⊎ (on_path inst_holds (promote_assumes others next code).0 path ≡ true))
      × ((all_clear next (used others [] code) code ≡ false)
          ⊎ (on_path inst_holds (promote_assumes others next code).0 path
              ≡ on_path inst_holds code path))
unfolding promote_assumes
promote_assumes-holds others next code path n = (
  elim (Bool-cases (on_path inst_holds code path)) [
    | inl e ↦ inr (path_holds others next code path n e)
    | inr e ↦ inl e
  ],
  elim (Bool-cases (all_clear next (used others [] code) code)) [
    | inl e ↦ inr (path_exact others next code path e n)
    | inr e ↦ inl e
  ],
)
