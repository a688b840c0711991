-- ===== src/PromoteAssume.antt =====
-- lib/Transforms/PromoteAssume.cc: calls of the verifier's assume become calls of llvm.assume.
pub mod Paths
pub mod Sound
pub mod Clear
pub mod Exact
mod Tests
use Prim.Native.String.{String}
use text.Mathlib.Text.{◌==◌ as same_name}
use crab_llvm.Prelude.{
  ℕ, suc, Bool, true, false, not, ◌||◌, Option, none, some, List, [], ◌∷◌, ◌++◌, ◌==◌,
  if◌then◌else◌, bool_eq, map,
}

-- A register has a number that no other function of the module uses; a constant is one value for
-- all functions.
pub data Operand : Type 0 where
  const : Bool → Operand
  reg : ℕ → Operand

-- A call names its callee, if it is known, and its first argument; the flag of an llvm.assume says
-- that the pass inserted it; negation defines a register.
pub data Inst : Type 0 where
  call : Option String → Operand → Inst
  llvm_assume : Operand → Bool → Inst
  negation : ℕ → Operand → Inst
  other_inst : Inst

-- An instruction with the number of its block.
pub data Placed : Type 0 where
  at : ℕ → Inst → Placed

unfoldable pub same_operand : Operand → Operand → Bool
same_operand (const a) (const b) = bool_eq a b
same_operand (reg r) (reg q) = r == q
same_operand _ _ = false

unfoldable pub is_assume_of : Operand → Inst → Bool
unfolding same_operand
is_assume_of a (llvm_assume b marked) = same_operand a b
is_assume_of a i = false

-- hasAssumeUsers, for the users in some code.
unfoldable pub has_assume_users : Operand → List Placed → Bool
unfolding is_assume_of
has_assume_users a [] = false
has_assume_users a (at b i ∷ code) = is_assume_of a i || has_assume_users a code

-- What a call assumes: nothing, its argument, or its negation.
pub data Kind : Type 0 where
  no_assume assume assume_not : Kind

unfoldable pub kind_of : Option String → Kind
kind_of none = Kind.no_assume
kind_of (some n) =
    if same_name n "verifier.assume"
    then Kind.assume
    else if same_name n "verifier.assume.not"
    then Kind.assume_not
    else Kind.no_assume

-- All users of an operand: in the other functions of the module, and in this one before and behind
-- the instruction that is looked at.
unfoldable pub used : List Placed → List Placed → List Placed → Operand → Bool
unfolding has_assume_users
used others done rest a =
    has_assume_users a others || (has_assume_users a done || has_assume_users a rest)

unfoldable pub is_used : List Placed → List Placed → List Placed → Inst → Bool
unfolding used
is_used others done rest (call f a) = used others done rest a
is_used others done rest i = false

-- What a call becomes, with the next free register: nothing where its argument has an llvm.assume.
-- CreateNot folds a constant.
unfoldable pub promoted : ℕ → Bool → Kind → Option String → Operand → List Inst × ℕ
promoted next u Kind.no_assume f a = (call f a ∷ [], next)
promoted next true Kind.assume f a = ([], next)
promoted next false Kind.assume f a = (llvm_assume a true ∷ [], next)
promoted next true Kind.assume_not f a = ([], next)
promoted next false Kind.assume_not f (const b) = (llvm_assume (const (not b)) true ∷ [], next)
promoted next false Kind.assume_not f (reg r) =
    (negation next (reg r) ∷ llvm_assume (reg next) true ∷ [], suc next)

unfoldable pub new_code : ℕ → Bool → Inst → List Inst × ℕ
unfolding promoted kind_of
new_code next u (call f a) = promoted next u (kind_of f) f a
new_code next u i = (i ∷ [], next)

-- The loop over the instructions of all blocks: those before, with the new ones, and those behind.
unfoldable pub promote : List Placed → ℕ → List Placed → List Placed → List Placed
unfolding is_used new_code
promote others next done [] = done
promote others next done (at b i ∷ rest) =
    let made = new_code next (is_used others done rest i) i in
    promote others made.1 (done ++ map (at b) made.0) rest

-- A call of the verifier's assume is in the code.
unfoldable pub is_call : Inst → Bool
unfolding kind_of
is_call (call f a) = elim (kind_of f) [ Kind.no_assume ↦ false | _ ↦ true ]
is_call i = false

unfoldable pub has_calls : List Placed → Bool
unfolding is_call
has_calls [] = false
has_calls (at b i ∷ code) = is_call i || has_calls code

-- The new function, and whether it changed.
unfoldable pub promote_assumes : List Placed → ℕ → List Placed → List Placed × Bool
unfolding promote has_calls
promote_assumes others next code = (promote others next [] code, has_calls code)
