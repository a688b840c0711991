-- ===== src/Devirt/Blocks.antt =====
-- mkBounceFn: the blocks of a bounce function, and a run of them. The blocks pass the arguments on
-- to the function that they call, and return its result.
use crab_llvm.Prelude.{
  ℕ, zero, suc, Bool, true, false, Option, none, some, List, [], ◌∷◌, ◌++◌, ◌==◌, if◌then◌else◌,
  length, get_elem?,
}
use crab_llvm.Devirt.Defs.{Function}

-- The blocks behind the entry, known by their positions; none is a null pointer.
pub data Block : Type 0 where
  direct_call : Function → Block
  return_only call_pointer fail : Block
  test : Function → Option ℕ → ℕ → Block

-- The type of the first argument, the block that the entry jumps to, and the blocks behind it.
pub record Bounce : Type 0 where
  pub pointer_type : ℕ
  pub first : ℕ
  pub blocks : List Block

-- The block that calls each target, and the map from targets to them.
unfoldable pub add_calls : List Function → List Block → List (ℕ × ℕ) → List Block × List (ℕ × ℕ)
add_calls [] blocks map = (blocks, map)
add_calls (f ∷ fs) blocks map =
    add_calls fs (blocks ++ direct_call f ∷ []) ((f.address, length blocks) ∷ map)

unfoldable pub block_of : ℕ → List (ℕ × ℕ) → Option ℕ
block_of a [] = none
block_of a ((b, l) ∷ map) = if a == b then some l else block_of a map

unfoldable pub default_block : Bool → Bool → Block
default_block true true = return_only
default_block true false = call_pointer
default_block false is_void = fail

-- The block that tests each target, and the one to test first.
unfoldable pub add_tests : List (ℕ × ℕ) → List Function → ℕ → List Block → List Block × ℕ
unfolding block_of
add_tests map [] tail blocks = (blocks, tail)
add_tests map (f ∷ fs) tail blocks =
    add_tests map fs (length blocks) (blocks ++ test f (block_of f.address map) tail ∷ [])

-- m_allowIndirectCalls, the type of the pointer, whether the call's type is void, and the targets.
unfoldable pub bounce_code : Bool → ℕ → Bool → List Function → Bounce
unfolding add_calls default_block add_tests
bounce_code allow_indirect_calls t is_void targets =
    let (calls, map) = add_calls targets [] [] in
    let (blocks, tail) =
      add_tests map targets (length calls)
        (calls ++ default_block allow_indirect_calls is_void ∷ []) in
    record { pointer_type = t; first = tail; blocks = blocks }

-- What a run ends with: a call of the function at an address, a return without a call, or
-- undefined behaviour.
pub data Outcome : Type 0 where
  called : ℕ → Outcome
  returned unreachable : Outcome

-- From a block, for a pointer; none where the fuel runs out or there is no block.
unfoldable pub run : ℕ → List Block → ℕ → ℕ → Option Outcome
run zero blocks l p = none
run (suc n) blocks l p = elim (get_elem? blocks l) [
  | none ↦ none
  | some (direct_call f) ↦ some (called f.address)
  | some return_only ↦ some returned
  | some call_pointer ↦ some (called p)
  | some fail ↦ some unreachable
  | some (test f none tail) ↦ if f.address == p then none else run n blocks tail p
  | some (test f (some l') tail) ↦ if f.address == p then run n blocks l' p else run n blocks tail p
]

unfoldable pub run_bounce : ℕ → Bounce → ℕ → Option Outcome
unfolding run
run_bounce n b p = run n b.blocks b.first p
