-- ===== src/PathAnalyzer/Slice.antt =====
-- remove_irrelevant_statements
use crab_llvm.Prelude.{
  ℕ, Bool, true, false, not, ◌&&◌, ◌||◌, Option, none, some, List, [], ◌∷◌, ◌++◌, ◌==◌,
  if◌then◌else◌, ◌>>=◌, get_elem?,
}
use mathlib.Core.List.{reverse}
use crab_llvm.PathAnalyzer.Defs.{Statement, Wrapper, Cfg, is_assume, is_bool_assume}

-- Crab's sets of variables, flat_killgen_domain, as lists: membership, difference and emptiness.
unfoldable pub member : ℕ → List ℕ → Bool
member x [] = false
member x (y ∷ ys) = x == y || member x ys

unfoldable pub meets : List ℕ → List ℕ → Bool
unfolding member
meets [] ys = false
meets (x ∷ xs) ys = member x ys || meets xs ys

unfoldable pub difference : List ℕ → List ℕ → List ℕ
unfolding member
difference [] ys = []
difference (x ∷ xs) ys = let rest = difference xs ys in if member x ys then rest else x ∷ rest

unfoldable pub is_empty : List ℕ → Bool
is_empty [] = true
is_empty (x ∷ xs) = false

-- What the backward traversal does at a statement: nothing, or keep it and go on with these
-- variables.
unfoldable pub relevance : Bool → Statement → List ℕ → Option (List ℕ)
unfolding meets difference is_empty
relevance only_data s d =
    if is_empty s.defs && not (is_empty s.uses)
    then (if not only_data || meets s.uses d then some (s.uses ++ d) else none)
    else if meets d s.defs
    then some (s.uses ++ difference d s.defs)
    else none

-- The statements before the last one, latest first, and those that are kept.
unfoldable pub slice : Bool → List Wrapper → List ℕ → List Wrapper
slice only_data [] d = []
slice only_data (w ∷ earlier) d = elim (relevance only_data w.stmt d) [
  | none ↦ slice only_data earlier d
  | some d' ↦ w ∷ slice only_data earlier d'
]

-- The last statement of a core, latest first, that is the one at the given address, with those
-- before it; none where there is none.
unfoldable pub find_from_end : ℕ → List Wrapper → Option (Wrapper × List Wrapper)
find_from_end a [] = none
find_from_end a (w ∷ earlier) =
    if a == w.stmt.address then some (w, earlier) else find_from_end a earlier

-- The last assume(false) of a block, given latest first.
unfoldable pub find_false : List Statement → Option Statement
unfolding is_assume
find_false [] = none
find_false (s ∷ earlier) =
    if is_assume s.kind && s.contradiction then some s else find_false earlier

-- The core, latest first, and the statement where bottom was found.
unfoldable pub slice_from : Bool → List Wrapper → Statement → Option (List Wrapper × Bool)
unfolding find_from_end slice is_assume is_bool_assume
slice_from only_data latest_first last_stmt =
    if is_assume last_stmt.kind || is_bool_assume last_stmt.kind
    then (do
      (w, earlier) ← find_from_end last_stmt.address latest_first
      some (reverse (w ∷ slice only_data earlier last_stmt.criteria), false))
    else some (reverse latest_first, false)

-- The new core, and whether it is just assume(false); none is an access out of bounds.
unfoldable pub remove_irrelevant_statements :
    Cfg → List Wrapper → ℕ → Bool → Option (List Wrapper × Bool)
unfolding find_false slice_from
remove_irrelevant_statements cfg core bottom_stmt only_data = elim (reverse core) [
  | [] ↦ none
  | w ∷ [] ↦ some (core, w.stmt.contradiction)
  | w ∷ v ∷ earlier ↦ elim (find_false (reverse (cfg.node w.parent))) [
    | some s ↦ some (record { stmt = s; parent = w.parent } ∷ [], true)
    | none ↦ elim (get_elem? (cfg.node w.parent) bottom_stmt) [
      | none ↦ some (core, false)
      | some last_stmt ↦ slice_from only_data (w ∷ v ∷ earlier) last_stmt
    ]
  ]
]
