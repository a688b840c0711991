-- ===== src/PathAnalyzer/Tests.antt =====
-- Tests of the path analyzer on sample paths, and witnesses of its properties.
use crab_llvm.Prelude.{ℕ, ◌≡◌, ◌↔◌, refl, true, false, some, none, List, [], ◌∷◌, arith}
use crab_llvm.PathAnalyzer.{
  Wrapper, remove_irrelevant_statements, settings, minimize_path, implies_bottom, solve, Analyzer,
  solve_path, check_path, lookup, relevance, is_assume,
}
use crab_llvm.PathAnalyzer.Slicing.{run, remove_irrelevant_statements-infeasible}
use crab_llvm.PathAnalyzer.Core.{
  Sub, IsMinimal, IsUpward, minimize_path-IsMinimal, minimize_path-error,
}
use crab_llvm.PathAnalyzer.Found.{IsStrict, last_entry, solve_path-found}
use crab_llvm.PathAnalyzer.Post.{entry_of, entry_of_last, solve_lem}
use crab_llvm.PathAnalyzer.Sample.{
  set_x, copy_x, assume_x, in_block, path, cfg, zero_domain, top_domain, step, step-IsMeaning,
}

abbrev core : List Wrapper
core = in_block set_x ∷ in_block assume_x ∷ []

-- The copy is left out.
slice_test : remove_irrelevant_statements cfg path 2 false ≡ some (core, false)
unfolding remove_irrelevant_statements relevance
slice_test = refl

data_slice_test : remove_irrelevant_statements cfg path 2 true ≡ some (core, false)
unfolding remove_irrelevant_statements relevance
data_slice_test = refl

core_test : minimize_path zero_domain settings cfg path 2 ≡ some core
unfolding minimize_path relevance
core_test = refl

remove_irrelevant_statements-infeasible_example :
    (run step core (λ x. 5) ≡ none) ↔ (run step path (λ x. 5) ≡ none)
unfolding is_assume
remove_irrelevant_statements-infeasible_example =
    remove_irrelevant_statements-infeasible step step-IsMeaning cfg path core (in_block set_x ∷ [])
      (in_block assume_x) (in_block copy_x) 2 (λ x. 5) refl refl (refl, (refl, tt)) (λ x m. m)
      slice_test

core-implies_bottom : implies_bottom zero_domain core ≡ true
unfolding implies_bottom
core-implies_bottom = refl

minimize_path-IsMinimal_example :
    (c : List Wrapper) × (minimize_path zero_domain settings cfg path 2 ≡ some c)
    × Sub c core
    × (implies_bottom zero_domain c ≡ true)
    × (IsUpward zero_domain → IsMinimal zero_domain c)
minimize_path-IsMinimal_example =
    minimize_path-IsMinimal zero_domain cfg path 2 core core data_slice_test slice_test refl
      core-implies_bottom

top-IsUpward : IsUpward top_domain
unfolding implies_bottom
top-IsUpward xs ys p h = h

minimize_path-error_example : minimize_path top_domain settings cfg path 2 ≡ none
minimize_path-error_example =
    minimize_path-error top_domain cfg path 2 core core data_slice_test slice_test refl
      (unfold implies_bottom in refl) top-IsUpward

zero-IsStrict : IsStrict zero_domain cfg
zero-IsStrict s d h = ground arith

-- Bottom is found at block 1, behind the statements of block 0.
solve_path-found_example :
    (solve_path zero_domain cfg 0 false (0 ∷ 1 ∷ []) [] []).0
    ≡ zero_domain.is_bottom (last_entry zero_domain cfg false (0 ∷ 1 ∷ []) 0)
solve_path-found_example = solve_path-found zero_domain cfg 0 false 0 (1 ∷ []) [] [] zero-IsStrict

-- The path of block 0 alone counts as feasible.
solve_lem_example :
    (a : Analyzer ℕ) × (solve zero_domain cfg 0 (0 ∷ []) false ≡ some (true, a))
    × (a.core ≡ [])
    × ((c : ℕ) → lookup c a.fwd_dom_map ≡ entry_of zero_domain cfg c (0 ∷ []) 0)
solve_lem_example =
    solve_lem zero_domain cfg 0 0 [] zero-IsStrict (unfold check_path in refl)
      (unfold entry_of_last in refl)
