-- ===== src/PathAnalyzer/Minimize.antt =====
-- minimize_path
use crab_llvm.Prelude.{
  ℕ, Bool, true, false, Option, none, some, List, [], ◌∷◌, ◌++◌, if◌then◌else◌, ◌>>=◌,
}
use crab_llvm.PathAnalyzer.Defs.{Wrapper, Cfg, Domain}
use crab_llvm.PathAnalyzer.Slice.{remove_irrelevant_statements}

-- The constants at the top of the file.
pub record Settings : Type 0 where
  pub only_syntactic_core : Bool
  pub speculative_only_data : Bool
  pub do_sanity_check : Bool

abbrev pub settings : Settings
settings = record {
  only_syntactic_core = false;
  speculative_only_data = true;
  do_sanity_check = true;
}

module _ {D : Type 0} (dom : Domain D) where
  -- The value behind the statements, which the transformer runs until it finds bottom.
  unfoldable pub run_until_bottom : List Wrapper → D → D
  run_until_bottom [] d = d
  run_until_bottom (w ∷ ws) d = elim (dom.is_bottom (dom.transfer w.stmt d)) [
    | true ↦ dom.transfer w.stmt d
    | false ↦ run_until_bottom ws (dom.transfer w.stmt d)
  ]

  -- The statements imply bottom.
  unfoldable pub implies_bottom : List Wrapper → Bool
  unfolding run_until_bottom
  implies_bottom ws = dom.is_bottom (run_until_bottom ws dom.top)

  -- The loop over the core: `before` are the enabled statements before the i-th, and all behind it
  -- are still enabled. The i-th is disabled if the others imply bottom.
  unfoldable pub shrink : List Wrapper → List Wrapper → List Wrapper
  unfolding implies_bottom
  shrink before [] = before
  shrink before (w ∷ rest) = elim (implies_bottom (before ++ rest)) [
    | true ↦ shrink before rest
    | false ↦ shrink (before ++ w ∷ []) rest
  ]

  -- The test of the core that considers data dependencies alone: it looks at the value that was
  -- moved into the transformer.
  unfoldable pub speculation_holds : List Wrapper → Bool
  speculation_holds [] = false
  speculation_holds (w ∷ ws) = dom.moved_is_bottom

  -- The sanity check; none is the error exit.
  unfoldable pub checked : Bool → List Wrapper → Option (List Wrapper)
  unfolding implies_bottom
  checked sanity core =
      if sanity then (if implies_bottom core then some core else none) else some core

  -- The rest of the minimisation, for a core that is not assume(false).
  unfoldable pub semantic_core : Settings → List Wrapper × Bool → Option (List Wrapper)
  unfolding shrink checked
  semantic_core flags (core, true) = some core
  semantic_core flags (core, false) = checked flags.do_sanity_check (shrink [] core)

  -- The new core; none is the error exit or an access out of bounds.
  unfoldable pub minimize_path : Settings → Cfg → List Wrapper → ℕ → Option (List Wrapper)
  unfolding remove_irrelevant_statements speculation_holds semantic_core
  minimize_path flags cfg path bottom_stmt =
      let syntactic = remove_irrelevant_statements cfg path bottom_stmt false in
      let syntactic_core = (do (core, just_false) ← syntactic; some core) in
      let full = (do r ← syntactic; semantic_core flags r) in
      let speculative = (do
        (core, just_false) ← remove_irrelevant_statements cfg path bottom_stmt true
        elim just_false [
          | true ↦ some core
          | false ↦ elim (speculation_holds core) [
            | true ↦ semantic_core flags (core, false)
            | false ↦ full
          ]
        ]) in
      if flags.only_syntactic_core
      then syntactic_core
      else if flags.speculative_only_data
      then speculative
      else full
