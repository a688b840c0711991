-- ===== src/PathAnalyzer/Solve.antt =====
-- solve_path, has_kid and solve; get_fwd_constraints and get_unsat_core.
use crab_llvm.Prelude.{
  ℕ, suc, Bool, true, false, not, ◌&&◌, Option, none, some, List, [], ◌∷◌, ◌++◌, ◌==◌,
  if◌then◌else◌, ◌>>=◌,
}
use crab_llvm.PathAnalyzer.Defs.{Statement, Wrapper, Cfg, Domain, is_any_assert, is_boolean}
use crab_llvm.PathAnalyzer.Slice.{member}
use crab_llvm.PathAnalyzer.Minimize.{settings, minimize_path}

-- m_fwd_dom_map and m_core.
pub record Analyzer (D : Type 0) : Type 0 where
  pub fwd_dom_map : List (ℕ × D)
  pub core : List Wrapper

-- The variables of solve_path: the transformer's value, path_statements, bottom_stmt, and the map.
pub record Progress (D : Type 0) : Type 0 where
  pub value : D
  pub path_statements : List Wrapper
  pub bottom_stmt : ℕ
  pub fwd : List (ℕ × D)

-- How a path is not solved: it visits a block twice (an error exit), or it has no edge somewhere.
pub data Check : Type 0 where
  cyclic disconnected connected : Check

-- A block among the successors of another.
unfoldable pub has_kid : Cfg → ℕ → ℕ → Bool
unfolding member
has_kid cfg b1 b2 = member b2 (cfg.next_nodes b1)

unfoldable pub check_path : Cfg → List ℕ → List ℕ → Check
unfolding has_kid member
check_path cfg visited [] = Check.connected
check_path cfg visited (b ∷ []) = if member b visited then Check.cyclic else Check.connected
check_path cfg visited (b ∷ c ∷ path) =
    let rest = check_path cfg (b ∷ visited) (c ∷ path) in
    if member b visited then Check.cyclic else if has_kid cfg b c then rest else Check.disconnected

module _ {D : Type 0} where
  unfoldable pub lookup : ℕ → List (ℕ × D) → Option D
  lookup b [] = none
  lookup b ((c, d) ∷ rest) = if b == c then some d else lookup b rest

  unfoldable pub erase : ℕ → List (ℕ × D) → List (ℕ × D)
  erase b [] = []
  erase b ((c, d) ∷ rest) = let others = erase b rest in if b == c then others else (c, d) ∷ others

  unfoldable pub erase_all : List ℕ → List (ℕ × D) → List (ℕ × D)
  unfolding erase
  erase_all [] map = map
  erase_all (b ∷ bs) map = erase_all bs (erase b map)

module _ {D : Type 0} (dom : Domain D) (cfg : Cfg) where
  -- The loop over the statements of a block.
  unfoldable pub solve_block : Bool → ℕ → List Statement → Progress D → Progress D
  unfolding is_any_assert is_boolean
  solve_block only_bool b [] p = p
  solve_block only_bool b (s ∷ ss) p =
      let skipped = solve_block only_bool b ss (record p { bottom_stmt = suc p.bottom_stmt }) in
      let next = dom.transfer s p.value in
      let pushed =
        if is_any_assert s.kind
        then p.path_statements
        else p.path_statements ++ record { stmt = s; parent = b } ∷ [] in
      let stopped = record p { value = next; path_statements = pushed } in
      let going =
        solve_block only_bool b ss
          (record p { value = next; path_statements = pushed; bottom_stmt = suc p.bottom_stmt }) in
      if only_bool && not (is_boolean s.kind)
      then skipped
      else if dom.is_bottom next
      then stopped
      else going

  -- The constraints at the entry of a block are stored the first time only.
  unfoldable pub store : ℕ → D → List (ℕ × D) → List (ℕ × D)
  unfolding lookup
  store b d map = elim (lookup b map) [ none ↦ (b, d) ∷ map | some old ↦ map ]

  -- The loop over the blocks of the path, and whether bottom was found.
  unfoldable pub solve_blocks : Bool → List ℕ → Progress D → Bool × Progress D
  unfolding solve_block store
  solve_blocks only_bool [] p = (false, p)
  solve_blocks only_bool (b ∷ path) p =
      let rest = solve_blocks only_bool path (
        solve_block only_bool b (cfg.node b)
          (record p { bottom_stmt = 0; fwd = store b p.value p.fwd })) in
      if dom.is_bottom p.value then (true, p) else rest

  -- `init` is m_init.
  unfoldable pub solve_path : D → Bool → List ℕ → List Wrapper → List (ℕ × D) → Bool × Progress D
  unfolding solve_blocks
  solve_path init only_bool path path_statements fwd =
      solve_blocks only_bool path
        (record { value = init; path_statements = path_statements; bottom_stmt = 0; fwd = fwd })

  -- Boolean reasoning first, and the whole domain if that does not find bottom.
  unfoldable pub solve_layers : D → List ℕ → Bool → Bool × Progress D
  unfolding solve_path erase_all
  solve_layers init path layered =
      let (found, p) = solve_path init true path [] [] in
      let again = solve_path init false path p.path_statements (erase_all path p.fwd) in
      let whole = solve_path init false path [] [] in
      if layered then (if found then (found, p) else again) else whole

  -- The core that explains the bottom that was found; none is an error exit.
  unfoldable pub finish : Bool × Progress D → Option (Bool × Analyzer D)
  unfolding minimize_path
  finish (false, p) = some (true, record { fwd_dom_map = p.fwd; core = [] })
  finish (true, p) = do
    core ← minimize_path dom settings cfg p.path_statements p.bottom_stmt
    some (false, record { fwd_dom_map = p.fwd; core = core })

  -- Whether the path is feasible, and the new state.
  unfoldable pub solve : D → List ℕ → Bool → Option (Bool × Analyzer D)
  unfolding check_path solve_layers finish
  solve init path layered =
      let reset : Analyzer D = record { fwd_dom_map = []; core = [] } in
      let solved = finish (solve_layers init path layered) in
      elim path [
        | [] ↦ some (true, reset)
        | b ∷ rest ↦ elim (check_path cfg [] (b ∷ rest)) [
          | Check.cyclic ↦ none
          | Check.disconnected ↦ some (true, reset)
          | Check.connected ↦ solved
        ]
      ]

  unfoldable pub get_fwd_constraints : D → Analyzer D → ℕ → D
  unfolding lookup
  get_fwd_constraints bottom a b = elim (lookup b a.fwd_dom_map) [ some d ↦ d | none ↦ bottom ]

  unfoldable pub get_unsat_core : Analyzer D → List Wrapper
  get_unsat_core a = a.core
