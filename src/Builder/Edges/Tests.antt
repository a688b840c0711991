-- ===== src/Builder/Edges/Tests.antt =====
-- Tests of the edges, and witnesses of their properties.
use crab_llvm.Prelude.{ℕ, ◌≡◌, refl, true, false, some, List, [], ◌∷◌, if◌then◌else◌, arith}
use crab_llvm.Prelude.Int.{pos}
use crab_llvm.CmpInst.{Predicate, compares}
use crab_llvm.Llvm.{type_of}
use crab_llvm.Utils.Types.{is_bool, is_integer}
use crab_llvm.Lit.{LitState, get_lit, int_cst, int_var}
use crab_llvm.Lit.Sample.{sample_factory, sample_params, empty_state}
use crab_llvm.Crab.{Stmt, bool_not_assume, continues, blocked}
use crab_llvm.Crab.Run.{run}
use crab_llvm.Builder.Compare.Correct.{negate_if}
use crab_llvm.Builder.Sample.{
  meaning, env, bits, number, ten, flag, flag_var, flag_lit, greater, greater-IsComparison,
  number_var,
}
use crab_llvm.Builder.Edges.{
  comparison, other_value, edge_code, bool_code, Graph, lookup, has_edge, cond_br, exec_edge,
}
use crab_llvm.Builder.Edges.Correct.{compared, edge_code-follows}
use crab_llvm.Builder.Edges.Blocks.{IsBelow, IsSplit, exec_edge-IsSplit}

edge_code-follows_example :
    (code : List Stmt) × (st' : LitState) × (edge_code sample_factory sample_params
        (comparison flag greater false)
        false
        true
        empty_state
      ≡ some (code, st'))
    × (run meaning code env ≡ (
        if negate_if true (compares 7 Predicate.sgt (bits number) (bits ten))
        then continues env
        else blocked))
unfolding is_bool is_integer type_of
edge_code-follows_example =
    edge_code-follows sample_factory sample_params meaning 7 bits env
      (comparison flag greater false) empty_state
      (compares 7 Predicate.sgt (bits number) (bits ten)) true
      (compared flag greater (int_cst (pos 10)) (int_var number_var) refl refl greater-IsComparison
        refl)

-- Where both successors are the same block, its edge assumes that the condition is false.
same_successors_test :
    (edge_code sample_factory sample_params (other_value flag) true true empty_state)
    ≡ some
        (bool_not_assume flag_var ∷ [], (get_lit sample_factory sample_params flag empty_state).1)
unfolding edge_code bool_code
same_successors_test = rw flag_lit refl

-- Blocks 7 and 8, with the labels 1 and 2 and an edge.
abbrev graph : Graph
graph = record {
  m_id = 2;
  node_map = (7, 1) ∷ (8, 2) ∷ [];
  edge_map = [];
  edges = (1, 2) ∷ [];
  blocks = (1, []) ∷ (2, []) ∷ [];
}

graph-IsBelow : IsBelow graph
unfolding lookup has_edge
graph-IsBelow = record { nodes = λ b l h. ground arith; ends = λ a b h. ground arith }

second_code :
    edge_code sample_factory sample_params (other_value flag) false true empty_state
    ≡ some
        (bool_not_assume flag_var ∷ [], (get_lit sample_factory sample_params flag empty_state).1)
unfolding edge_code bool_code
second_code = rw flag_lit refl

exec_edge-IsSplit_example :
    (bb : ℕ) × (g' : Graph) × (exec_edge sample_factory sample_params
        (cond_br (other_value flag) 9 8)
        7
        8
        graph
        empty_state
      ≡ some (some bb, g', (get_lit sample_factory sample_params flag empty_state).1))
    × IsSplit graph g' 1 2 bb (bool_not_assume flag_var ∷ [])
exec_edge-IsSplit_example =
    exec_edge-IsSplit sample_factory sample_params (other_value flag) 9 8 7 8 1 2 graph empty_state
      (get_lit sample_factory sample_params flag empty_state).1 (bool_not_assume flag_var ∷ [])
      graph-IsBelow (unfold lookup in refl) (unfold lookup in refl) second_code
