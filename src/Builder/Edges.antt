-- ===== src/Builder/Edges.antt =====
-- exec_edge of lib/Clam/CfgBuilder.cc with what it uses: the blocks for LLVM's blocks and edges.
pub mod Correct
pub mod Blocks
mod Tests
use crab_llvm.Prelude.{
  ℕ, suc, Bool, true, false, not, ◌&&◌, ◌||◌, Option, none, some, List, [], ◌∷◌, ◌++◌, ◌==◌,
  if◌then◌else◌, ◌>>=◌,
}
use crab_llvm.CmpInst.{Cmp}
use crab_llvm.Llvm.{Value, type_of}
use crab_llvm.Utils.Types.{CrabBuilderParams, is_bool, is_integer, is_pointer}
use crab_llvm.Lit.{Lit, Var, get_var, is_bool_lit, VariableFactory, LitState, get_lit}
use crab_llvm.Crab.{
  Stmt, LinCst, PtrCst, assume, ptr_assume, bool_assume, bool_not_assume, unreachable,
}
use crab_llvm.Builder.Compare.{cmp_inst_to_crab_int, cmp_inst_to_crab_ptr}

-- The condition of a branch: a ConstantInt with its pattern, a ConstantExpr, a comparison with its
-- operands and whether it has two uses or more, or another value.
pub data Condition : Type 0 where
  constant : ℕ → Condition
  const_expr : Condition
  comparison : Value → Cmp Value → Bool → Condition
  other_value : Value → Condition

-- The end of a block.
pub data Terminator : Type 0 where
  br : ℕ → Terminator
  cond_br : Condition → ℕ → ℕ → Terminator
  switch : List ℕ → Terminator
  other_terminator : Terminator

unfoldable pub lin_assume : Option LinCst → List Stmt
lin_assume none = []
lin_assume (some c) = assume c ∷ []

unfoldable pub pointer_assume : Option PtrCst → List Stmt
pointer_assume none = []
pointer_assume (some c) = ptr_assume c ∷ []

-- The assumption of a Boolean; none is a failed assertion.
unfoldable pub literal_assume : Bool → Option Lit → Option (List Stmt)
unfolding is_bool_lit get_var
literal_assume negated ref = do
  l ← ref
  x ← get_var l
  (if is_bool_lit l
      then some ((if negated then bool_not_assume x else bool_assume x) ∷ [])
      else none)

module _ (vfac : VariableFactory) (params : CrabBuilderParams) where
  -- The statements for a comparison, and whether it is assumed as a Boolean in any case.
  unfoldable pub comparison_assume : Bool → Cmp Value → LitState → List Stmt × LitState × Bool
  unfolding cmp_inst_to_crab_int cmp_inst_to_crab_ptr lin_assume pointer_assume
  comparison_assume negated c st =
      let (cst, st1) = cmp_inst_to_crab_int vfac params c negated st in
      let (pcst, st2) = cmp_inst_to_crab_ptr vfac params c negated st in
      if is_bool (type_of c.op0) && is_bool (type_of c.op1)
      then ([], st, true)
      else if is_integer (type_of c.op0) && is_integer (type_of c.op1)
      then (lin_assume cst, st1, false)
      else if is_pointer (type_of c.op0) params && is_pointer (type_of c.op1) params
      then (pointer_assume pcst, st2, false)
      else ([], st, false)

  -- The assumption of the condition's value as a Boolean.
  unfoldable pub bool_code : Bool → Value → LitState → Option (List Stmt × LitState)
  unfolding literal_assume
  bool_code negated v st =
      let (ref, st1) = get_lit vfac params v st in
      do code ← literal_assume negated ref; some (code, st1)

  -- The statements of the block for an edge, where the flags say whether the edge leads to the first
  -- and to the second successor.
  unfoldable pub edge_code : Condition → Bool → Bool → LitState → Option (List Stmt × LitState)
  unfolding comparison_assume bool_code
  edge_code (constant bits) first second st =
      if ((bits == 1) && not first) || ((bits == 0) && not second)
      then some (unreachable ∷ [], st)
      else some ([], st)
  edge_code const_expr first second st = some ([], st)
  edge_code (comparison v c two_uses) first second st =
      let (code, st1, as_bool) = comparison_assume second c st in
      let both = (do (more, st2) ← bool_code second v st1; some (code ++ more, st2)) in
      if as_bool || two_uses then both else some (code, st1)
  edge_code (other_value v) first second st = bool_code second v st

-- The graph: m_id, m_node_to_crab_map, m_edge_to_crab_map, Crab's edges, and its blocks with their
-- statements. LLVM's blocks and Crab's labels are numbers.
pub record Graph : Type 0 where
  pub m_id : ℕ
  pub node_map : List (ℕ × ℕ)
  pub edge_map : List (ℕ × ℕ × ℕ)
  pub edges : List (ℕ × ℕ)
  pub blocks : List (ℕ × List Stmt)

unfoldable pub find_node : ℕ → List (ℕ × ℕ) → Option ℕ
find_node b [] = none
find_node b ((c, l) ∷ map) = if b == c then some l else find_node b map

unfoldable pub lookup : Graph → ℕ → Option ℕ
unfolding find_node
lookup g b = find_node b g.node_map

-- get_crab_basic_block of an edge.
unfoldable pub find_edge : ℕ → ℕ → List (ℕ × ℕ × ℕ) → Option ℕ
find_edge src dst [] = none
find_edge src dst ((s, d, l) ∷ map) = if src == s && dst == d then some l else find_edge src dst map

unfoldable pub has_edge : ℕ → ℕ → List (ℕ × ℕ) → Bool
has_edge a b [] = false
has_edge a b ((c, d) ∷ edges) = (a == c && b == d) || has_edge a b edges

-- Crab's >> and -=.
unfoldable pub connect : ℕ → ℕ → List (ℕ × ℕ) → List (ℕ × ℕ)
unfolding has_edge
connect a b edges = if has_edge a b edges then edges else (a, b) ∷ edges

unfoldable pub disconnect : ℕ → ℕ → List (ℕ × ℕ) → List (ℕ × ℕ)
disconnect a b [] = []
disconnect a b ((c, d) ∷ edges) =
    let rest = disconnect a b edges in if a == c && b == d then rest else (c, d) ∷ rest

unfoldable pub add_block : ℕ → Graph → Graph
unfolding lookup
add_block b g = elim (lookup g b) [
  | none ↦ record g {
    m_id = suc g.m_id;
    node_map = (b, suc g.m_id) ∷ g.node_map;
    blocks = (suc g.m_id, []) ∷ g.blocks;
  }
  | some l ↦ g
]

-- none is a failed assertion.
unfoldable pub add_edge : ℕ → ℕ → Graph → Option Graph
unfolding lookup connect
add_edge src dst g = do
  s ← lookup g src
  d ← lookup g dst
  some (record g { edges = connect s d g.edges })

unfoldable pub add_block_in_between : ℕ → ℕ → ℕ → List (ℕ × ℕ) → List (ℕ × ℕ)
unfolding connect disconnect
add_block_in_between src dst bb edges = connect bb dst (connect src bb (disconnect src dst edges))

-- A key that is in the map keeps its value.
unfoldable pub insert_edge : ℕ → ℕ → ℕ → List (ℕ × ℕ × ℕ) → List (ℕ × ℕ × ℕ)
unfolding find_edge
insert_edge src dst l map = elim (find_edge src dst map) [
  | none ↦ (src, dst, l) ∷ map
  | some old ↦ map
]

module _ (vfac : VariableFactory) (params : CrabBuilderParams) where
  -- The new block for an edge, with its statements.
  unfoldable pub split_edge :
      Condition → Bool → Bool → ℕ → ℕ → Graph → LitState → Option (ℕ × Graph × LitState)
  unfolding lookup insert_edge add_block_in_between edge_code
  split_edge cond first second src dst g st =
      let bb = suc g.m_id in
      do
        s ← lookup g src
        d ← lookup g dst
        (code, st') ← edge_code vfac params cond first second st
        some (
          bb,
          record g {
            m_id = bb;
            edge_map = insert_edge src dst bb g.edge_map;
            edges = add_block_in_between s d bb g.edges;
            blocks = (bb, code) ∷ g.blocks;
          },
          st',
        )

  -- The block between, if any; none outside is a failed assertion.
  unfoldable pub exec_edge :
      Terminator → ℕ → ℕ → Graph → LitState → Option (Option ℕ × Graph × LitState)
  unfolding split_edge add_edge
  exec_edge (cond_br cond s0 s1) src dst g st = do
    (bb, g', st') ← split_edge cond (s0 == dst) (s1 == dst) src dst g st
    some (some bb, g', st')
  exec_edge (br s) src dst g st = do g' ← add_edge src dst g; some (none, g', st)
  exec_edge (switch dests) src dst g st = do g' ← add_edge src dst g; some (none, g', st)
  exec_edge other_terminator src dst g st = some (none, g, st)
