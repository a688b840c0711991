-- ===== src/Builder/Edges/Blocks.antt =====
-- What exec_edge does to the graph.
use crab_llvm.Prelude.{
  ℕ, suc, ◌≤◌, ◌<◌, ◌≡◌, ◌⊎◌, inl, inr, refl, sym, ap, ◌∙◌, Bool, true, false, not, ◌&&◌, ◌||◌,
  Option, none, some, List, [], ◌∷◌, ◌==◌, if◌then◌else◌, Bool-cases, arith, ==_refl,
}
use crab_llvm.Utils.Types.{CrabBuilderParams}
use crab_llvm.Lit.{VariableFactory, LitState}
use crab_llvm.Crab.{Stmt}
use crab_llvm.Builder.Edges.{
  Condition, edge_code, Graph, lookup, has_edge, connect, disconnect, add_block_in_between,
  insert_edge, split_edge, cond_br, exec_edge,
}

abbrev same_edge : ℕ → ℕ → ℕ → ℕ → Bool
same_edge a b c d = a == c && b == d

same_edge_lem : (a b c d : ℕ) → same_edge a b c d ≡ true → (a ≡ c) × (b ≡ d)
same_edge_lem a b c d h = ground arith

present_or :
    (a b c d : ℕ) (edges : List (ℕ × ℕ))
    → has_edge c d edges ≡ true
    → has_edge a b edges ≡ same_edge a b c d || has_edge a b edges
present_or a b c d edges present = elim (Bool-cases (same_edge a b c d)) [
  | inl same ↦ let (e, f) = same_edge_lem a b c d same in rw (same, e, f) present
  | inr other ↦ rw other refl
]

has_edge-connect :
    (a b c d : ℕ) (edges : List (ℕ × ℕ))
    → has_edge a b (connect c d edges) ≡ same_edge a b c d || has_edge a b edges
unfolding connect has_edge
has_edge-connect a b c d edges = elim (Bool-cases (has_edge c d edges)) [
  | inl present ↦ rw (connect, present) (present_or a b c d edges present)
  | inr absent ↦ rw (connect, absent) refl
]

has_edge-disconnect :
    (a b c d : ℕ) (edges : List (ℕ × ℕ))
    → has_edge a b (disconnect c d edges) ≡ has_edge a b edges && not (same_edge a b c d)
unfolding disconnect has_edge
has_edge-disconnect a b c d [] = refl
has_edge-disconnect a b c d ((e, f) ∷ edges) = ground (arith, has_edge-disconnect a b c d edges)

-- A block between: the edge is gone, and two others lead through the block.
has_edge-add_block_in_between :
    (a b src dst bb : ℕ) (edges : List (ℕ × ℕ))
    → has_edge a b (add_block_in_between src dst bb edges)
      ≡ same_edge a b bb dst
        || (same_edge a b src bb || (has_edge a b edges && not (same_edge a b src dst)))
unfolding add_block_in_between
has_edge-add_block_in_between a b src dst bb edges =
    has_edge-connect a b bb dst (connect src bb (disconnect src dst edges))
    ∙ ap (λ r. same_edge a b bb dst || r)
        (has_edge-connect a b src bb (disconnect src dst edges)
          ∙ ap (λ r. same_edge a b src bb || r) (has_edge-disconnect a b src dst edges))

-- The statements of a block.
unfoldable pub find_block : ℕ → List (ℕ × List Stmt) → Option (List Stmt)
find_block l [] = none
find_block l ((m, code) ∷ blocks) = if l == m then some code else find_block l blocks

-- No label is above the counter.
pub record IsBelow (g : Graph) : Type 0 where
  pub nodes : (b l : ℕ) → lookup g b ≡ some l → l ≤ g.m_id
  pub ends : (a b : ℕ) → has_edge a b g.edges ≡ true → (a ≤ g.m_id) × (b ≤ g.m_id)

-- What is left of a graph, and what is new, when an edge gets a block.
pub record IsSplit (g g' : Graph) (s d bb : ℕ) (code : List Stmt) : Type 0 where
  pub is_new : g.m_id < bb
  pub nodes : (b : ℕ) → lookup g' b ≡ lookup g b
  pub edges :
      (a b : ℕ)
      → has_edge a b g'.edges
        ≡ same_edge a b bb d
          || (same_edge a b s bb || (has_edge a b g.edges && not (same_edge a b s d)))
  pub code_of : find_block bb g'.blocks ≡ some code
  pub others : (l : ℕ) → l ≤ g.m_id → find_block l g'.blocks ≡ find_block l g.blocks
  pub still_below : IsBelow g'

find_block_first :
    (l : ℕ) (code : List Stmt) (blocks : List (ℕ × List Stmt))
    → find_block l ((l, code) ∷ blocks) ≡ some code
unfolding find_block
find_block_first l code blocks = rw (==_refl l) refl

find_block_later :
    (l m : ℕ) (code : List Stmt) (blocks : List (ℕ × List Stmt))
    → l < m
    → find_block l ((m, code) ∷ blocks) ≡ find_block l blocks
unfolding find_block
find_block_later l m code blocks h = let e : (l == m) ≡ false = ground arith in rw e refl

below_suc : (l n : ℕ) → l ≤ n → l ≤ suc n
below_suc l n h = omega arith

one_of : (p q r x : Bool) → r ≡ false → p || (q || r && x) ≡ true → (p ≡ true) ⊎ (q ≡ true)
one_of true q r x h e = inl refl
one_of false true r x h e = inr refl
one_of false false r x h e = ground arith

split_ends :
    (g : Graph) (s d a b : ℕ)
    → IsBelow g
    → s ≤ g.m_id
    → d ≤ g.m_id
    → has_edge a b (add_block_in_between s d (suc g.m_id) g.edges) ≡ true
    → (a ≤ suc g.m_id) × (b ≤ suc g.m_id)
split_ends g s d a b below hs hd h = elim (Bool-cases (has_edge a b g.edges)) [
  | inl old ↦ let (ha, hb) = below.ends a b old in (below_suc a g.m_id ha, below_suc b g.m_id hb)
  | inr new ↦
      elim (one_of _ _ _ _ new
        (sym (has_edge-add_block_in_between a b s d (suc g.m_id) g.edges) ∙ h)) [
          | inl out ↦
              let (e, f) = same_edge_lem a b (suc g.m_id) d out in
              (omega (arith, e), omega (arith, f, hd))
          | inr into ↦
              let (e, f) = same_edge_lem a b s (suc g.m_id) into in
              (omega (arith, e, hs), omega (arith, f))
        ]
]

module _ (vfac : VariableFactory) (params : CrabBuilderParams) where
  -- In a graph without labels above the counter, the edge between two blocks that are known, at a
  -- conditional branch whose condition can be translated, gets a new block: it has the statements
  -- for the edge, all edges but the one that is split stay, two edges lead through the new block, and
  -- again no label is above the counter.
  pub exec_edge-IsSplit :
      (cond : Condition) (s0 s1 src dst s d : ℕ) (g : Graph) (st st' : LitState) (code : List Stmt)
      → IsBelow g
      → lookup g src ≡ some s
      → lookup g dst ≡ some d
      → edge_code vfac params cond (s0 == dst) (s1 == dst) st ≡ some (code, st')
      → (bb : ℕ) × (g' : Graph) × (exec_edge vfac params (cond_br cond s0 s1) src dst g st
          ≡ some (some bb, g', st'))
        × IsSplit g g' s d bb code
  unfolding exec_edge split_edge
  exec_edge-IsSplit cond s0 s1 src dst s d g st st' code below known_src known_dst e =
      let g' : Graph = record g {
        m_id = suc g.m_id;
        edge_map = insert_edge src dst (suc g.m_id) g.edge_map;
        edges = add_block_in_between s d (suc g.m_id) g.edges;
        blocks = (suc g.m_id, code) ∷ g.blocks;
      } in
      (
        suc g.m_id,
        g',
        rw (known_src, known_dst) (rw e refl),
        record {
          is_new = omega arith;
          nodes = λ b. unfold lookup in refl;
          edges = λ a b. has_edge-add_block_in_between a b s d (suc g.m_id) g.edges;
          code_of = find_block_first (suc g.m_id) code g.blocks;
          others = λ l h. find_block_later l (suc g.m_id) code g.blocks (omega (arith, h));
          still_below = record {
            nodes = λ b l h. below_suc l g.m_id (below.nodes b l (unfold lookup in h));
            ends = λ a b h.
                split_ends g s d a b below (below.nodes src s known_src)
                  (below.nodes dst d known_dst) h;
          };
        },
      )
