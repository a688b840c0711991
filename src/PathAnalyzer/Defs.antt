-- ===== src/PathAnalyzer/Defs.antt =====
-- The statements, the graph and the abstract domain that the path analyzer works on. Crab's
-- domains, and what Crab says of a statement, are parameters.
use crab_llvm.Prelude.{ℕ, Bool, true, false, List}

-- The kinds of statements that the analyzer tells apart.
pub data Kind : Type 0 where
  bool_bin_op bool_assign_cst bool_assign_var bool_assume bool_assert bool_select : Kind
  assume assertion ptr_assert other_kind : Kind

-- A statement: its address; its kind; the variables that it uses and that it defines (get_live);
-- the variables of the constraint of an assume, or the condition of a bool_assume; and what
-- is_contradiction says when the statement is read as an assume.
pub record Statement : Type 0 where
  pub address : ℕ
  pub kind : Kind
  pub uses : List ℕ
  pub defs : List ℕ
  pub criteria : List ℕ
  pub contradiction : Bool

-- statement_wrapper: a statement with the label of its block.
pub record Wrapper : Type 0 where
  pub stmt : Statement
  pub parent : ℕ

-- get_node and next_nodes.
pub record Cfg : Type 0 where
  pub node : ℕ → List Statement
  pub next_nodes : ℕ → List ℕ

-- An abstract domain with its forward transformer: the default value, the test for bottom, the
-- transformer, and what the test says of a value that was moved from.
pub record Domain (D : Type 0) : Type 0 where
  pub top : D
  pub is_bottom : D → Bool
  pub transfer : Statement → D → D
  pub moved_is_bottom : Bool

unfoldable pub is_assume : Kind → Bool
is_assume Kind.assume = true
is_assume _ = false

unfoldable pub is_bool_assume : Kind → Bool
is_bool_assume Kind.bool_assume = true
is_bool_assume _ = false

-- is_assert, is_ptr_assert or is_bool_assert
unfoldable pub is_any_assert : Kind → Bool
is_any_assert Kind.assertion = true
is_any_assert Kind.ptr_assert = true
is_any_assert Kind.bool_assert = true
is_any_assert _ = false

-- The statements that Boolean reasoning looks at.
unfoldable pub is_boolean : Kind → Bool
is_boolean Kind.bool_bin_op = true
is_boolean Kind.bool_assign_cst = true
is_boolean Kind.bool_assign_var = true
is_boolean Kind.bool_assume = true
is_boolean Kind.bool_assert = true
is_boolean Kind.bool_select = true
is_boolean _ = false
