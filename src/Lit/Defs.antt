-- ===== src/Lit/Defs.antt =====
-- Literals: a typed variable, or a constant of one of three classes.
use crab_llvm.Prelude.{ℕ, Bool, true, false, not, Option, none, some}
use crab_llvm.Prelude.Int.{ℤ, pos}

-- Crab's types of variables, as far as the factory makes them.
pub data VarType : Type 0 where
  bool_type int_type ptr_type arr_bool_type arr_int_type arr_ptr_type : VarType

-- A variable: its indexed name, its type and its bit width, 0 where that is unknown.
pub record Var : Type 0 where
  pub name : ℕ
  pub var_type : VarType
  pub bitwidth : ℕ

-- crabBoolLit, crabIntLit and crabPtrLit: a constant where the reference to a variable is null.
pub data Lit : Type 0 where
  bool_cst : Bool → Lit
  bool_var : Var → Lit
  int_cst : ℤ → Lit
  int_var : Var → Lit
  ptr_null : Lit
  ptr_var : Var → Lit

unfoldable pub is_bool_lit : Lit → Bool
is_bool_lit (bool_cst b) = true
is_bool_lit (bool_var v) = true
is_bool_lit _ = false

unfoldable pub is_int_lit : Lit → Bool
is_int_lit (int_cst n) = true
is_int_lit (int_var v) = true
is_int_lit _ = false

unfoldable pub is_ptr_lit : Lit → Bool
is_ptr_lit ptr_null = true
is_ptr_lit (ptr_var v) = true
is_ptr_lit _ = false

-- getVar, behind its assertion isVar().
unfoldable pub get_var : Lit → Option Var
get_var (bool_cst b) = none
get_var (bool_var v) = some v
get_var (int_cst n) = none
get_var (int_var v) = some v
get_var ptr_null = none
get_var (ptr_var v) = some v

unfoldable pub is_var : Lit → Bool
unfolding get_var
is_var l = elim (get_var l) [ none ↦ false | some v ↦ true ]

-- A linear expression of at most one variable, plus a constant.
pub record LinExp : Type 0 where
  pub variable : Option Var
  pub constant : ℤ

abbrev pub exp_var : Var → LinExp
exp_var v = record { variable = some v; constant = pos 0 }

abbrev pub exp_cst : ℤ → LinExp
exp_cst n = record { variable = none; constant = n }

-- crabIntLit::getExp
unfoldable pub get_exp : Lit → Option LinExp
get_exp (int_cst n) = some (exp_cst n)
get_exp (int_var v) = some (exp_var v)
get_exp _ = none

-- The accessors of the factory; none is the error exit on a literal of another class.
unfoldable pub is_bool_true : Lit → Option Bool
is_bool_true (bool_cst b) = some b
is_bool_true (bool_var v) = some false
is_bool_true _ = none

unfoldable pub is_bool_false : Lit → Option Bool
is_bool_false (bool_cst b) = some (not b)
is_bool_false (bool_var v) = some false
is_bool_false _ = none

unfoldable pub is_ptr_null : Lit → Option Bool
is_ptr_null ptr_null = some true
is_ptr_null (ptr_var v) = some false
is_ptr_null _ = none

-- getIntCst: crabIntLit::getInt asserts that the literal is a constant.
unfoldable pub get_int_cst : Lit → Option ℤ
get_int_cst (int_cst n) = some n
get_int_cst _ = none
