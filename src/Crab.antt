-- ===== src/Crab.antt =====
-- The statements of Crab's blocks, one for each call that the builder makes of them, and their
-- meaning as Crab documents it, over integers without bounds. What Crab computes for an arithmetic
-- operation, a cast or an unsigned constraint, and what a havoc chooses, is a parameter.
pub mod Run
use crab_llvm.Prelude.{
  ℕ, Bool, true, false, not, ◌&&◌, ◌||◌, Option, none, some, List, [], ◌∷◌, ◌==◌, if◌then◌else◌,
  bool_eq,
}
use crab_llvm.Prelude.Int.{ℤ, pos, ◌+ℤ◌, leb_ℤ, eqb_ℤ}
use crab_llvm.Lit.{Var, Lit, bool_cst, bool_var, int_cst, int_var, ptr_null, ptr_var, LinExp}

-- lin_exp_t's sum with a number.
unfoldable pub add_constant : LinExp → ℤ → LinExp
add_constant e n = record e { constant = e.constant +ℤ n }

pub data Relation : Type 0 where
  equal disequal at_most : Relation

-- lin_cst_t: get_true, get_false, and the comparison of two expressions; set_unsigned is the flag.
pub data LinCst : Type 0 where
  cst_true cst_false : LinCst
  lin_cst : Bool → Relation → LinExp → LinExp → LinCst

-- ptr_cst_t
pub data PtrCst : Type 0 where
  ptr_true ptr_false : PtrCst
  eq_null diseq_null : Var → PtrCst
  eq_ptr diseq_ptr : Var → Var → PtrCst

pub data BinOp : Type 0 where
  add sub mul sdiv udiv srem urem shl ashr lshr and_op or_op xor_op : BinOp

pub data BoolOp : Type 0 where
  bool_and bool_or bool_xor : BoolOp

pub data Cast : Type 0 where
  sign_extend zero_extend truncate : Cast

-- The second operand of an arithmetic statement.
pub data Operand : Type 0 where
  var_operand : Var → Operand
  number_operand : ℤ → Operand

-- A cast names its source and then its destination; bool_assign_var has the flag that negates the
-- right-hand side. An array access has its index and its size, a store the flag of a strong update,
-- and an initialization its bounds, its value and the size of the elements.
pub data Stmt : Type 0 where
  havoc_stmt : Var → Stmt
  bool_assign_cst : Var → LinCst → Stmt
  bool_assign_var : Var → Var → Bool → Stmt
  bool_apply : BoolOp → Var → Var → Var → Stmt
  bool_select : Var → Var → Var → Var → Stmt
  assign : Var → LinExp → Stmt
  apply : BinOp → Var → Var → Operand → Stmt
  cast : Cast → Var → Var → Stmt
  select : Var → LinCst → LinExp → LinExp → Stmt
  assume assertion : LinCst → Stmt
  bool_assume bool_not_assume bool_assert : Var → Stmt
  ptr_null_stmt : Var → Stmt
  ptr_assign : Var → Var → Stmt
  ptr_assume : PtrCst → Stmt
  ptr_new_object : Var → ℕ → Stmt
  ptr_load ptr_store : Var → Var → Stmt
  array_store : Var → LinExp → Operand → ℕ → Bool → Stmt
  array_load : Var → Var → LinExp → ℕ → Stmt
  array_assign : Var → Var → Stmt
  array_init array_store_range : Var → LinExp → LinExp → Operand → ℕ → Stmt
  unreachable : Stmt

-- The values of the variables, by name, with the cells of the arrays and the pointers in memory, by
-- address: those at the start, and the assignments, the latest outside.
pub data Env : Type 0 where
  start : (ℕ → Bool) → (ℕ → ℤ) → (ℕ → ℕ) → (ℕ → ℤ → ℤ) → (ℕ → ℕ) → Env
  set_bool : ℕ → Bool → Env → Env
  set_int : ℕ → ℤ → Env → Env
  set_ptr : ℕ → ℕ → Env → Env
  set_array : ℕ → (ℤ → ℤ) → Env → Env
  set_memory : (ℕ → ℕ) → Env → Env

unfoldable pub bool_at : Env → ℕ → Bool
bool_at (start b i p a m) x = b x
bool_at (set_bool y v env) x = if y == x then v else bool_at env x
bool_at (set_int y v env) x = bool_at env x
bool_at (set_ptr y v env) x = bool_at env x
bool_at (set_array y v env) x = bool_at env x
bool_at (set_memory v env) x = bool_at env x

unfoldable pub int_at : Env → ℕ → ℤ
int_at (start b i p a m) x = i x
int_at (set_bool y v env) x = int_at env x
int_at (set_int y v env) x = if y == x then v else int_at env x
int_at (set_ptr y v env) x = int_at env x
int_at (set_array y v env) x = int_at env x
int_at (set_memory v env) x = int_at env x

-- The null pointer is the address 0.
unfoldable pub ptr_at : Env → ℕ → ℕ
ptr_at (start b i p a m) x = p x
ptr_at (set_bool y v env) x = ptr_at env x
ptr_at (set_int y v env) x = ptr_at env x
ptr_at (set_ptr y v env) x = if y == x then v else ptr_at env x
ptr_at (set_array y v env) x = ptr_at env x
ptr_at (set_memory v env) x = ptr_at env x

-- The cells of an array.
unfoldable pub array_at : Env → ℕ → ℤ → ℤ
array_at (start b i p a m) x = a x
array_at (set_bool y v env) x = array_at env x
array_at (set_int y v env) x = array_at env x
array_at (set_ptr y v env) x = array_at env x
array_at (set_array y v env) x = if y == x then v else array_at env x
array_at (set_memory v env) x = array_at env x

unfoldable pub memory_at : Env → ℕ → ℕ
memory_at (start b i p a m) = m
memory_at (set_bool y v env) = memory_at env
memory_at (set_int y v env) = memory_at env
memory_at (set_ptr y v env) = memory_at env
memory_at (set_array y v env) = memory_at env
memory_at (set_memory v env) = v

-- What is left to Crab: arithmetic; the casts, by the type of the source and of the destination;
-- unsigned constraints; the choices of havoc; the address of a new object; and the cells of an array
-- after a range of them was set to a value, by the element size, the bounds and the value.
pub record Meaning : Type 0 where
  pub compute : BinOp → ℤ → ℤ → ℤ
  pub cast_int : Cast → ℕ → ℕ → ℤ → ℤ
  pub cast_from_bool : Cast → Bool → ℤ
  pub cast_to_bool : Cast → ℤ → Bool
  pub unsigned_holds : Relation → ℤ → ℤ → Bool
  pub chosen_bool : ℕ → Bool
  pub chosen_int : ℕ → ℤ
  pub chosen_ptr : ℕ → ℕ
  pub object_address : ℕ → ℕ
  pub range_set : ℕ → ℤ → ℤ → ℤ → (ℤ → ℤ) → ℤ → ℤ

unfoldable pub exp_at : Env → LinExp → ℤ
unfolding int_at
exp_at env e = elim e.variable [ none ↦ e.constant | some x ↦ int_at env x.name +ℤ e.constant ]

unfoldable pub related : Relation → ℤ → ℤ → Bool
related Relation.equal a b = eqb_ℤ a b
related Relation.disequal a b = not (eqb_ℤ a b)
related Relation.at_most a b = leb_ℤ a b

unfoldable pub ptr_holds : Env → PtrCst → Bool
unfolding ptr_at
ptr_holds env PtrCst.ptr_true = true
ptr_holds env PtrCst.ptr_false = false
ptr_holds env (PtrCst.eq_null x) = ptr_at env x.name == 0
ptr_holds env (PtrCst.diseq_null x) = not (ptr_at env x.name == 0)
ptr_holds env (PtrCst.eq_ptr x y) = ptr_at env x.name == ptr_at env y.name
ptr_holds env (PtrCst.diseq_ptr x y) = not (ptr_at env x.name == ptr_at env y.name)

unfoldable pub apply_bool : BoolOp → Bool → Bool → Bool
apply_bool BoolOp.bool_and a b = a && b
apply_bool BoolOp.bool_or a b = a || b
apply_bool BoolOp.bool_xor a b = not (bool_eq a b)

-- The value of a literal of each class.
unfoldable pub bool_of : Env → Lit → Option Bool
bool_of env (bool_cst b) = some b
bool_of env (bool_var x) = some (bool_at env x.name)
bool_of env _ = none

unfoldable pub int_of : Env → Lit → Option ℤ
int_of env (int_cst n) = some n
int_of env (int_var x) = some (int_at env x.name)
int_of env _ = none

unfoldable pub ptr_of : Env → Lit → Option ℕ
ptr_of env ptr_null = some 0
ptr_of env (ptr_var x) = some (ptr_at env x.name)
ptr_of env _ = none

-- A run goes on, is blocked by an assumption, or fails at an assertion.
pub data Outcome : Type 0 where
  continues : Env → Outcome
  blocked failed : Outcome
