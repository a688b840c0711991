-- ===== src/Crab/Run.antt =====
-- Running Crab's statements.
use crab_llvm.Prelude.{
  ℕ, ◌==◌, Bool, true, false, not, Option, none, some, List, [], ◌∷◌, ◌++◌, ap, if◌then◌else◌, ◌≡◌,
  refl, some_inj, arith,
}
use crab_llvm.Prelude.Int.{ℤ, eqb_ℤ, pos, negsuc, ◌+ℤ◌, +ℤ_parts, eq_of_parts}
use crab_llvm.Lit.{bool_type, int_type, ptr_type, Var}
use crab_llvm.Crab.{
  LinCst, cst_true, cst_false, lin_cst, Cast, Operand, var_operand, number_operand, Stmt,
  havoc_stmt, bool_assign_cst, bool_assign_var, bool_apply, bool_select, assign, apply, cast,
  select, assume, assertion, bool_assume, bool_not_assume, bool_assert, ptr_null_stmt, ptr_assign,
  ptr_assume, ptr_new_object, ptr_load, ptr_store, array_store, array_load, array_assign,
  array_init, array_store_range, unreachable, ptr_holds, Env, set_bool, set_int, set_ptr, set_array,
  set_memory, bool_at, int_at, ptr_at, array_at, memory_at, Meaning, exp_at, related, apply_bool,
  Outcome, continues, blocked, failed,
}

unfoldable pub havoc_var : Meaning → Var → Env → Env
havoc_var μ x env = elim x.var_type [
  | bool_type ↦ set_bool x.name (μ.chosen_bool x.name) env
  | int_type ↦ set_int x.name (μ.chosen_int x.name) env
  | ptr_type ↦ set_ptr x.name (μ.chosen_ptr x.name) env
  | _ ↦ env
]

unfoldable pub holds : Meaning → Env → LinCst → Bool
unfolding exp_at related
holds μ env cst_true = true
holds μ env cst_false = false
holds μ env (lin_cst true r a b) = μ.unsigned_holds r (exp_at env a) (exp_at env b)
holds μ env (lin_cst false r a b) = related r (exp_at env a) (exp_at env b)

unfoldable pub operand_at : Env → Operand → ℤ
unfolding int_at
operand_at env (var_operand x) = int_at env x.name
operand_at env (number_operand n) = n

unfoldable pub is_bool_var : Var → Bool
is_bool_var x = elim x.var_type [ bool_type ↦ true | _ ↦ false ]

-- A cast between integers, from a Boolean, or to a Boolean.
unfoldable pub cast_var : Meaning → Cast → Var → Var → Env → Env
unfolding bool_at int_at is_bool_var
cast_var μ op x y env =
    if is_bool_var x
    then set_int y.name (μ.cast_from_bool op (bool_at env x.name)) env
    else if is_bool_var y
    then set_bool y.name (μ.cast_to_bool op (int_at env x.name)) env
    else set_int y.name (μ.cast_int op x.bitwidth y.bitwidth (int_at env x.name)) env

-- The value that an array holds for an operand: 0 or 1 for a Boolean.
unfoldable pub cell_value : Env → Operand → ℤ
unfolding bool_at int_at is_bool_var
cell_value env (number_operand n) = n
cell_value env (var_operand x) =
    if is_bool_var x then (if bool_at env x.name then pos 1 else pos 0) else int_at env x.name

-- A variable that is loaded from a cell.
unfoldable pub set_cell_var : Var → ℤ → Env → Env
unfolding is_bool_var
set_cell_var x v env =
    if is_bool_var x then set_bool x.name (not (eqb_ℤ v (pos 0))) env else set_int x.name v env

unfoldable pub put : ℕ → ℕ → (ℕ → ℕ) → ℕ → ℕ
put a v f b = if a == b then v else f b

unfoldable pub put_cell : ℤ → ℤ → (ℤ → ℤ) → ℤ → ℤ
put_cell i v f j = if eqb_ℤ i j then v else f j

unfoldable pub exec : Meaning → Stmt → Env → Outcome
unfolding havoc_var holds operand_at cast_var bool_at int_at ptr_at exp_at apply_bool ptr_holds
    memory_at array_at put put_cell cell_value set_cell_var
exec μ (havoc_stmt x) env = continues (havoc_var μ x env)
exec μ (bool_assign_cst x c) env = continues (set_bool x.name (holds μ env c) env)
exec μ (bool_assign_var x y negated) env =
    continues
      (set_bool x.name (if negated then not (bool_at env y.name) else bool_at env y.name) env)
exec μ (bool_apply op x y z) env =
    continues (set_bool x.name (apply_bool op (bool_at env y.name) (bool_at env z.name)) env)
exec μ (bool_select x c y z) env =
    continues
      (set_bool x.name (if bool_at env c.name then bool_at env y.name else bool_at env z.name) env)
exec μ (assign x e) env = continues (set_int x.name (exp_at env e) env)
exec μ (apply op x y z) env =
    continues (set_int x.name (μ.compute op (int_at env y.name) (operand_at env z)) env)
exec μ (cast op x y) env = continues (cast_var μ op x y env)
exec μ (select x c a b) env =
    continues (set_int x.name (if holds μ env c then exp_at env a else exp_at env b) env)
exec μ (assume c) env = if holds μ env c then continues env else blocked
exec μ (assertion c) env = if holds μ env c then continues env else failed
exec μ (bool_assume x) env = if bool_at env x.name then continues env else blocked
exec μ (bool_not_assume x) env = if bool_at env x.name then blocked else continues env
exec μ (bool_assert x) env = if bool_at env x.name then continues env else failed
exec μ (ptr_null_stmt x) env = continues (set_ptr x.name 0 env)
exec μ (ptr_assign x y) env = continues (set_ptr x.name (ptr_at env y.name) env)
exec μ (ptr_assume c) env = if ptr_holds env c then continues env else blocked
exec μ (ptr_new_object x n) env = continues (set_ptr x.name (μ.object_address n) env)
exec μ (ptr_load x y) env = continues (set_ptr x.name (memory_at env (ptr_at env y.name)) env)
exec μ (ptr_store x y) env =
    continues (set_memory (put (ptr_at env x.name) (ptr_at env y.name) (memory_at env)) env)
exec μ (array_store x i v size strong) env =
    continues
      (set_array x.name (put_cell (exp_at env i) (cell_value env v) (array_at env x.name)) env)
exec μ (array_load x y i size) env =
    continues (set_cell_var x (array_at env y.name (exp_at env i)) env)
exec μ (array_assign x y) env = continues (set_array x.name (array_at env y.name) env)
exec μ (array_init x lb ub v size) env = continues (
    set_array x.name
      (μ.range_set size (exp_at env lb) (exp_at env ub) (cell_value env v) (array_at env x.name))
      env)
exec μ (array_store_range x lb ub v size) env = continues (
    set_array x.name
      (μ.range_set size (exp_at env lb) (exp_at env ub) (cell_value env v) (array_at env x.name))
      env)
exec μ unreachable env = blocked

unfoldable pub run : Meaning → List Stmt → Env → Outcome
unfolding exec
run μ [] env = continues env
run μ (s ∷ ss) env = elim (exec μ s env) [
  | continues env' ↦ run μ ss env'
  | blocked ↦ blocked
  | failed ↦ failed
]

pub +ℤ_zero : (a : ℤ) → a +ℤ pos 0 ≡ a
unfolding ◌+ℤ◌
+ℤ_zero (pos n) = ground arith
+ℤ_zero (negsuc n) = ground arith

pub zero_+ℤ : (a : ℤ) → pos 0 +ℤ a ≡ a
unfolding ◌+ℤ◌
zero_+ℤ (pos n) = ground arith
zero_+ℤ (negsuc n) = ground arith

pub +ℤ_assoc : (a b c : ℤ) → a +ℤ (b +ℤ c) ≡ (a +ℤ b) +ℤ c
+ℤ_assoc a b c =
    eq_of_parts _ _
      (omega (arith, +ℤ_parts a (b +ℤ c), +ℤ_parts b c, +ℤ_parts (a +ℤ b) c, +ℤ_parts a b))

-- The run of the statements of a translation that may have failed.
unfoldable pub run_result : Meaning → Option (List Stmt) → Env → Option Outcome
run_result μ none env = none
run_result μ (some code) env = some (run μ code env)

pub run_result-some :
    (μ : Meaning) (r : Option (List Stmt)) (env : Env) (o : Outcome)
    → run_result μ r env ≡ some o
    → (code : List Stmt) × (r ≡ some code) × (run μ code env ≡ o)
unfolding run_result
run_result-some μ none env o h = ground arith
run_result-some μ (some code) env o h = (code, refl, some_inj _ _ h)

continues_inj : (a b : Env) → continues a ≡ continues b → a ≡ b
continues_inj a b h = cc

blocked_ne : (a : Env) → ¬ (blocked ≡ continues a)
blocked_ne a h = ground arith

failed_ne : (a : Env) → ¬ (failed ≡ continues a)
failed_ne a h = ground arith

pub run-append :
    (μ : Meaning) (xs ys : List Stmt) (env after : Env)
    → run μ xs env ≡ continues after
    → run μ (xs ++ ys) env ≡ run μ ys after
unfolding run
run-append μ [] ys env after h = ap (run μ ys) (continues_inj env after h)
run-append μ (s ∷ ss) ys env after h = step (exec μ s env) (λ e g. run-append μ ss ys e after g) h
  where
    step :
        (o : Outcome)
        → ((e : Env) → run μ ss e ≡ continues after → run μ (ss ++ ys) e ≡ run μ ys after)
        → elim o [ continues env' ↦ run μ ss env' | blocked ↦ blocked | failed ↦ failed ]
          ≡ continues after
        → elim o [ continues env' ↦ run μ (ss ++ ys) env' | blocked ↦ blocked | failed ↦ failed ]
          ≡ run μ ys after
    step (continues env') rest g = rest env' g
    step blocked rest g = absurd (blocked_ne after g)
    step failed rest g = absurd (failed_ne after g)
