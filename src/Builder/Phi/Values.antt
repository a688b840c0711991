-- ===== src/Builder/Phi/Values.antt =====
-- The values of literals of any class, and what the assignment of a literal does to them.
use crab_llvm.Prelude.{
  ℕ, ◌≡◌, ◌≢◌, refl, arith, Bool, true, false, some, ◌==◌, sym, ap, ==_refl, some_inj, ◌∙◌, ne→test,
}
use crab_llvm.Prelude.Int.{ℤ}
use crab_llvm.Lit.{
  Lit, bool_cst, bool_var, int_cst, int_var, ptr_null, ptr_var, Var, VarType, bool_type, int_type,
  ptr_type, arr_bool_type, arr_int_type, arr_ptr_type, get_var, is_bool_lit, is_int_lit, is_ptr_lit,
}
use crab_llvm.Crab.{
  Env, set_bool, set_int, set_ptr, bool_at, int_at, ptr_at, Meaning, exp_at, continues,
}
use crab_llvm.Crab.Run.{exec, run, holds, havoc_var, +ℤ_zero}
use crab_llvm.Builder.Logic.{truth}
use crab_llvm.Builder.Phi.{assign_lit}

pub data Content : Type 0 where
  bool_value : Bool → Content
  int_value : ℤ → Content
  ptr_value : ℕ → Content

unfoldable pub value_of : Env → Lit → Content
unfolding bool_at int_at ptr_at
value_of env (bool_cst b) = bool_value b
value_of env (bool_var x) = bool_value (bool_at env x.name)
value_of env (int_cst n) = int_value n
value_of env (int_var x) = int_value (int_at env x.name)
value_of env ptr_null = ptr_value 0
value_of env (ptr_var x) = ptr_value (ptr_at env x.name)

-- The literal of a variable, of the class of another literal.
unfoldable pub like : Lit → Var → Lit
like (bool_cst b) x = bool_var x
like (bool_var y) x = bool_var x
like (int_cst n) x = int_var x
like (int_var y) x = int_var x
like ptr_null x = ptr_var x
like (ptr_var y) x = ptr_var x

-- A literal that does not read the variable.
abbrev pub IsApart : Var → Lit → Type 0
IsApart x m = (y : Var) → get_var m ≡ some y → x.name ≢ y.name

pub get_var-like : (l : Lit) (x : Var) → get_var (like l x) ≡ some x
unfolding like get_var
get_var-like (bool_cst b) x = refl
get_var-like (bool_var y) x = refl
get_var-like (int_cst n) x = refl
get_var-like (int_var y) x = refl
get_var-like ptr_null x = refl
get_var-like (ptr_var y) x = refl

pub like-IsApart : (k : Lit) (y z : Var) → y.name ≢ z.name → IsApart y (like k z)
like-IsApart k y z ne x g q = ne (q ∙ ap (λ w. w.name) (some_inj _ _ (sym g ∙ get_var-like k z)))

-- The values after the assignment of a literal to a variable.
unfoldable pub write : Var → Lit → Env → Env
unfolding bool_at int_at ptr_at
write x (bool_cst b) env = set_bool x.name b env
write x (bool_var y) env = set_bool x.name (bool_at env y.name) env
write x (int_cst n) env = set_int x.name n env
write x (int_var y) env = set_int x.name (int_at env y.name) env
write x ptr_null env = set_ptr x.name 0 env
write x (ptr_var y) env = set_ptr x.name (ptr_at env y.name) env

pub run-assign_lit :
    (μ : Meaning) (x : Var) (l : Lit) (env : Env)
    → run μ (assign_lit x l) env ≡ continues (write x l env)
unfolding run exec assign_lit write truth holds exp_at
run-assign_lit μ x (bool_cst true) env = refl
run-assign_lit μ x (bool_cst false) env = refl
run-assign_lit μ x (bool_var y) env = refl
run-assign_lit μ x (int_cst n) env = refl
run-assign_lit μ x (int_var y) env = rw (+ℤ_zero (int_at env y.name)) refl
run-assign_lit μ x ptr_null env = refl
run-assign_lit μ x (ptr_var y) env = refl

pub write-like :
    (x : Var) (l : Lit) (env : Env) → value_of (write x l env) (like l x) ≡ value_of env l
unfolding write like value_of bool_at int_at ptr_at
write-like x (bool_cst b) env = rw (==_refl x.name) refl
write-like x (bool_var y) env = rw (==_refl x.name) refl
write-like x (int_cst n) env = rw (==_refl x.name) refl
write-like x (int_var y) env = rw (==_refl x.name) refl
write-like x ptr_null env = rw (==_refl x.name) refl
write-like x (ptr_var y) env = rw (==_refl x.name) refl

bool_at-write :
    (x : Var) (l : Lit) (y : Var) (env : Env)
    → (x.name == y.name) ≡ false
    → bool_at (write x l env) y.name ≡ bool_at env y.name
unfolding write bool_at
bool_at-write x (bool_cst b) y env h = rw h refl
bool_at-write x (bool_var z) y env h = rw h refl
bool_at-write x (int_cst n) y env h = refl
bool_at-write x (int_var z) y env h = refl
bool_at-write x ptr_null y env h = refl
bool_at-write x (ptr_var z) y env h = refl

int_at-write :
    (x : Var) (l : Lit) (y : Var) (env : Env)
    → (x.name == y.name) ≡ false
    → int_at (write x l env) y.name ≡ int_at env y.name
unfolding write int_at
int_at-write x (bool_cst b) y env h = refl
int_at-write x (bool_var z) y env h = refl
int_at-write x (int_cst n) y env h = rw h refl
int_at-write x (int_var z) y env h = rw h refl
int_at-write x ptr_null y env h = refl
int_at-write x (ptr_var z) y env h = refl

ptr_at-write :
    (x : Var) (l : Lit) (y : Var) (env : Env)
    → (x.name == y.name) ≡ false
    → ptr_at (write x l env) y.name ≡ ptr_at env y.name
unfolding write ptr_at
ptr_at-write x (bool_cst b) y env h = refl
ptr_at-write x (bool_var z) y env h = refl
ptr_at-write x (int_cst n) y env h = refl
ptr_at-write x (int_var z) y env h = refl
ptr_at-write x ptr_null y env h = rw h refl
ptr_at-write x (ptr_var z) y env h = rw h refl

-- A literal that does not read the variable keeps its value.
pub write-IsApart :
    (x : Var) (l m : Lit) (env : Env) → IsApart x m → value_of (write x l env) m ≡ value_of env m
unfolding write value_of get_var bool_at int_at ptr_at
write-IsApart x l (bool_cst b) env h = refl
write-IsApart x l (bool_var y) env h =
    ap bool_value (bool_at-write x l y env (ne→test x.name y.name (h y refl)))
write-IsApart x l (int_cst n) env h = refl
write-IsApart x l (int_var y) env h =
    ap int_value (int_at-write x l y env (ne→test x.name y.name (h y refl)))
write-IsApart x l ptr_null env h = refl
write-IsApart x l (ptr_var y) env h =
    ap ptr_value (ptr_at-write x l y env (ne→test x.name y.name (h y refl)))

ptr_set-IsApart :
    (x : Var) (a : ℕ) (m : Lit) (env : Env)
    → IsApart x m
    → value_of (set_ptr x.name a env) m ≡ value_of env m
unfolding value_of get_var bool_at int_at ptr_at
ptr_set-IsApart x a (bool_cst b) env h = refl
ptr_set-IsApart x a (bool_var y) env h = refl
ptr_set-IsApart x a (int_cst n) env h = refl
ptr_set-IsApart x a (int_var y) env h = refl
ptr_set-IsApart x a ptr_null env h = refl
ptr_set-IsApart x a (ptr_var y) env h = rw (ne→test x.name y.name (h y refl)) refl

pub havoc_var-IsApart :
    (μ : Meaning) (x : Var) (m : Lit) (env : Env)
    → IsApart x m
    → value_of (havoc_var μ x env) m ≡ value_of env m
unfolding havoc_var write
havoc_var-IsApart μ x m env h = by_type x.var_type x refl h
  where
    by_type :
        (t : VarType) (z : Var)
        → z.var_type ≡ t
        → IsApart z m
        → value_of (havoc_var μ z env) m ≡ value_of env m
    by_type bool_type z e k =
        rw (e, havoc_var) (write-IsApart z (bool_cst (μ.chosen_bool z.name)) m env k)
    by_type int_type z e k =
        rw (e, havoc_var) (write-IsApart z (int_cst (μ.chosen_int z.name)) m env k)
    by_type ptr_type z e k = rw (e, havoc_var) (ptr_set-IsApart z (μ.chosen_ptr z.name) m env k)
    by_type arr_bool_type z e k = rw (e, havoc_var) refl
    by_type arr_int_type z e k = rw (e, havoc_var) refl
    by_type arr_ptr_type z e k = rw (e, havoc_var) refl

pub like-like : (l : Lit) (y x : Var) → like (like l y) x ≡ like l x
unfolding like
like-like (bool_cst b) y x = refl
like-like (bool_var z) y x = refl
like-like (int_cst n) y x = refl
like-like (int_var z) y x = refl
like-like ptr_null y x = refl
like-like (ptr_var z) y x = refl

-- A variable's literal, by its class.
pub like_lem :
    (l k : Lit) (x : Var)
    → get_var k ≡ some x
    → is_bool_lit k ≡ is_bool_lit l
    → is_int_lit k ≡ is_int_lit l
    → is_ptr_lit k ≡ is_ptr_lit l
    → k ≡ like l x
unfolding like get_var is_bool_lit is_int_lit is_ptr_lit
like_lem l (bool_var y) x h a b c = ground arith
like_lem l (int_var y) x h a b c = ground arith
like_lem l (ptr_var y) x h a b c = ground arith
like_lem l (bool_cst q) x h a b c = ground arith
like_lem l (int_cst q) x h a b c = ground arith
like_lem l ptr_null x h a b c = ground arith
