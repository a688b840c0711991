-- ===== src/Builder/Memory/Scalars.antt =====
-- Loads and stores of regions that are lowered to scalars.
use crab_llvm.Prelude.{◌≡◌, refl, Bool, true, false, some, ◌||◌, arith}
use crab_llvm.Llvm.{Value, type_of}
use crab_llvm.Utils.Types.{is_bool, is_integer}
use crab_llvm.Lit.{
  bool_cst, bool_var, int_cst, int_var, ptr_null, ptr_var, Var, Lit, get_exp, is_bool_lit,
  is_int_lit,
}
use crab_llvm.Lit.Cache.{HasClass}
use crab_llvm.Builder.Phi.{assign_lit}
use crab_llvm.Builder.Phi.Values.{like}
use crab_llvm.Builder.Memory.Store.{scalar_store}
use crab_llvm.Builder.Memory.Load.{scalar_load}

neither : (a b : Bool) → false ≡ a → false ≡ b → ¬ (a || b ≡ true)
neither a b h k e = ground arith

-- A scalar region is written and read like a variable.
pub scalar_store_known :
    (value : Value) (y : Var) (l : Lit)
    → HasClass value l
    → is_integer (type_of value) || is_bool (type_of value) ≡ true
    → scalar_store value y l ≡ some (assign_lit y l)
unfolding scalar_store assign_lit get_exp is_bool_lit is_int_lit
scalar_store_known value y (bool_cst b) class h = rw⁻¹ class.ints (rw⁻¹ class.bools refl)
scalar_store_known value y (bool_var z) class h = rw⁻¹ class.ints (rw⁻¹ class.bools refl)
scalar_store_known value y (int_cst n) class h = rw⁻¹ class.ints refl
scalar_store_known value y (int_var z) class h = rw⁻¹ class.ints refl
scalar_store_known value y ptr_null class h = absurd (neither _ _ class.ints class.bools h)
scalar_store_known value y (ptr_var z) class h = absurd (neither _ _ class.ints class.bools h)

pub scalar_load_known :
    (I value : Value) (x y : Var) (l : Lit)
    → HasClass value l
    → type_of I ≡ type_of value
    → is_integer (type_of value) || is_bool (type_of value) ≡ true
    → scalar_load I x y ≡ assign_lit x (like l y)
unfolding scalar_load assign_lit like is_bool_lit is_int_lit
scalar_load_known I value x y (bool_cst b) class e h =
    rw e (rw⁻¹ class.ints (rw⁻¹ class.bools refl))
scalar_load_known I value x y (bool_var z) class e h =
    rw e (rw⁻¹ class.ints (rw⁻¹ class.bools refl))
scalar_load_known I value x y (int_cst n) class e h = rw e (rw⁻¹ class.ints refl)
scalar_load_known I value x y (int_var z) class e h = rw e (rw⁻¹ class.ints refl)
scalar_load_known I value x y ptr_null class e h = absurd (neither _ _ class.ints class.bools h)
scalar_load_known I value x y (ptr_var z) class e h = absurd (neither _ _ class.ints class.bools h)
