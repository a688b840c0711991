-- ===== src/Lit/Factory.antt =====
-- crabLitFactoryImpl: the cache of literals and the fresh variables.
use crab_llvm.Prelude.{
  ℕ, suc, ◌≡◌, ◌≢◌, Bool, true, false, Option, none, some, List, [], ◌∷◌, leb, if◌then◌else◌,
}
use crab_llvm.Prelude.Int.{ℤ, pos, ltb_ℤ}
use crab_llvm.Llvm.{Ty, Value, Value-discrete, type_of, width_of}
use crab_llvm.Utils.Types.{CrabBuilderParams, is_bool, is_integer, is_pointer, is_pointer_ty}
use crab_llvm.Utils.Numbers.{get_int_constant}
use crab_llvm.Lit.Defs.{
  VarType, bool_type, int_type, ptr_type, arr_bool_type, arr_int_type, arr_ptr_type, Var, Lit,
  bool_cst, bool_var, int_cst, int_var, ptr_null, ptr_var,
}

-- Crab's variable factory: the name that it gives to an LLVM value, to a memory region, and the
-- name of its n-th fresh variable.
pub record VariableFactory : Type 0 where
  pub value_name : Value → ℕ
  pub region_name : ℕ → ℕ
  pub fresh_name : ℕ → ℕ

-- Crab documents that different values have different names, that a fresh name is new each time,
-- and that it is the name of no value.
pub record IsVariableFactory (vfac : VariableFactory) : Type 0 where
  pub value_injective : (u v : Value) → vfac.value_name u ≡ vfac.value_name v → u ≡ v
  pub fresh_injective : (m n : ℕ) → vfac.fresh_name m ≡ vfac.fresh_name n → m ≡ n
  pub fresh_new : (n : ℕ) (v : Value) → vfac.fresh_name n ≢ vfac.value_name v

-- m_lit_cache, the latest entry first, and how many fresh names the factory has given.
pub record LitState : Type 0 where
  pub cache : List (Value × Lit)
  pub fresh_count : ℕ

unfoldable pub find_lit : Value → List (Value × Lit) → Option Lit
unfolding Value-discrete
find_lit v [] = none
find_lit v ((u, l) ∷ rest) = elim (Value-discrete u v) [ yes e ↦ some l | no d ↦ find_lit v rest ]

module _ (vfac : VariableFactory) (params : CrabBuilderParams) where
  -- A variable under a new name.
  unfoldable pub fresh_var : VarType → ℕ → LitState → Var × LitState
  fresh_var t w st = (
    record { name = vfac.fresh_name st.fresh_count; var_type = t; bitwidth = w },
    record st { fresh_count = suc st.fresh_count },
  )

  unfoldable pub mk_int_array_var : ℕ → LitState → Var × LitState
  mk_int_array_var w = fresh_var arr_int_type w

  unfoldable pub mk_bool_array_var : LitState → Var × LitState
  mk_bool_array_var = fresh_var arr_bool_type 1

  unfoldable pub mk_ptr_array_var : LitState → Var × LitState
  mk_ptr_array_var = fresh_var arr_ptr_type 0

  unfoldable pub mk_int_var : ℕ → LitState → Var × LitState
  unfolding fresh_var
  mk_int_var w = fresh_var int_type w

  unfoldable pub mk_bool_var : LitState → Var × LitState
  unfolding fresh_var
  mk_bool_var = fresh_var bool_type 1

  unfoldable pub mk_ptr_var : LitState → Var × LitState
  unfolding fresh_var
  mk_ptr_var = fresh_var ptr_type 0

  -- A fresh variable of a value's type; nothing where the type is not tracked.
  unfoldable pub mk_var : Value → LitState → Option Var × LitState
  unfolding is_bool is_integer is_pointer mk_bool_var mk_int_var mk_ptr_var width_of type_of
  mk_var v st =
      if is_bool (type_of v)
      then (let (x, st') = mk_bool_var st in (some x, st'))
      else if is_integer (type_of v)
      then (let (x, st') = mk_int_var (width_of (type_of v)) st in (some x, st'))
      else if is_pointer (type_of v) params
      then (let (x, st') = mk_ptr_var st in (some x, st'))
      else (none, st)

  value_var : Value → VarType → ℕ → Var
  value_var v t w = record { name = vfac.value_name v; var_type = t; bitwidth = w }

  -- The constant, unless it is a bignum that the parameters exclude.
  known : ℤ × Bool → (ℤ → Lit) → Option Lit
  known (n, true) f = none
  known (n, false) f = some (f n)

  unfoldable pub get_bool_lit : Value → LitState → Option Lit × LitState
  unfolding is_bool fresh_var value_var known get_int_constant type_of
  get_bool_lit (Value.const_int w bits) st =
      if is_bool (Ty.int w)
      then (known (get_int_constant w bits params) (λ n. bool_cst (ltb_ℤ (pos 0) n)), st)
      else (none, st)
  get_bool_lit (Value.const_expr i t) st = (none, st)
  get_bool_lit (Value.undef i t) st =
      let (x, st') = fresh_var bool_type 1 st in
      if is_bool t then (some (bool_var x), st') else (none, st)
  get_bool_lit (Value.reg i t) st =
      if is_bool t
      then (some (bool_var (value_var (Value.reg i t) bool_type 1)), st)
      else (none, st)
  get_bool_lit Value.null st = (none, st)

  unfoldable pub get_ptr_lit : Value → LitState → Option Lit × LitState
  unfolding is_pointer_ty fresh_var value_var
  get_ptr_lit Value.null st = (some ptr_null, st)
  get_ptr_lit (Value.undef i t) st =
      let (x, st') = fresh_var ptr_type 0 st in
      if is_pointer_ty t then (some (ptr_var x), st') else (none, st)
  get_ptr_lit (Value.reg i t) st =
      if is_pointer_ty t
      then (some (ptr_var (value_var (Value.reg i t) ptr_type 0)), st)
      else (none, st)
  get_ptr_lit (Value.const_int w bits) st = (none, st)
  get_ptr_lit (Value.const_expr i t) st = (none, st)

  unfoldable pub get_int_lit : Value → LitState → Option Lit × LitState
  unfolding is_integer fresh_var value_var known get_int_constant width_of
  get_int_lit (Value.const_int w bits) st =
      if is_integer (Ty.int w)
      then (known (get_int_constant w bits params) int_cst, st)
      else (none, st)
  get_int_lit (Value.const_expr i t) st = (none, st)
  get_int_lit (Value.undef i t) st =
      let (x, st') = fresh_var int_type (width_of t) st in
      if is_integer t then (some (int_var x), st') else (none, st)
  get_int_lit (Value.reg i t) st =
      if is_integer t
      then (some (int_var (value_var (Value.reg i t) int_type (width_of t))), st)
      else (none, st)
  get_int_lit Value.null st = (none, st)

  -- m_lit_cache.insert
  unfoldable pub remember : Value → Option Lit × LitState → Option Lit × LitState
  remember v (none, st) = (none, st)
  remember v (some l, st) = (some l, record st { cache = (v, l) ∷ st.cache })

  -- The literal of a value that is not in the cache.
  unfoldable pub make_lit : Value → LitState → Option Lit × LitState
  unfolding is_bool is_integer is_pointer_ty type_of
  make_lit v st =
      if is_bool (type_of v)
      then remember v (get_bool_lit v st)
      else if is_integer (type_of v)
      then remember v (get_int_lit v st)
      else if is_pointer_ty (type_of v)
      then remember v (get_ptr_lit v st)
      else (none, st)

  unfoldable pub get_lit : Value → LitState → Option Lit × LitState
  get_lit v st = elim (find_lit v st.cache) [ some l ↦ (some l, st) | none ↦ make_lit v st ]

-- Memory regions of the heap analysis: the type of their cells, the bit width, and the type of the
-- global that the region holds alone, if there is one.
pub data RegionType : Type 0 where
  untyped_region bool_region int_region ptr_region : RegionType

pub record Region : Type 0 where
  pub id : ℕ
  pub region_type : RegionType
  pub region_bitwidth : ℕ
  pub singleton : Option Ty

module _ (vfac : VariableFactory) where
  -- The name of the given value, or else that of the region.
  region_var_name : Region → Option Value → ℕ
  region_var_name r none = vfac.region_name r.id
  region_var_name r (some v) = vfac.value_name v

  -- none is the error exit on a region of another type.
  unfoldable pub mk_array_var : Region → Option Value → Option Var
  unfolding region_var_name
  mk_array_var r v =
      let var_of : VarType → ℕ → Option Var =
        λ t w. some (record { name = region_var_name r v; var_type = t; bitwidth = w }) in
      elim r.region_type [
        | RegionType.int_region ↦ var_of arr_int_type r.region_bitwidth
        | RegionType.bool_region ↦ var_of arr_bool_type 1
        | RegionType.ptr_region ↦ var_of arr_ptr_type 0
        | RegionType.untyped_region ↦ none
      ]

  scalar_var : Region → Option Value → ℕ → Option Var
  unfolding region_var_name
  scalar_var r v w =
      let var_of : VarType → Option Var =
        λ t. some (record { name = region_var_name r v; var_type = t; bitwidth = w }) in
      elim r.region_type [
        | RegionType.int_region ↦ if leb w 1 then none else var_of int_type
        | RegionType.bool_region ↦ var_of bool_type
        | RegionType.ptr_region ↦ var_of ptr_type
        | RegionType.untyped_region ↦ none
      ]

  -- The width of a pointer cell is 0, which stands for an unknown width.
  unfoldable pub mk_array_singleton_var : Region → Option Value → Option Var
  unfolding scalar_var width_of
  mk_array_singleton_var r v = elim r.singleton [
    | none ↦ none
    | some t ↦ scalar_var r v (width_of t)
  ]
