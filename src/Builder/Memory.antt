-- ===== src/Builder/Memory.antt =====
-- What the memory instructions of lib/Clam/CfgBuilder.cc share: the regions and the array indices,
-- without ShadowMem. The heap analysis and LLVM's computation of offsets are parameters.
pub mod Store
pub mod Load
pub mod Cells
pub mod Scalars
pub mod RoundTrip
pub mod Narrow
pub mod Alloc
pub mod Init
pub mod Leaves
pub mod Updates
mod Tests
use crab_llvm.Prelude.{
  ℕ, Bool, true, false, not, ◌&&◌, ◌||◌, Option, none, some, List, [], ◌∷◌, ◌==◌, if◌then◌else◌,
}
use crab_llvm.Prelude.Int.{ℤ}
use crab_llvm.Llvm.{Ty, Value, Value-discrete}
use crab_llvm.Utils.Types.{CrabBuilderParams, Precision}
use crab_llvm.Lit.{
  Var, LinExp, exp_var, exp_cst, VariableFactory, LitState, mk_int_var, Region, RegionType,
  mk_array_var, mk_array_singleton_var,
}

-- HeapAbstraction::getRegion of an instruction and a pointer, evalOffset, which values are GEP
-- instructions, and the sizes of types in memory.
pub record Layout : Type 0 where
  pub region_of : Value → Value → Region
  pub offset_of : Value → Option ℤ
  pub is_gep : Value → Bool
  pub alloc_size : Ty → ℕ

-- What the visitor keeps: the literals, the variables for GEP instructions, the regions that were
-- written, by identity, and the number of the next object.
pub record MemState : Type 0 where
  pub lits : LitState
  pub gep_map : List (Value × Var)
  pub init_regions : List ℕ
  pub object_id : ℕ

unfoldable pub find_gep : Value → List (Value × Var) → Option Var
unfolding Value-discrete
find_gep v [] = none
find_gep v ((u, x) ∷ rest) = elim (Value-discrete u v) [ yes e ↦ some x | no d ↦ find_gep v rest ]

unfoldable pub is_member : ℕ → List ℕ → Bool
is_member n [] = false
is_member n (m ∷ ms) = (n == m) || is_member n ms

-- m_init_regions.insert
unfoldable pub insert_region : ℕ → List ℕ → List ℕ
unfolding is_member
insert_region n ids = if is_member n ids then ids else n ∷ ids

abbrev pub unknown_region : Region
unknown_region = record {
  id = 0;
  region_type = RegionType.untyped_region;
  region_bitwidth = 0;
  singleton = none;
}

unfoldable pub is_unknown : Region → Bool
is_unknown r = elim r.region_type [ RegionType.untyped_region ↦ true | _ ↦ false ]

unfoldable pub is_int_or_bool : Region → Bool
is_int_or_bool r = elim r.region_type [
  | RegionType.int_region ↦ true
  | RegionType.bool_region ↦ true
  | _ ↦ false
]

-- The region of a pointer that an instruction uses.
unfoldable pub get_region : Layout → Value → Value → Region
unfolding is_int_or_bool
get_region mem user ptr =
    if is_int_or_bool (mem.region_of user ptr) then mem.region_of user ptr else unknown_region

unfoldable pub has_singleton : Region → Bool
has_singleton r = elim r.singleton [ none ↦ false | some t ↦ true ]

-- Whether get_singleton_value gives a value.
unfoldable pub get_singleton_value : Region → Bool → Bool
unfolding is_unknown is_int_or_bool has_singleton
get_singleton_value r enable = enable && not (is_unknown r) && is_int_or_bool r && has_singleton r

unfoldable pub is_arr : CrabBuilderParams → Bool
is_arr params = elim params.precision_level [ Precision.arr ↦ true | _ ↦ false ]

module _ (vfac : VariableFactory) (params : CrabBuilderParams) (mem : Layout) where
  -- The index of an access: the static offset, the variable of the GEP, or an unconstrained one.
  unfoldable pub infer_array_index : Value → MemState → LinExp × MemState
  unfolding find_gep mk_int_var
  infer_array_index ptr st =
      let (fresh, lits') = mk_int_var vfac params 32 st.lits in
      let unconstrained : LinExp × MemState = (exp_var fresh, record st { lits = lits' }) in
      elim (mem.offset_of ptr) [
        | some n ↦ (exp_cst n, st)
        | none ↦
            if mem.is_gep ptr
            then elim (find_gep ptr st.gep_map) [ some x ↦ (exp_var x, st) | none ↦ unconstrained ]
            else unconstrained
      ]

  -- The variable of a region: a scalar for a region that is lowered to one, or an array; none is
  -- the error exit.
  unfoldable pub region_var : Region → Bool → Option Var
  unfolding mk_array_var mk_array_singleton_var
  region_var r true = mk_array_singleton_var vfac r none
  region_var r false = mk_array_var vfac r none
