-- ===== src/Builder/Memory/Tests.antt =====
-- Loads and stores through the pointer %3: of the i8 %0, in a region of 8 or of 4 bits.
use crab_llvm.Prelude.{ℕ, ◌≡◌, refl, true, false, none, some, List, [], ◌∷◌, ◌++◌, ℕ_discrete}
use crab_llvm.Prelude.Int.{pos}
use crab_llvm.Llvm.{int, pointer, Value, type_of, is_const_expr}
use crab_llvm.Utils.Types.{CrabBuilderParams, Precision, is_bool, is_integer}
use crab_llvm.Lit.{
  exp_cst, LinExp, Var, Lit, int_var, ptr_var, int_type, ptr_type, arr_int_type, find_lit, get_lit,
  make_lit, get_int_lit, get_bool_lit, get_ptr_lit, remember, is_bool_lit, is_int_lit, is_ptr_lit,
  Region, RegionType, mk_array_var,
}
use crab_llvm.Lit.Sample.{
  sample_factory, sample_factory-IsVariableFactory, sample_params, empty_state, empty_state-IsValid,
}
use crab_llvm.Crab.{array_store, Operand, var_operand, Stmt, Env, continues}
use crab_llvm.Crab.Run.{run, is_bool_var}
use crab_llvm.Builder.Sample.{meaning, env, number, number_var}
use crab_llvm.Builder.Phi.Values.{value_of, like}
use crab_llvm.Builder.Memory.{
  Layout, MemState, get_region, is_unknown, is_arr, get_singleton_value, region_var, has_singleton,
}
use crab_llvm.Builder.Memory.Store.{do_store_inst, visit_store_inst}
use crab_llvm.Builder.Memory.Load.{visit_load_inst, do_load_inst}
use crab_llvm.Builder.Memory.RoundTrip.{IsAccess, visit_load_inst-visit_store_inst}
use crab_llvm.Builder.Memory.Leaves.{store_op}
use crab_llvm.Builder.Memory.Updates.{translate_all, do_store_inst-weak}
use crab_llvm.Builder.Memory.Narrow.{do_load_inst-narrow}

abbrev arr_params : CrabBuilderParams
arr_params = record sample_params { precision_level = Precision.arr }

abbrev address : Value
address = Value.reg 3 pointer

abbrev result : Value
result = Value.reg 5 (int 8)

abbrev int_region : ℕ → Region
int_region w = record {
  id = 1;
  region_type = RegionType.int_region;
  region_bitwidth = w;
  singleton = none;
}

-- Every pointer has the offset 0 in the region.
abbrev layout : Layout
layout = record {
  region_of = λ user ptr. int_region 8;
  offset_of = λ ptr. some (pos 0);
  is_gep = λ v. false;
  alloc_size = λ t. 1;
}

abbrev start_state : MemState
start_state = record { lits = empty_state; gep_map = []; init_regions = []; object_id = 0 }

abbrev result_var : Var
result_var = record { name = sample_factory.value_name result; var_type = int_type; bitwidth = 8 }

abbrev address_var : Var
address_var = record { name = sample_factory.value_name address; var_type = ptr_type; bitwidth = 0 }

abbrev array_var : Var
array_var = record { name = sample_factory.region_name 1; var_type = arr_int_type; bitwidth = 8 }

number-IsAccess :
    IsAccess sample_factory arr_params layout Value.null result address number start_state
      (int_region 8)
      result_var
      array_var
      address_var
      (int_var number_var)
unfolding is_arr is_integer is_bool type_of get_region is_unknown region_var mk_array_var
    get_singleton_value get_lit find_lit make_lit get_int_lit get_bool_lit get_ptr_lit remember
    ℕ_discrete is_bool_lit is_int_lit is_ptr_lit like is_const_expr
number-IsAccess = record {
  arrays = refl;
  kind = refl;
  same_type = refl;
  no_expr = refl;
  store_region = refl;
  load_region = refl;
  known = refl;
  variable = refl;
  pointer = refl;
  stored_lit = refl;
  class = record { bools = refl; ints = refl; ptrs = refl };
  result = refl;
}

visit_load_inst-visit_store_inst_example :
    (code : List Stmt) × (mid : MemState) × (more : List Stmt) × (fin : MemState) × (after : Env)
    × (visit_store_inst sample_factory arr_params layout Value.null address number true start_state
        ≡ some (code, mid))
    × (visit_load_inst sample_factory arr_params layout result address mid ≡ some (more, fin))
    × (run meaning (code ++ more) env ≡ continues after)
    × (value_of after (like (int_var number_var) result_var) ≡ value_of env (int_var number_var))
unfolding like
visit_load_inst-visit_store_inst_example =
    visit_load_inst-visit_store_inst sample_factory arr_params layout Value.null result address
      number start_state (int_region 8) result_var array_var address_var (int_var number_var)
      number-IsAccess meaning env true
      (λ e. (pos 0, refl, (unfold is_bool_var in refl, refl), (unfold is_bool_var in refl, refl)))

do_load_inst-narrow_example :
    (after : Env) × (run meaning
        (do_load_inst sample_factory sample_params layout result address false result_var array_var
          (int_region 4)
          start_state).0
        env
      ≡ continues after)
    × ((v : Value) (l : Lit)
        → find_lit v start_state.lits.cache ≡ some l
        → value_of after l ≡ value_of env l)
do_load_inst-narrow_example =
    do_load_inst-narrow sample_factory sample_params sample_factory-IsVariableFactory layout meaning
      env result address result_var array_var (int_region 4) start_state empty_state-IsValid refl

-- The state after the store of %0 through %3.
abbrev after_store : MemState
after_store = record start_state {
  lits = record {
    cache = (number, int_var number_var) ∷ (address, ptr_var address_var) ∷ [];
    fresh_count = 0;
  };
  init_regions = 1 ∷ [];
}

again_stored :
    do_store_inst sample_factory arr_params layout address number true false array_var
      (int_var number_var)
      (int_region 8)
      after_store
    ≡ some
        (array_store array_var (exp_cst (pos 0)) (var_operand number_var) 1 false ∷ [], after_store)
unfolding do_store_inst
again_stored = refl

first_stored :
    do_store_inst sample_factory arr_params layout address number true false array_var
      (int_var number_var)
      (int_region 8)
      start_state
    ≡ some (
      array_store array_var (exp_cst (pos 0)) (var_operand number_var) 1 true ∷ [],
      record start_state { init_regions = 1 ∷ [] },
    )
unfolding do_store_inst
first_stored = refl

-- A store through %3 in between.
between :
    translate_all sample_factory arr_params layout
      (store_op Value.null address number true ∷ [])
      (record start_state { init_regions = 1 ∷ [] })
    ≡ some after_store
unfolding translate_all get_lit find_lit make_lit get_int_lit get_bool_lit get_ptr_lit remember
    ℕ_discrete is_const_expr
between = refl

do_store_inst-weak_example :
    (pre : List Stmt) × (idx : LinExp) × (op : Operand) × (array_store array_var
          (exp_cst (pos 0))
          (var_operand number_var)
          1
          false
        ∷ []
      ≡ pre ++ (array_store array_var idx op 1 (has_singleton (int_region 8)) ∷ []))
do_store_inst-weak_example =
    do_store_inst-weak sample_factory arr_params layout address number address number true true
      array_var array_var (int_var number_var) (int_var number_var) (int_region 8) (int_region 8)
      (store_op Value.null address number true ∷ []) start_state
      (record start_state { init_regions = 1 ∷ [] }) after_store after_store
      (array_store array_var (exp_cst (pos 0)) (var_operand number_var) 1 true ∷ [])
      (array_store array_var (exp_cst (pos 0)) (var_operand number_var) 1 false ∷ []) first_stored
      between again_stored refl
