-- ===== src/Builder/Memory/RoundTrip.antt =====
-- What a load reads after a store.
use crab_llvm.Prelude.{
  inl, inr, Bool-cases, ◌≡◌, ◌∙◌, sym, ap, refl, Bool, true, false, some, List, [], ◌∷◌, ◌++◌, ◌||◌,
  arith,
}
use crab_llvm.Prelude.Int.{ℤ}
use crab_llvm.Llvm.{Ty, Value, type_of, is_const_expr}
use crab_llvm.Utils.Types.{CrabBuilderParams, is_bool, is_integer, is_tracked, is_tracked_type}
use crab_llvm.Lit.{
  ptr_var, exp_cst, Var, Lit, is_ptr_null, VariableFactory, LitState, get_lit, Region,
}
use crab_llvm.Crab.{array_load, array_at, set_array, Stmt, Env, Meaning, continues}
use crab_llvm.Crab.Run.{run-append, run, put_cell, cell_value, set_cell_var}
use crab_llvm.Lit.Cache.{HasClass}
use crab_llvm.Lit.Exact.{get_lit_hit, find_lit-get_lit}
use crab_llvm.Lit.Fresh.{get_lit-Extends}
use crab_llvm.Builder.Phi.{assign_lit}
use crab_llvm.Builder.Phi.Values.{
  value_of, like, like-like, get_var-like, write, run-assign_lit, write-like,
}
use crab_llvm.Builder.Memory.{
  is_arr, is_unknown, get_singleton_value, region_var, insert_region, Layout, MemState, get_region,
}
use crab_llvm.Builder.Memory.Store.{region_store, do_store_inst, visit_store_inst}
use crab_llvm.Builder.Memory.Load.{load_code, do_load_inst, visit_load_inst}
use crab_llvm.Builder.Memory.Cells.{
  Fits, Fits-width, cell_round_trip, loaded, stored_value, stored_code, array_store_known,
  array_load_known,
}
use crab_llvm.Builder.Memory.Scalars.{scalar_store_known, scalar_load_known}

tracked_kind :
    (t : Ty) (params : CrabBuilderParams)
    → is_integer t || is_bool t ≡ true
    → is_tracked_type t params ≡ true
unfolding is_integer is_bool is_tracked_type
tracked_kind t params h = ground arith

-- A store of `value` to `ptr` by `S`, and a load `I` of `ptr`, in a region `r` whose variable is `y`;
-- `l` is the literal of the value, and `x` the variable of the load.
pub record IsAccess (vfac : VariableFactory) (params : CrabBuilderParams) (mem : Layout)
    (S I ptr value : Value) (st : MemState) (r : Region) (x y p : Var) (l : Lit) : Type 0 where
  pub arrays : is_arr params ≡ true
  pub kind : is_integer (type_of value) || is_bool (type_of value) ≡ true
  pub same_type : type_of I ≡ type_of value
  pub no_expr : is_const_expr ptr || is_const_expr value ≡ false
  pub store_region : get_region mem S ptr ≡ r
  pub load_region : get_region mem I ptr ≡ r
  pub known : is_unknown r ≡ false
  pub variable :
      region_var vfac params mem r (get_singleton_value r params.lower_singleton_aliases) ≡ some y
  pub pointer : (get_lit vfac params ptr st.lits).0 ≡ some (ptr_var p)
  pub stored_lit : (get_lit vfac params value (get_lit vfac params ptr st.lits).1).0 ≡ some l
  pub class : HasClass value l
  pub result :
      (get_lit vfac params I (get_lit vfac params value (get_lit vfac params ptr st.lits).1).1).0
      ≡ some (like l x)

module _ (vfac : VariableFactory) (params : CrabBuilderParams) (mem : Layout)
    (S I ptr value : Value) (st : MemState) (r : Region) (x y p : Var) (l : Lit)
    (access : IsAccess vfac params mem S I ptr value st r x y p l) where
  abbrev lower : Bool
  lower = get_singleton_value r params.lower_singleton_aliases

  abbrev lits2 : LitState
  lits2 = (get_lit vfac params value (get_lit vfac params ptr st.lits).1).1

  visit_store_known :
      (in_entry : Bool)
      → visit_store_inst vfac params mem S ptr value in_entry st
        ≡ do_store_inst vfac params mem ptr value in_entry lower y l r (record st { lits = lits2 })
  unfolding visit_store_inst region_store is_ptr_null
  visit_store_known in_entry = rw access.no_expr (
      rw access.pointer (
        rw access.arrays (
          rw access.kind (
            rw access.stored_lit
              (rw access.store_region (rw access.variable (rw access.known refl)))))))

  -- The pointer's literal is still the same.
  pointer_again :
      get_lit vfac params ptr (get_lit vfac params I lits2).1
      ≡ (some (ptr_var p), (get_lit vfac params I lits2).1)
  pointer_again = get_lit_hit vfac params ptr (get_lit vfac params I lits2).1 (ptr_var p) (
      get_lit-Extends vfac params I lits2 ptr (ptr_var p) (
        get_lit-Extends vfac params value (get_lit vfac params ptr st.lits).1 ptr (ptr_var p)
          (find_lit-get_lit vfac params ptr st.lits (ptr_var p) access.pointer)))

  loads_tracked : is_tracked I params ≡ true
  unfolding is_tracked
  loads_tracked = rw access.same_type (tracked_kind (type_of value) params access.kind)

  left_of : (a b : Bool) → a || b ≡ false → a ≡ false
  left_of a b h = ground arith

  visit_load_known :
      (mid : MemState)
      → mid.lits ≡ lits2
      → visit_load_inst vfac params mem I ptr mid
        ≡ some (
            do_load_inst vfac params mem I ptr lower x y r
              (record mid { lits = (get_lit vfac params I lits2).1 }))
  unfolding visit_load_inst load_code is_ptr_null
  visit_load_known mid e = rw loads_tracked (
      rw e (
        rw access.result (
          rw (get_var-like l x) (
            rw (left_of (is_const_expr ptr) (is_const_expr value) access.no_expr) (
              rw pointer_again (
                rw access.same_type (
                  rw access.arrays (
                    rw access.kind
                      (rw access.load_region (rw access.variable (rw access.known refl)))))))))))

  -- An access that is known: to a scalar, or to an array at a static offset in a region that is not
  -- narrower.
  abbrev pub IsStatic : Type 0
  IsStatic = lower ≡ false → (i : ℤ) × (mem.offset_of ptr ≡ some i) × Fits r l × Fits r (like l x)

  RoundTrip : Meaning → Env → Bool → Type 0
  RoundTrip μ env in_entry =
      (code : List Stmt) × (mid : MemState) × (more : List Stmt) × (fin : MemState) × (after : Env)
      × (visit_store_inst vfac params mem S ptr value in_entry st ≡ some (code, mid))
      × (visit_load_inst vfac params mem I ptr mid ≡ some (more, fin))
      × (run μ (code ++ more) env ≡ continues after)
      × (value_of after (like l x) ≡ value_of env l)

  scalar-RoundTrip :
      (μ : Meaning) (env : Env) (in_entry : Bool) → lower ≡ true → RoundTrip μ env in_entry
  unfolding RoundTrip
  scalar-RoundTrip μ env in_entry e =
      let mid : MemState = record st { lits = lits2 } in
      (
        assign_lit y l,
        mid,
        assign_lit x (like l y),
        record mid { lits = (get_lit vfac params I lits2).1 },
        write x (like l y) (write y l env),
        visit_store_known in_entry
            ∙ (unfold do_store_inst in
                rw e (rw (scalar_store_known value y l access.class access.kind) refl)),
        visit_load_known mid refl
            ∙ (unfold do_load_inst in
                rw e (
                  rw (scalar_load_known I value x y l access.class access.same_type access.kind)
                    refl)),
        run-append μ (assign_lit y l) _ env (write y l env) (run-assign_lit μ y l env)
            ∙ run-assign_lit μ x (like l y) (write y l env),
        ap (value_of (write x (like l y) (write y l env))) (sym (like-like l y x))
            ∙ write-like x (like l y) (write y l env)
            ∙ write-like y l env,
      )

  cell_round :
      (μ : Meaning) (env : Env) (in_entry : Bool) (i : ℤ)
      → lower ≡ false
      → mem.offset_of ptr ≡ some i
      → Fits r l
      → Fits r (like l x)
      → RoundTrip μ env in_entry
  unfolding RoundTrip
  cell_round μ env in_entry i e h fits fits' =
      let mid : MemState = record st { lits = lits2 } in
      let (v, sv, cv) = stored_value μ env vfac params mem r l lits2 fits in
      (
        stored_code μ env vfac params mem value in_entry y v r i st.init_regions,
        record mid { init_regions = insert_region r.id st.init_regions },
        array_load x y (exp_cst i) (mem.alloc_size (type_of I)) ∷ [],
        record mid {
          init_regions = insert_region r.id st.init_regions;
          lits = (get_lit vfac params I lits2).1;
        },
        set_cell_var x (cell_value env v)
            (set_array y.name (put_cell i (cell_value env v) (array_at env y.name)) env),
        visit_store_known in_entry
            ∙ (unfold do_store_inst in
                rw e
                  (array_store_known μ env vfac params mem ptr value in_entry y l r i v mid h sv)),
        visit_load_known (record mid { init_regions = insert_region r.id st.init_regions }) refl
            ∙ (unfold do_load_inst in
                rw e (
                  ap some (
                    array_load_known μ env vfac params mem I ptr x y r i _ h
                      (Fits-width r l x fits')))),
        unfold stored_code in cell_round_trip μ env x y i v _ _ _,
        loaded μ env r l x v _ fits fits' cv,
      )

  -- Where a store and then a load of the same pointer and region are translated, with a literal for
  -- the value, both translations succeed and their statements run on, and the variable of the load
  -- ends with the value that was stored, if the region is lowered to a scalar, or if the pointer's
  -- offset is static and the region has at least the bits of the value and of the result.
  pub visit_load_inst-visit_store_inst :
      (μ : Meaning) (env : Env) (in_entry : Bool)
      → IsStatic
      → (code : List Stmt) × (mid : MemState) × (more : List Stmt) × (fin : MemState)
        × (after : Env) × (visit_store_inst vfac params mem S ptr value in_entry st
            ≡ some (code, mid))
        × (visit_load_inst vfac params mem I ptr mid ≡ some (more, fin))
        × (run μ (code ++ more) env ≡ continues after)
        × (value_of after (like l x) ≡ value_of env l)
  unfolding RoundTrip
  visit_load_inst-visit_store_inst μ env in_entry static = elim (Bool-cases lower) [
    | inl e ↦ scalar-RoundTrip μ env in_entry e
    | inr e ↦ let (i, h, fits, fits') = static e in cell_round μ env in_entry i e h fits fits'
  ]
