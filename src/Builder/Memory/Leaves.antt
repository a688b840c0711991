-- ===== src/Builder/Memory/Leaves.antt =====
-- The memory instructions together, and a property of the state that each step of them keeps.
use crab_llvm.Prelude.{
  ℕ, suc, Bool, true, false, Option, none, some, List, if◌then◌else◌, ◌>>=◌, ltb, inl, inr,
  Option-cases, Bool-cases,
}
use crab_llvm.Prelude.Int.{ℤ}
use crab_llvm.Llvm.{Value, type_of}
use crab_llvm.Utils.Types.{CrabBuilderParams, is_integer}
use crab_llvm.Lit.{Var, Lit, VariableFactory, Region, get_lit, mk_int_var}
use crab_llvm.Lit.Fresh.{next}
use crab_llvm.Crab.{Stmt}
use crab_llvm.Builder.Memory.{
  find_gep, get_region, is_unknown, get_singleton_value, Layout, MemState, insert_region,
  infer_array_index,
}
use crab_llvm.Builder.Memory.Store.{
  store_operand, stored, array_store_code, do_store_inst, region_store, pointer_store,
  visit_store_inst,
}
use crab_llvm.Builder.Memory.Load.{
  load_var, array_load_code, do_load_inst, load_code, visit_load_inst,
}
use crab_llvm.Builder.Memory.Alloc.{
  Allocated, MemIntrinsic, new_object, alloca_array, visit_alloca_inst, do_alloc_fn, memset_code,
  do_mem_intrinsic,
}
use crab_llvm.Builder.Memory.Init.{
  Initialized, array_initializer, initializer_code, do_global_initializer,
}

-- An instruction or a call, with its operands.
pub data MemOp : Type 0 where
  store_op : Value → Value → Value → Bool → MemOp
  load_op : Value → Value → MemOp
  alloca_op : Value → Allocated → MemOp
  alloc_op : Value → MemOp
  intrinsic_op : Value → Value → MemIntrinsic → MemOp
  initializer_op : Value → Value → Initialized → Option Value → MemOp

-- What holds of the state of a result.
pub data Leaves (P : MemState → Type 0) : Option (List Stmt × MemState) → Type 0 where
  fails : Leaves P none
  leaves : (r : List Stmt × MemState) → P r.1 → Leaves P (some r)

module _ (P : MemState → Type 0) where
  bind-Leaves :
      {A : Type 0} (o : Option A) (f : A → Option (List Stmt × MemState))
      → ((a : A) → Leaves P (f a))
      → Leaves P (o >>= f)
  bind-Leaves none f h = fails
  bind-Leaves (some a) f h = h a

  if-Leaves :
      (b : Bool) (x y : Option (List Stmt × MemState))
      → Leaves P x
      → Leaves P y
      → Leaves P (if b then x else y)
  if-Leaves true x y h k = h
  if-Leaves false x y h k = k

module _ (vfac : VariableFactory) (params : CrabBuilderParams) (mem : Layout) where
  unfoldable pub translate : MemOp → MemState → Option (List Stmt × MemState)
  unfolding visit_store_inst visit_load_inst visit_alloca_inst do_alloc_fn do_mem_intrinsic
      do_global_initializer
  translate (store_op I ptr value in_entry) st =
      visit_store_inst vfac params mem I ptr value in_entry st
  translate (load_op I ptr) st = visit_load_inst vfac params mem I ptr st
  translate (alloca_op I allocated) st = visit_alloca_inst vfac params mem I allocated st
  translate (alloc_op I) st = do_alloc_fn vfac params mem I st
  translate (intrinsic_op I dst op) st = do_mem_intrinsic vfac params mem I dst op st
  translate (initializer_op I v content k) st =
      do_global_initializer vfac params mem I v content k st

  module _ (P : MemState → Type 0)
      (asks : (v : Value) (st : MemState)
        → P st
        → P (record st { lits = (get_lit vfac params v st.lits).1 }))
      (makes : (st : MemState) → P st → P (record st { lits = next st.lits }))
      (writes : (n : ℕ) (st : MemState)
        → P st
        → P (record st { init_regions = insert_region n st.init_regions }))
      (counts : (st : MemState) → P st → P (record st { object_id = suc st.object_id })) where
    load_code-Leaves :
        (I ptr : Value) (x : Var) (l : Lit) (st : MemState)
        → P st
        → ((b : Bool) (y : Var)
            → P (do_load_inst vfac params mem I ptr b x y (get_region mem I ptr) st).1)
        → Leaves P (load_code vfac params mem I ptr x l st)
    unfolding load_code
    load_code-Leaves I ptr x l st h k = search (if-Leaves P, bind-Leaves P, leaves)

    index_leaves :
        (ptr : Value) (st : MemState) → P st → P (infer_array_index vfac params mem ptr st).1
    unfolding infer_array_index mk_int_var
    index_leaves ptr st h = elim (Option-cases (mem.offset_of ptr)) [
      | inr (n, e) ↦ rw (e, infer_array_index) h
      | inl e ↦ elim (Bool-cases (mem.is_gep ptr)) [
        | inr f ↦ rw (e, infer_array_index) (rw (f, infer_array_index) (makes st h))
        | inl f ↦ elim (Option-cases (find_gep ptr st.gep_map)) [
          | inl g ↦
              rw (e, infer_array_index)
                (rw (f, infer_array_index) (rw (g, infer_array_index) (makes st h)))
          | inr (x, g) ↦
              rw (e, infer_array_index) (rw (f, infer_array_index) (rw (g, infer_array_index) h))
        ]
      ]
    ]

    load_var_leaves :
        (r : Region) (x : Var) (st : MemState)
        → P st
        → P (record st { lits = (load_var vfac params mem r x st.lits).1 })
    unfolding load_var mk_int_var
    load_var_leaves r x st h = elim (Bool-cases (ltb r.region_bitwidth x.bitwidth)) [
      | inl e ↦ rw (e, load_var) (makes st h)
      | inr e ↦ rw (e, load_var) h
    ]

    do_load_inst-leaves :
        (I ptr : Value) (b : Bool) (x y : Var) (r : Region) (st : MemState)
        → P st
        → P (do_load_inst vfac params mem I ptr b x y r st).1
    unfolding do_load_inst array_load_code
    do_load_inst-leaves I ptr true x y r st h = h
    do_load_inst-leaves I ptr false x y r st h = index_leaves ptr _ (load_var_leaves r x st h)

    visit_load_inst-Leaves :
        (I ptr : Value) (st : MemState) → P st → Leaves P (visit_load_inst vfac params mem I ptr st)
    unfolding visit_load_inst
    visit_load_inst-Leaves I ptr st h =
        let h1 : P (record st { lits = (get_lit vfac params I st.lits).1 }) = asks I st h in
        let h2 = asks ptr (record st { lits = (get_lit vfac params I st.lits).1 }) h1 in
        search (if-Leaves P, bind-Leaves P, leaves, load_code-Leaves, do_load_inst-leaves) depth 12

    store_operand_leaves :
        (r : Region) (x : Var) (st : MemState)
        → P st
        → P (record st { lits = (store_operand vfac params mem r x st.lits).2 })
    unfolding store_operand mk_int_var
    store_operand_leaves r x st h = elim (Bool-cases (ltb r.region_bitwidth x.bitwidth)) [
      | inl e ↦ rw (e, store_operand) (makes st h)
      | inr e ↦ rw (e, store_operand) h
    ]

    array_store_code-Leaves :
        (ptr value : Value) (b : Bool) (x : Var) (l : Lit) (r : Region) (st : MemState)
        → P st
        → Leaves P (array_store_code vfac params mem ptr value b x l r st)
    unfolding array_store_code stored
    array_store_code-Leaves ptr value b x (Lit.bool_var y) r st h =
        leaves _ (writes r.id _ (store_operand_leaves r y _ (index_leaves ptr st h)))
    array_store_code-Leaves ptr value b x (Lit.int_var y) r st h =
        leaves _ (writes r.id _ (store_operand_leaves r y _ (index_leaves ptr st h)))
    array_store_code-Leaves ptr value b x (Lit.ptr_var y) r st h =
        leaves _ (writes r.id _ (store_operand_leaves r y _ (index_leaves ptr st h)))
    array_store_code-Leaves ptr value b x (Lit.bool_cst y) r st h =
        leaves _ (writes r.id _ (index_leaves ptr st h))
    array_store_code-Leaves ptr value b x (Lit.int_cst y) r st h =
        leaves _ (writes r.id _ (index_leaves ptr st h))
    array_store_code-Leaves ptr value b x Lit.ptr_null r st h = fails

    region_store-Leaves :
        (I ptr value : Value) (b : Bool) (ref : Option Lit) (st : MemState)
        → P st
        → Leaves P (region_store vfac params mem I ptr value b ref st)
    unfolding region_store do_store_inst
    region_store-Leaves I ptr value b ref st h =
        search (if-Leaves P, bind-Leaves P, leaves, array_store_code-Leaves) depth 12

    pointer_store-Leaves :
        (p v : Option Lit) (st : MemState) → P st → Leaves P (pointer_store vfac params mem p v st)
    unfolding pointer_store
    pointer_store-Leaves (some (Lit.ptr_var p)) (some (Lit.ptr_var v)) st h = leaves _ h
    pointer_store-Leaves (some (Lit.ptr_var p)) (some Lit.ptr_null) st h = leaves _ h
    pointer_store-Leaves p v st h = fails

    visit_store_inst-Leaves :
        (I ptr value : Value) (b : Bool) (st : MemState)
        → P st
        → Leaves P (visit_store_inst vfac params mem I ptr value b st)
    unfolding visit_store_inst
    visit_store_inst-Leaves I ptr value b st h =
        let h1 : P (record st { lits = (get_lit vfac params ptr st.lits).1 }) = asks ptr st h in
        let h2 = asks value (record st { lits = (get_lit vfac params ptr st.lits).1 }) h1 in
        search (if-Leaves P, bind-Leaves P, leaves, region_store-Leaves, pointer_store-Leaves) depth
          12

    new_object-Leaves :
        (I : Value) (st : MemState) → P st → Leaves P (new_object vfac params mem I st)
    unfolding new_object
    new_object-Leaves I st h =
        let h1 = counts _ (asks I st h) in search (bind-Leaves P, leaves) depth 12

    visit_alloca_inst-Leaves :
        (I : Value) (a : Allocated) (st : MemState)
        → P st
        → Leaves P (visit_alloca_inst vfac params mem I a st)
    unfolding visit_alloca_inst alloca_array
    visit_alloca_inst-Leaves I (Allocated.array_of size n) st h =
        let h1 = writes (get_region mem I I).id st h in
        search (if-Leaves P, bind-Leaves P, leaves, new_object-Leaves) depth 12
    visit_alloca_inst-Leaves I a st h =
        search (if-Leaves P, bind-Leaves P, leaves, new_object-Leaves) depth 12

    do_alloc_fn-Leaves :
        (I : Value) (st : MemState) → P st → Leaves P (do_alloc_fn vfac params mem I st)
    unfolding do_alloc_fn
    do_alloc_fn-Leaves I st h =
        let h1 = asks I st h in
        search (if-Leaves P, bind-Leaves P, leaves, new_object-Leaves) depth 12

    memset_code-leaves :
        (value len : Value) (align : ℕ) (x : Var) (st : MemState)
        → P st
        → P (memset_code vfac params mem value len align x st).1
    unfolding memset_code
    memset_code-leaves value len align x st h = elim (Bool-cases (is_integer (type_of value))) [
      | inl e ↦ rw (e, memset_code) (asks value _ (asks len st h))
      | inr e ↦ rw (e, memset_code) h
    ]

    do_mem_intrinsic-Leaves :
        (I dst : Value) (op : MemIntrinsic) (st : MemState)
        → P st
        → Leaves P (do_mem_intrinsic vfac params mem I dst op st)
    unfolding do_mem_intrinsic
    do_mem_intrinsic-Leaves I dst MemIntrinsic.transfer st h =
        search (if-Leaves P, bind-Leaves P, leaves) depth 12
    do_mem_intrinsic-Leaves I dst (MemIntrinsic.memset value len align) st h =
        let h1 = writes (get_region mem I dst).id st h in
        search (if-Leaves P, bind-Leaves P, leaves, memset_code-leaves) depth 12

    array_initializer-Leaves :
        (content : Initialized) (ref : Option Lit) (r : Region) (offset : ℤ) (st : MemState)
        → P st
        → Leaves P (array_initializer vfac params mem content ref r offset st)
    unfolding array_initializer
    array_initializer-Leaves (Initialized.int_data bits size) ref r offset st h =
        let h1 = writes r.id st h in search (bind-Leaves P, leaves) depth 12
    array_initializer-Leaves (Initialized.array_data n size) ref r offset st h =
        let h1 = writes r.id st h in search (if-Leaves P, bind-Leaves P, leaves) depth 12
    array_initializer-Leaves Initialized.other_data ref r offset st h =
        search (bind-Leaves P, leaves) depth 12

    initializer_code-Leaves :
        (v : Value) (content : Initialized) (ref : Option Lit) (r : Region) (st : MemState)
        → P st
        → Leaves P (initializer_code vfac params mem v content ref r st)
    unfolding initializer_code
    initializer_code-Leaves v content ref r st h =
        if-Leaves P (get_singleton_value r params.lower_singleton_aliases) _ _
          (search (bind-Leaves P, leaves) depth 6)
          (elim (Option-cases (mem.offset_of v)) [
            | inl e ↦ rw e (leaves _ h)
            | inr (offset, e) ↦ rw e (array_initializer-Leaves content ref r offset st h)
          ])

    do_global_initializer-Leaves :
        (I v : Value) (content : Initialized) (k : Option Value) (st : MemState)
        → P st
        → Leaves P (do_global_initializer vfac params mem I v content k st)
    unfolding do_global_initializer
    do_global_initializer-Leaves I v content none st h =
        search (if-Leaves P, leaves, initializer_code-Leaves) depth 12
    do_global_initializer-Leaves I v content (some k) st h =
        if-Leaves P (is_unknown (get_region mem I v)) _ _ (leaves _ h)
          (elim (Option-cases (get_lit vfac params k st.lits).0) [
            | inl e ↦ rw e (leaves _ (asks k st h))
            | inr (l, e) ↦ rw e (initializer_code-Leaves v content (some l) _ _ (asks k st h))
          ])

    pub translate-Leaves : (op : MemOp) (st : MemState) → P st → Leaves P (translate op st)
    unfolding translate
    translate-Leaves (store_op I ptr value b) st h = visit_store_inst-Leaves I ptr value b st h
    translate-Leaves (load_op I ptr) st h = visit_load_inst-Leaves I ptr st h
    translate-Leaves (alloca_op I a) st h = visit_alloca_inst-Leaves I a st h
    translate-Leaves (alloc_op I) st h = do_alloc_fn-Leaves I st h
    translate-Leaves (intrinsic_op I dst op) st h = do_mem_intrinsic-Leaves I dst op st h
    translate-Leaves (initializer_op I v content k) st h =
        do_global_initializer-Leaves I v content k st h
