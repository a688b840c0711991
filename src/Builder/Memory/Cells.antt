-- ===== src/Builder/Memory/Cells.antt =====
-- Loads and stores of the cells of arrays.
use crab_llvm.Prelude.{
  ℕ, not, if◌then◌else◌, ==_refl, ◌≡◌, refl, Bool, true, false, some, List, [], ◌∷◌, arith, ltb,
}
use crab_llvm.Prelude.Int.{ℤ, pos, negsuc, eqb_ℤ}
use crab_llvm.Llvm.{Value, type_of}
use crab_llvm.Utils.Types.{CrabBuilderParams}
use crab_llvm.Lit.{
  bool_cst, bool_var, int_cst, int_var, ptr_null, ptr_var, exp_cst, Var, Lit, VariableFactory,
  LitState, Region,
}
use crab_llvm.Crab.{
  Operand, var_operand, array_store, array_load, exp_at, array_at, bool_at, int_at, set_array, Stmt,
  Env, Meaning, continues,
}
use crab_llvm.Crab.Run.{run, exec, put_cell, cell_value, set_cell_var, is_bool_var}
use crab_llvm.Builder.Phi.Values.{value_of, like}
use crab_llvm.Builder.Memory.{infer_array_index, insert_region, Layout, MemState}
use crab_llvm.Builder.Memory.Store.{is_strong_update, store_operand, stored, array_store_code}
use crab_llvm.Builder.Memory.Load.{load_var, array_load_code}

eqb_ℤ-refl : (n : ℤ) → eqb_ℤ n n ≡ true
eqb_ℤ-refl (pos n) = ground arith
eqb_ℤ-refl (negsuc n) = ground arith

-- A literal of an integer or a Boolean whose variable has the type of its class, and not more bits
-- than the region.
abbrev pub Fits : Region → Lit → Type 0
Fits r (bool_cst b) = Unit
Fits r (bool_var z) = (is_bool_var z ≡ true) × (ltb r.region_bitwidth z.bitwidth ≡ false)
Fits r (int_cst n) = Unit
Fits r (int_var z) = (is_bool_var z ≡ false) × (ltb r.region_bitwidth z.bitwidth ≡ false)
Fits r l = ⊥

is_one : (b : Bool) → not (eqb_ℤ (if b then pos 1 else pos 0) (pos 0)) ≡ b
is_one true = refl
is_one false = refl

pub Fits-width :
    (r : Region) (l : Lit) (x : Var) → Fits r (like l x) → ltb r.region_bitwidth x.bitwidth ≡ false
unfolding like
Fits-width r (bool_cst b) x (t, w) = w
Fits-width r (bool_var z) x (t, w) = w
Fits-width r (int_cst n) x (t, w) = w
Fits-width r (int_var z) x (t, w) = w
Fits-width r ptr_null x fits = elim fits [ ]
Fits-width r (ptr_var z) x fits = elim fits [ ]

module _ (μ : Meaning) (env : Env) where
  -- What a store to a cell of an array, and then a load of the cell do.
  pub cell_round_trip :
      (x y : Var) (i : ℤ) (v : Operand) (n m : ℕ) (strong : Bool)
      → run μ (array_store y (exp_cst i) v n strong ∷ array_load x y (exp_cst i) m ∷ []) env
        ≡ continues (
            set_cell_var x
              (cell_value env v)
              (set_array y.name (put_cell i (cell_value env v) (array_at env y.name)) env))
  unfolding run exec exp_at array_at put_cell
  cell_round_trip x y i v n m strong = rw (==_refl y.name) (rw (eqb_ℤ-refl i) refl)

  unfoldable pub cell_of : Lit → ℤ
  unfolding bool_at int_at
  cell_of (bool_cst b) = if b then pos 1 else pos 0
  cell_of (bool_var z) = if bool_at env z.name then pos 1 else pos 0
  cell_of (int_cst n) = n
  cell_of (int_var z) = int_at env z.name
  cell_of l = pos 0

  pub loaded :
      (r : Region) (l : Lit) (x : Var) (v : Operand) (after : Env)
      → Fits r l
      → Fits r (like l x)
      → (cell_value env v ≡ cell_of l)
      → value_of (set_cell_var x (cell_value env v) after) (like l x) ≡ value_of env l
  unfolding value_of like set_cell_var cell_of bool_at int_at
  loaded r (bool_cst b) x v after fits (t, w) e =
      rw t (rw (==_refl x.name) (rw e (rw (is_one b) refl)))
  loaded r (bool_var z) x v after fits (t, w) e =
      rw t (rw (==_refl x.name) (rw e (rw (is_one (bool_at env z.name)) refl)))
  loaded r (int_cst n) x v after fits (t, w) e = rw t (rw (==_refl x.name) (rw e refl))
  loaded r (int_var z) x v after fits (t, w) e = rw t (rw (==_refl x.name) (rw e refl))
  loaded r ptr_null x v after fits w e = elim fits [ ]
  loaded r (ptr_var z) x v after fits w e = elim fits [ ]

  -- What `stored` gives for a literal that fits: no statements, and its value.
  module _ (vfac : VariableFactory) (params : CrabBuilderParams) (mem : Layout) where
    pub stored_value :
        (r : Region) (l : Lit) (st : LitState)
        → Fits r l
        → (v : Operand) × (stored vfac params mem r l st ≡ some ([], v, st))
          × (cell_value env v ≡ cell_of l)
    unfolding stored store_operand cell_value cell_of
    stored_value r (bool_cst b) st fits = (_, refl, refl)
    stored_value r (bool_var z) st (t, w) = (var_operand z, rw w refl, rw t refl)
    stored_value r (int_cst n) st fits = (_, refl, refl)
    stored_value r (int_var z) st (t, w) = (var_operand z, rw w refl, rw t refl)
    stored_value r ptr_null st fits = elim fits [ ]
    stored_value r (ptr_var z) st fits = elim fits [ ]

    unfoldable pub stored_code : Value → Bool → Var → Operand → Region → ℤ → List ℕ → List Stmt
    stored_code value in_entry y v r i inits =
        array_store y (exp_cst i) v (mem.alloc_size (type_of value))
          (is_strong_update r in_entry inits)
        ∷ []

    index_known :
        (ptr : Value) (i : ℤ) (st : MemState)
        → mem.offset_of ptr ≡ some i
        → infer_array_index vfac params mem ptr st ≡ (exp_cst i, st)
    unfolding infer_array_index
    index_known ptr i st h = rw (h, infer_array_index) refl

    load_var_fits :
        (r : Region) (x : Var) (st : LitState)
        → ltb r.region_bitwidth x.bitwidth ≡ false
        → load_var vfac params mem r x st ≡ (x, st)
    unfolding load_var
    load_var_fits r x st w = rw w refl

    pub array_store_known :
        (ptr value : Value) (in_entry : Bool) (y : Var) (l : Lit) (r : Region) (i : ℤ) (v : Operand)
        (st : MemState)
        → mem.offset_of ptr ≡ some i
        → stored vfac params mem r l st.lits ≡ some ([], v, st.lits)
        → array_store_code vfac params mem ptr value in_entry y l r st
          ≡ some (
            stored_code value in_entry y v r i st.init_regions,
            record st { init_regions = insert_region r.id st.init_regions },
          )
    unfolding array_store_code stored_code
    array_store_known ptr value in_entry y l r i v st h e = rw (index_known ptr i st h) (rw e refl)

    pub array_load_known :
        (I ptr : Value) (x y : Var) (r : Region) (i : ℤ) (st : MemState)
        → mem.offset_of ptr ≡ some i
        → ltb r.region_bitwidth x.bitwidth ≡ false
        → array_load_code vfac params mem I ptr x y r st
          ≡ (array_load x y (exp_cst i) (mem.alloc_size (type_of I)) ∷ [], st)
    unfolding array_load_code
    array_load_known I ptr x y r i st h w =
        rw (load_var_fits r x st.lits w) (rw (index_known ptr i st h) (rw w refl))
