-- ===== src/Builder/Memory/Narrow.antt =====
-- A load from a region that is narrower than the result.
use crab_llvm.Prelude.{
  [], ◌∷◌, ℕ, ◌≡◌, refl, inl, inr, not, true, false, some, arith, ltb, Bool-cases,
}
use crab_llvm.Prelude.Int.{ℤ, pos, eqb_ℤ}
use crab_llvm.Llvm.{Value, type_of}
use crab_llvm.Utils.Types.{CrabBuilderParams}
use crab_llvm.Lit.{
  Var, Lit, bool_cst, int_cst, VariableFactory, IsVariableFactory, LitState, find_lit, mk_int_var,
  Region,
}
use crab_llvm.Lit.Cache.{IsValid}
use crab_llvm.Lit.Fresh.{fresh-IsReserved}
use crab_llvm.Crab.{Env, Meaning, continues, array_at, exp_at, array_load}
use crab_llvm.Crab.Run.{run, exec, set_cell_var, is_bool_var}
use crab_llvm.Builder.Phi.Values.{value_of, write, IsApart, write-IsApart}
use crab_llvm.Builder.Memory.{Layout, MemState, infer_array_index}
use crab_llvm.Builder.Memory.Load.{load_var, array_load_code, do_load_inst}

set_cell_var-IsApart :
    (x : Var) (n : ℤ) (m : Lit) (env : Env)
    → IsApart x m
    → value_of (set_cell_var x n env) m ≡ value_of env m
unfolding write set_cell_var value_of
set_cell_var-IsApart x n m env h = elim (Bool-cases (is_bool_var x)) [
  | inl e ↦ rw (e, set_cell_var) (write-IsApart x (bool_cst (not (eqb_ℤ n (pos 0)))) m env h)
  | inr e ↦ rw (e, set_cell_var) (write-IsApart x (int_cst n) m env h)
]

ltb_self : (n : ℕ) → ltb n n ≡ false
ltb_self n = ground arith

module _ (vfac : VariableFactory) (params : CrabBuilderParams)
    (distinct_names : IsVariableFactory vfac) (mem : Layout) (μ : Meaning) (env : Env) where
  abbrev new_var : Region → LitState → Var
  new_var r st = (mk_int_var vfac params r.region_bitwidth st).0

  narrow_code :
      (I ptr : Value) (x y : Var) (r : Region) (st : MemState)
      → ltb r.region_bitwidth x.bitwidth ≡ true
      → (array_load_code vfac params mem I ptr x y r st).0
        ≡ array_load
            (new_var r st.lits)
            y
            (infer_array_index vfac params mem ptr
              (record st { lits = (mk_int_var vfac params r.region_bitwidth st.lits).1 })).0
            (mem.alloc_size (type_of I))
          ∷ []
  unfolding array_load_code load_var mk_int_var
  narrow_code I ptr x y r st h = rw h (rw (ltb_self r.region_bitwidth) refl)

  -- A load from an array of a region that is narrower than the variable of the result runs on and
  -- leaves every value that has a literal as it was, also the result of the load.
  pub do_load_inst-narrow :
      (I ptr : Value) (x y : Var) (r : Region) (st : MemState)
      → IsValid vfac params distinct_names st.lits
      → ltb r.region_bitwidth x.bitwidth ≡ true
      → (after : Env) × (run μ (do_load_inst vfac params mem I ptr false x y r st).0 env
          ≡ continues after)
        × ((v : Value) (l : Lit)
            → find_lit v st.lits.cache ≡ some l
            → value_of after l ≡ value_of env l)
  unfolding do_load_inst mk_int_var
  do_load_inst-narrow I ptr x y r st valid h =
      let z = new_var r st.lits in
      let index =
        (infer_array_index vfac params mem ptr
          (record st { lits = (mk_int_var vfac params r.region_bitwidth st.lits).1 })).0 in
      (
        set_cell_var z (array_at env y.name (exp_at env index)) env,
        rw (narrow_code I ptr x y r st h) (unfold run exec in refl),
        λ v l e.
            set_cell_var-IsApart z _ l env (λ w g.
              (fresh-IsReserved vfac params distinct_names st.lits z valid refl).3 v l w e g),
      )
