-- ===== src/Builder/Memory/Updates.antt =====
-- Which stores to arrays are strong updates.
use crab_llvm.Prelude.{
  ℕ, ◌≡◌, ◌==◌, ◌||◌, refl, sym, ap, ◌∙◌, Bool, true, false, Option, none, some, List, [], ◌∷◌,
  ◌++◌, arith, some_inj, subst, inl, inr, Bool-cases, Option-cases, ==_refl, ◌>>=◌,
}
use crab_llvm.Llvm.{Value, type_of}
use crab_llvm.Utils.Types.{CrabBuilderParams}
use crab_llvm.Lit.{Lit, Var, LinExp, VariableFactory, Region}
use crab_llvm.Crab.{Stmt, Operand, array_store}
use crab_llvm.Builder.Memory.{
  Layout, MemState, is_member, insert_region, has_singleton, infer_array_index,
}
use crab_llvm.Builder.Memory.Store.{stored, is_strong_update, array_store_code, do_store_inst}
use crab_llvm.Builder.Memory.Leaves.{MemOp, Leaves, fails, leaves, translate, translate-Leaves}

or_true : (b : Bool) → b || true ≡ true
or_true true = refl
or_true false = refl

is_member-insert_region :
    (n m : ℕ) (ids : List ℕ) → is_member n ids ≡ true → is_member n (insert_region m ids) ≡ true
unfolding insert_region is_member
is_member-insert_region n m ids h = elim (Bool-cases (is_member m ids)) [
  | inl e ↦ rw (e, insert_region) h
  | inr e ↦ rw (e, insert_region) (rw h (or_true (n == m)))
]

leaves_of :
    (P : MemState → Type 0) (o : Option (List Stmt × MemState)) (r : List Stmt × MemState)
    → Leaves P o
    → o ≡ some r
    → P r.1
leaves_of P none r fails e = absurd (none_ne_some e)
  where
    none_ne_some : ¬ (none ≡ some r)
    none_ne_some q = ground arith
leaves_of P (some q) r (leaves _ h) e = subst (λ w. P w.1) (some_inj _ _ e) h

module _ (vfac : VariableFactory) (params : CrabBuilderParams) (mem : Layout) where
  -- The state after some memory instructions, if all of them are translated.
  unfoldable pub translate_all : List MemOp → MemState → Option MemState
  unfolding translate
  translate_all [] st = some st
  translate_all (op ∷ ops) st = do r ← translate vfac params mem op st; translate_all ops r.1

  -- A region that was written stays so.
  written-translate_all :
      (n : ℕ) (ops : List MemOp) (st st' : MemState)
      → is_member n st.init_regions ≡ true
      → translate_all ops st ≡ some st'
      → is_member n st'.init_regions ≡ true
  unfolding translate_all
  written-translate_all n [] st st' h e =
      subst (λ s. is_member n s.init_regions ≡ true) (some_inj _ _ e) h
  written-translate_all n (op ∷ ops) st st' h e =
      elim (Option-cases (translate vfac params mem op st)) [
        | inl f ↦ absurd (none_ne_some (sym (ap (λ o. o >>= λ r. translate_all ops r.1) f) ∙ e))
        | inr (r, f) ↦
            written-translate_all n ops r.1 st'
              (leaves_of (λ s. is_member n s.init_regions ≡ true) _ r
                (translate-Leaves vfac params mem (λ s. is_member n s.init_regions ≡ true)
                  (λ v s k. k) (λ s k. k) (λ m s k. is_member-insert_region n m s.init_regions k)
                  (λ s k. k) op st h)
                f)
              (sym (ap (λ o. o >>= λ r. translate_all ops r.1) f) ∙ e)
      ]
    where
      none_ne_some : ¬ (none ≡ some st')
      none_ne_some q = ground arith

  insert_region-member : (n : ℕ) (ids : List ℕ) → is_member n (insert_region n ids) ≡ true
  unfolding insert_region is_member
  insert_region-member n ids = elim (Bool-cases (is_member n ids)) [
    | inl e ↦ rw (e, insert_region) e
    | inr e ↦ rw (e, insert_region) (rw (==_refl n) refl)
  ]

  infer_array_index-init :
      (ptr : Value) (st : MemState)
      → (infer_array_index vfac params mem ptr st).1.init_regions ≡ st.init_regions
  unfolding infer_array_index
  infer_array_index-init ptr st = ground arith

  -- What an array store leaves.
  array_store_code-written :
      (ptr value : Value) (in_entry : Bool) (x : Var) (val : Lit) (r : Region) (st st' : MemState)
      (code : List Stmt)
      → array_store_code vfac params mem ptr value in_entry x val r st ≡ some (code, st')
      → (is_member r.id st'.init_regions ≡ true)
        × (pre : List Stmt) × (idx : LinExp) × (op : Operand) × (code
            ≡ pre
              ++ (array_store x idx op
                    (mem.alloc_size (type_of value))
                    (is_strong_update r in_entry st.init_regions)
                  ∷ []))
  unfolding array_store_code
  array_store_code-written ptr value in_entry x val r st st' code e =
      let found = infer_array_index vfac params mem ptr st in
      elim (Option-cases (stored vfac params mem r val found.1.lits)) [
        | inl f ↦ absurd (failed (rw f at e))
        | inr (out, f) ↦
            let made = some_inj _ _ (rw f at e) in
            (
              subst (λ (p : List Stmt × MemState). is_member r.id p.1.init_regions ≡ true) made
                  (insert_region-member r.id found.1.init_regions),
              out.0,
              found.0,
              out.1,
              sym (ap (λ (p : List Stmt × MemState). p.0) made)
                  ∙ ap
                      (λ inits.
                        out.0
                        ++ (array_store x found.0 out.1 (mem.alloc_size (type_of value))
                              (is_strong_update r in_entry inits)
                            ∷ []))
                      (infer_array_index-init ptr st),
            )
      ]
    where
      failed : ¬ (◌≡◌ {A = Option (List Stmt × MemState)} none (some (code, st')))
      failed q = ground arith

  weak :
      (r : Region) (in_entry : Bool) (inits : List ℕ)
      → is_member r.id inits ≡ true
      → is_strong_update r in_entry inits ≡ has_singleton r
  unfolding is_strong_update
  weak r in_entry inits h = ground arith

  -- After a store to the array of a region, and any memory instructions that are translated, a
  -- store to the array of the same region ends with a statement that is a strong update exactly if
  -- the region is that of a singleton, also in the entry block.
  pub do_store_inst-weak :
      (ptr value ptr' value' : Value) (in_entry in_entry' : Bool) (x x' : Var) (val val' : Lit)
      (r r' : Region) (ops : List MemOp) (st st1 st2 st3 : MemState) (code code' : List Stmt)
      → do_store_inst vfac params mem ptr value in_entry false x val r st ≡ some (code, st1)
      → translate_all ops st1 ≡ some st2
      → do_store_inst vfac params mem ptr' value' in_entry' false x' val' r' st2 ≡ some (code', st3)
      → r'.id ≡ r.id
      → (pre : List Stmt) × (idx : LinExp) × (op : Operand) × (code'
          ≡ pre
            ++ (array_store x' idx op (mem.alloc_size (type_of value')) (has_singleton r') ∷ []))
  unfolding do_store_inst
  do_store_inst-weak ptr value ptr' value' b b' x x' val val' r r' ops st st1 st2 st3 code code' e f
        e' same =
      let first = array_store_code-written ptr value b x val r st st1 code e in
      let kept = written-translate_all r.id ops st1 st2 first.0 f in
      let (written, pre, idx, op, made) =
        array_store_code-written ptr' value' b' x' val' r' st2 st3 code' e' in
      (
        pre,
        idx,
        op,
        made
            ∙ ap
                (λ strong.
                  pre ++ (array_store x' idx op (mem.alloc_size (type_of value')) strong ∷ []))
                (weak r' b' st2.init_regions
                  (subst (λ n. is_member n st2.init_regions ≡ true) (sym same) kept)),
      )
