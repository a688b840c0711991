-- ===== src/Builder/Phi/Loop.antt =====
-- About the first loop of CrabPhiVisitor: the old versions of the PHI nodes.
use crab_llvm.Prelude.{
  ◌≡◌, ◌≢◌, ◌∙◌, inl, inr, sym, ap, subst, refl, Bool, true, false, ◌&&◌, none, some, List, [], ◌∷◌,
  arith, Option-cases, Bool-cases, true_ne_false, All, if◌then◌else◌,
}
use crab_llvm.Llvm.{Value}
use crab_llvm.Utils.Types.{CrabBuilderParams, is_tracked}
use crab_llvm.Lit.{
  Var, Lit, VariableFactory, IsVariableFactory, LitState, find_lit, get_lit, mk_bool_var,
  mk_int_var, mk_ptr_var,
}
use crab_llvm.Lit.Exact.{find_lit-get_lit}
use crab_llvm.Lit.Fresh.{Extends, next, get_lit-Extends, HasVars, get_lit-HasVars, get_lit-tracked}
use crab_llvm.Crab.{Stmt, Env, Meaning, continues}
use crab_llvm.Crab.Run.{run, run-append}
use crab_llvm.Builder.Phi.{
  PhiNode, is_phi_of, find_old, is_absent, assign_lit, old_var, save_lit, save_old, save_olds,
}
use crab_llvm.Builder.Phi.Values.{write, run-assign_lit}
use crab_llvm.Builder.Phi.Olds.{find_old_self, IsPart, add_old-IsPart, IsRegNode, is_reg_of}
use crab_llvm.Builder.Phi.Save.{IsSaved, get_lit-IsSaved, added-IsSaved}

module _ (vfac : VariableFactory) (params : CrabBuilderParams)
    (distinct_names : IsVariableFactory vfac) (μ : Meaning) (env0 : Env) where
  abbrev Saved : List (Value × Var) → LitState → Env → Type 0
  Saved = IsSaved vfac params distinct_names μ env0

  old_var_fresh :
      (v : Value) (l : Lit) (st : LitState)
      → ((old_var vfac params v l st).0.name ≡ vfac.fresh_name st.fresh_count)
        × ((old_var vfac params v l st).1 ≡ next st)
  unfolding old_var mk_bool_var mk_int_var mk_ptr_var
  old_var_fresh v l st = ground arith

  -- The statements run to a state with the old versions of the result.
  pub record IsStep (olds : List (Value × Var)) (st : LitState) (env : Env)
      (r : List Stmt × List (Value × Var) × LitState) : Type 0 where
    pub after : Env
    pub runs : run μ r.0 env ≡ continues after
    pub saved : Saved r.1 r.2 after
    pub part : IsPart olds r.1
    pub extends : Extends st r.2
    pub vars : HasVars vfac params st → HasVars vfac params r.2

  no-IsStep :
      (olds : List (Value × Var)) (st : LitState) (env : Env)
      → Saved olds st env
      → IsStep olds st env ([], olds, st)
  unfolding run
  no-IsStep olds st env saved = record {
    after = env;
    runs = refl;
    saved = saved;
    part = λ v y h. h;
    extends = λ v l h. h;
    vars = λ h. h;
  }

  save_lit-IsStep :
      (v : Value) (l : Lit) (olds : List (Value × Var)) (st : LitState) (env : Env)
      → Saved olds st env
      → find_lit v st.cache ≡ some l
      → find_old v olds ≡ none
      → IsStep olds st env (save_lit vfac params v l olds st)
  unfolding save_lit
  save_lit-IsStep v l olds st env saved cached missing =
      let y : Var = (old_var vfac params v l st).0 in
      let (named, e) = old_var_fresh v l st in
      record {
        after = write y l env;
        runs = run-assign_lit μ y l env;
        saved = rw e (
            added-IsSaved vfac params distinct_names μ env0 v l y olds st env saved cached missing
              named);
        part = add_old-IsPart v y olds missing;
        extends = rw e (λ u k h. h);
        vars = rw e (λ h. h);
      }

  is_absent-none :
      (v : Value) (olds : List (Value × Var))
      → is_absent vfac params v olds ≡ true
      → find_old v olds ≡ none
  unfolding is_absent
  is_absent-none v olds h = elim (Option-cases (find_old v olds)) [
    | inl e ↦ e
    | inr (y, e) ↦ absurd (true_ne_false (sym h ∙ rw (e, is_absent) refl))
  ]

  after_get_lit :
      (v : Value) (olds : List (Value × Var)) (st : LitState) (env : Env)
      (r : List Stmt × List (Value × Var) × LitState)
      → IsStep olds (get_lit vfac params v st).1 env r
      → IsStep olds st env r
  after_get_lit v olds st env r step = record {
    after = step.after;
    runs = step.runs;
    saved = step.saved;
    part = step.part;
    extends = λ u l h. step.extends u l (get_lit-Extends vfac params v st u l h);
    vars = λ h. step.vars (get_lit-HasVars vfac params v st h);
  }

  save_old-IsStep :
      (block : List PhiNode) (p : PhiNode) (olds : List (Value × Var)) (st : LitState) (env : Env)
      → Saved olds st env
      → IsStep olds st env (save_old vfac params block p olds st)
  unfolding save_old
  save_old-IsStep block p olds st env saved =
      elim (Bool-cases (
        is_tracked p.incoming params
        && is_phi_of p.incoming block
        && is_absent vfac params p.incoming olds)) [
          | inr e ↦ rw e (no-IsStep olds st env saved)
          | inl e ↦ rw e (
              after_get_lit p.incoming olds st env _ (
                saving (
                  is_absent-none p.incoming olds
                    (last_true (is_tracked p.incoming params) (is_phi_of p.incoming block) _ e))))
        ]
    where
      last_true : (a b c : Bool) → a && b && c ≡ true → c ≡ true
      last_true a b c h = ground arith

      saving :
          find_old p.incoming olds ≡ none
          → IsStep olds
              (get_lit vfac params p.incoming st).1
              env
              (elim (get_lit vfac params p.incoming st).0
                as (λ x. List Stmt × List (Value × Var) × LitState) [
                  | none ↦ ([], olds, (get_lit vfac params p.incoming st).1)
                  | some l ↦
                      if p.shadow_name
                      then ([], olds, (get_lit vfac params p.incoming st).1)
                      else save_lit vfac params p.incoming l olds
                          (get_lit vfac params p.incoming st).1
                ])
      saving missing =
          let saved' =
            get_lit-IsSaved vfac params distinct_names μ env0 p.incoming olds st env saved in
          elim (Option-cases (get_lit vfac params p.incoming st).0) [
            | inl e ↦ rw e (no-IsStep olds _ env saved')
            | inr (l, e) ↦ rw e (elim (Bool-cases p.shadow_name) [
              | inl f ↦ rw f (no-IsStep olds _ env saved')
              | inr f ↦ rw f (
                  save_lit-IsStep p.incoming l olds _ env saved'
                    (find_lit-get_lit vfac params p.incoming st l e) missing)
            ])
          ]

  pub save_olds-IsStep :
      (block ps : List PhiNode) (olds : List (Value × Var)) (st : LitState) (env : Env)
      → Saved olds st env
      → IsStep olds st env (save_olds vfac params block ps olds st)
  unfolding save_olds run
  save_olds-IsStep block [] olds st env saved = no-IsStep olds st env saved
  save_olds-IsStep block (p ∷ ps) olds st env saved =
      let first = save_old-IsStep block p olds st env saved in
      let rest =
        save_olds-IsStep block ps (save_old vfac params block p olds st).1
          (save_old vfac params block p olds st).2 first.after first.saved in
      record {
        after = rest.after;
        runs =
            run-append μ (save_old vfac params block p olds st).0 _ env first.after first.runs
            ∙ rest.runs;
        saved = rest.saved;
        part = λ v y h. rest.part v y (first.part v y h);
        extends = λ v l h. rest.extends v l (first.extends v l h);
        vars = λ h. rest.vars (first.vars h);
      }

  save_old-covers :
      (block : List PhiNode) (p : PhiNode) (olds : List (Value × Var)) (st : LitState) (env : Env)
      → Saved olds st env
      → All IsRegNode block
      → is_tracked p.incoming params ≡ true
      → is_phi_of p.incoming block ≡ true
      → p.shadow_name ≡ false
      → find_old p.incoming (save_old vfac params block p olds st).1 ≢ none
  unfolding save_old
  save_old-covers block p olds st env saved regs ht hp hs missing =
      elim (Option-cases (find_old p.incoming olds)) [
        | inr (y, e) ↦
            clash y
              (sym ((save_old-IsStep block p olds st env saved).part p.incoming y e) ∙ missing)
        | inl e ↦ elim (Option-cases (get_lit vfac params p.incoming st).0) [
          | inl g ↦
              let (i, t, same) = is_reg_of p.incoming block regs hp in
              get_lit-tracked vfac params i t st (subst (λ w. is_tracked w params ≡ true) same ht)
                (subst (λ w. (get_lit vfac params w st).0 ≡ none) same g)
          | inr (l, g) ↦
              clash (old_var vfac params p.incoming l (get_lit vfac params p.incoming st).1).0 (
                sym (find_old_self p.incoming _ olds)
                ∙ sym (ap (λ r. find_old p.incoming r.1) (saves l (rw (e, is_absent) refl) g))
                ∙ missing)
        ]
      ]
    where
      clash : (y : Var) → some y ≢ none
      clash y q = ground arith

      saves :
          (l : Lit)
          → is_absent vfac params p.incoming olds ≡ true
          → (get_lit vfac params p.incoming st).0 ≡ some l
          → save_old vfac params block p olds st ≡ (
            assign_lit (old_var vfac params p.incoming l (get_lit vfac params p.incoming st).1).0 l,
            (p.incoming, (old_var vfac params p.incoming l (get_lit vfac params p.incoming st).1).0)
                ∷ olds,
            (old_var vfac params p.incoming l (get_lit vfac params p.incoming st).1).1,
          )
      saves l ha g = unfold save_old save_lit in rw (ht) (rw hp (rw ha (rw g (rw hs refl))))

  -- A tracked incoming value that is a PHI node of the block has an old version afterwards.
  pub save_olds-covers :
      (block ps : List PhiNode) (olds : List (Value × Var)) (st : LitState) (env : Env)
      → Saved olds st env
      → All IsRegNode block
      → All
          (λ p.
            is_tracked p.incoming params ≡ true
            → is_phi_of p.incoming block ≡ true
            → p.shadow_name ≡ false
            → find_old p.incoming (save_olds vfac params block ps olds st).1 ≢ none)
          ps
  unfolding save_olds
  save_olds-covers block [] olds st env saved regs = tt
  save_olds-covers block (p ∷ ps) olds st env saved regs =
      let first = save_old-IsStep block p olds st env saved in
      let rest =
        save_olds-IsStep block ps (save_old vfac params block p olds st).1
          (save_old vfac params block p olds st).2 first.after first.saved in
      (
        λ ht hp hs missing.
            elim (Option-cases (find_old p.incoming (save_old vfac params block p olds st).1)) [
              | inl e ↦ save_old-covers block p olds st env saved regs ht hp hs e
              | inr (y, e) ↦ clash y (sym (rest.part p.incoming y e) ∙ missing)
            ],
        save_olds-covers block ps (save_old vfac params block p olds st).1
            (save_old vfac params block p olds st).2 first.after first.saved regs,
      )
    where
      clash : (y : Var) → some y ≢ none
      clash y q = ground arith
