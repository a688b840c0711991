-- ===== src/Builder/Phi/Correct.antt =====
-- CrabPhiVisitor assigns the PHI nodes of a block atomically.
use crab_llvm.Prelude.{
  ◌≡◌, ◌≢◌, ◌∙◌, inl, inr, sym, subst, refl, true, false, none, some, List, [], ◌∷◌, ◌++◌, arith,
  Option-cases, some_inj, true_ne_false, All,
}
use crab_llvm.Llvm.{Value, Value-discrete, type_of}
use crab_llvm.Utils.Types.{CrabBuilderParams, is_tracked}
use crab_llvm.Lit.{Var, Lit, get_var, VariableFactory, IsVariableFactory, LitState, find_lit}
use crab_llvm.Lit.Cache.{IsValid, get_lit-IsValid}
use crab_llvm.Lit.Fresh.{
  HasVars, IsReserved, get_lit-IsReserved, Extends, Asks, asked, Asks-keeps, Asks-Extends,
}
use crab_llvm.Crab.{Stmt, Env, Meaning, continues}
use crab_llvm.Crab.Run.{run, run-append}
use crab_llvm.Builder.Phi.{PhiNode, is_phi_of, find_old, save_olds, assign_phis, visit_phis}
use crab_llvm.Builder.Phi.Values.{value_of, like}
use crab_llvm.Builder.Phi.Olds.{IsRegNode}
use crab_llvm.Builder.Phi.Save.{IsSaved}
use crab_llvm.Builder.Phi.Loop.{IsStep, save_olds-IsStep, save_olds-covers}
use crab_llvm.Builder.Phi.Moves.{
  AreDistinct, IsActive, source, Ready, IsGood, IsClear, IsMove, phis-IsMove,
}

-- LLVM's PHI nodes: different instructions, each of the type of its incoming value.
pub record IsPhiBlock (block : List PhiNode) : Type 0 where
  pub regs : All IsRegNode block
  pub distinct : AreDistinct block
  pub types : All (λ p. type_of p.incoming ≡ type_of p.node) block

is_phi_of-step :
    (v : Value) (p : PhiNode) (block : List PhiNode)
    → is_phi_of v block ≡ true
    → is_phi_of v (p ∷ block) ≡ true
unfolding is_phi_of
is_phi_of-step v p block h =
    elim (Value-discrete p.node v)
      as (λ d. elim d [ yes e ↦ true | no n ↦ is_phi_of v block ] ≡ true) [
        | yes e ↦ refl
        | no d ↦ h
      ]

is_phi_of-head : (p : PhiNode) (block : List PhiNode) → is_phi_of p.node (p ∷ block) ≡ true
unfolding is_phi_of
is_phi_of-head p block =
    elim (Value-discrete p.node p.node)
      as (λ d. elim d [ yes e ↦ true | no n ↦ is_phi_of p.node block ] ≡ true) [
        | yes e ↦ refl
        | no d ↦ absurd (d refl)
      ]

all_in :
    (ps block : List PhiNode)
    → ((v : Value) → is_phi_of v ps ≡ true → is_phi_of v block ≡ true)
    → All (λ p. is_phi_of p.node block ≡ true) ps
all_in [] block sub = tt
all_in (p ∷ ps) block sub =
    (sub p.node (is_phi_of-head p ps), all_in ps block (λ v h. sub v (is_phi_of-step v p ps h)))

module _ (vfac : VariableFactory) (params : CrabBuilderParams)
    (distinct_names : IsVariableFactory vfac) (μ : Meaning) (env : Env) (block : List PhiNode)
    (st : LitState) (valid : IsValid vfac params distinct_names st) where
  abbrev IsSavedHere : List (Value × Var) → LitState → Env → Type 0
  IsSavedHere = IsSaved vfac params distinct_names μ env

  nothing_saved : IsSavedHere [] st env
  unfolding find_old
  nothing_saved = record {
    valid = valid;
    reserved = λ v y h. absurd (clash y h);
    held = λ v y h. absurd (clash y h);
    kept = λ m apart. refl;
  }
    where
      clash : (y : Var) → ¬ (none ≡ some y)
      clash y h = ground arith

  -- What the second loop is given, for the literals of a state after the first.
  module _ (olds : List (Value × Var)) (mid fin : LitState) (env1 : Env)
      (saved : IsSavedHere olds mid env1) (asks : Asks vfac params mid fin) where
    final-IsValid : IsValid vfac params distinct_names fin
    final-IsValid =
        Asks-keeps vfac params (IsValid vfac params distinct_names)
          (λ v s h. get_lit-IsValid vfac params distinct_names v s h) mid fin asks saved.valid

    final_unused :
        (v : Value) (y : Var)
        → find_old v olds ≡ some y
        → (u : Value) (l : Lit) (x : Var) → find_lit u fin.cache ≡ some l
        → get_var l ≡ some x
        → y.name ≢ x.name
    final_unused v y h =
        (Asks-keeps vfac params (IsReserved vfac params y)
          (λ u s k. get_lit-IsReserved vfac params distinct_names u s y k) mid fin asks
          (saved.reserved v y h)).3

    final_cached :
        (v : Value) (y : Var)
        → find_old v olds ≡ some y
        → (l : Lit) × (find_lit v fin.cache ≡ some l)
    final_cached v y h =
        let (l, e, same) = saved.held v y h in (l, Asks-Extends vfac params mid fin asks v l e)

    first-Ready :
        (p : PhiNode) → Ready vfac params distinct_names μ env block olds fin final-IsValid env1 p
    first-Ready p active k hk = elim (Option-cases (find_old p.incoming olds)) [
      | inl e ↦
          rw (e, source) (saved.kept k (λ v y h z hz. final_unused v y h p.incoming k z hk hz))
      | inr (y, e) ↦
          let (l, hl, same) = saved.held p.incoming y e in
          let eq : l ≡ k =
            some_inj _ _ (sym (Asks-Extends vfac params mid fin asks p.incoming l hl) ∙ hk) in
          rw (e, source) (subst (λ w. value_of env1 (like w y) ≡ value_of env w) eq same)
    ]

  all-IsGood :
      (ps : List PhiNode) (olds : List (Value × Var)) (fin : LitState)
      (good : IsValid vfac params distinct_names fin)
      → All IsRegNode ps
      → All (λ p. is_phi_of p.node block ≡ true) ps
      → All (λ p. type_of p.incoming ≡ type_of p.node) ps
      → All
          (λ p.
            is_tracked p.incoming params ≡ true
            → is_phi_of p.incoming block ≡ true
            → p.shadow_name ≡ false
            → find_old p.incoming olds ≢ none)
          ps
      → All (IsGood vfac params distinct_names μ env block olds fin good) ps
  all-IsGood [] olds fin good regs ins types covers = tt
  all-IsGood (p ∷ ps) olds fin good (r, regs) (i, ins) (t, types) (c, covers) =
      ((r, i, t, c), all-IsGood ps olds fin good regs ins types covers)

  all_ready : (ps : List PhiNode) (P : PhiNode → Type 0) → ((p : PhiNode) → P p) → All P ps
  all_ready [] P h = tt
  all_ready (p ∷ ps) P h = (h p, all_ready ps P h)

  -- The literals of other values do not read a node of the block.
  all-IsClear :
      (v : Value) (m : Lit) (ps : List PhiNode) (olds : List (Value × Var)) (fin : LitState)
      (good : IsValid vfac params distinct_names fin)
      → is_phi_of v block ≡ false
      → All (λ p. is_phi_of p.node block ≡ true) ps
      → find_lit v fin.cache ≡ some m
      → All (IsClear vfac params distinct_names μ env block olds fin good m) ps
  all-IsClear v m [] olds fin good other ins hm = tt
  all-IsClear v m (p ∷ ps) olds fin good other (i, ins) hm = (
    λ l x hl hx y hy same. true_ne_false (
        sym (
          subst (λ w. is_phi_of w block ≡ true) (good.distinct p.node v l m x y hl hm hx hy same) i)
        ∙ other),
    all-IsClear v m ps olds fin good other ins hm,
  )

  -- The two loops together.
  finish :
      (saves : List Stmt × List (Value × Var) × LitState)
      (step : IsStep vfac params distinct_names μ env [] st env saves) (r : List Stmt × LitState)
      (asks : Asks vfac params saves.2 r.1)
      → saves ≡ save_olds vfac params block block [] st
      → assign_phis vfac params saves.1 block saves.2 ≡ some r
      → IsMove vfac params distinct_names μ env block saves.1 r.1
          (final-IsValid saves.1 saves.2 r.1 step.after step.saved asks)
          step.after
          block
          r.0
      → All (λ p. is_phi_of p.node block ≡ true) block
      → (code : List Stmt) × (fin : LitState) × (after : Env) × (visit_phis vfac params block st
          ≡ some (code, fin))
        × IsValid vfac params distinct_names fin
        × (run μ code env ≡ continues after)
        × All
            (λ p.
              IsActive params p
              → (l k : Lit) × (find_lit p.node fin.cache ≡ some l)
                × (find_lit p.incoming fin.cache ≡ some k)
                × (value_of after l ≡ value_of env k))
            block
        × ((v : Value) (m : Lit)
            → is_phi_of v block ≡ false
            → find_lit v fin.cache ≡ some m
            → value_of after m ≡ value_of env m)
  unfolding visit_phis
  finish saves step r asks same e move ins =
      let good = final-IsValid saves.1 saves.2 r.1 step.after step.saved asks in
      (
        saves.0 ++ r.0,
        r.1,
        move.after,
        rw⁻¹ same (rw e refl),
        good,
        run-append μ saves.0 r.0 env step.after step.runs ∙ move.runs,
        move.moved,
        λ v m other hm.
            move.frame m (all-IsClear v m block saves.1 r.1 good other ins hm)
            ∙ step.saved.kept m (λ u y h z hz.
              final_unused saves.1 saves.2 r.1 step.after step.saved asks u y h v m z hm hz),
      )

  -- The translation of a block's PHI nodes for a predecessor succeeds, and its statements run on.
  -- Afterwards the variable of each PHI node that is tracked, has no shadow memory's name and has
  -- an incoming value with a literal holds what that incoming value was before the block, also
  -- where this is another PHI node of the block; and all values but the PHI nodes keep theirs.
  pub visit_phis-atomic :
      HasVars vfac params st
      → IsPhiBlock block
      → (code : List Stmt) × (fin : LitState) × (after : Env) × (visit_phis vfac params block st
          ≡ some (code, fin))
        × IsValid vfac params distinct_names fin
        × (run μ code env ≡ continues after)
        × All
            (λ p.
              IsActive params p
              → (l k : Lit) × (find_lit p.node fin.cache ≡ some l)
                × (find_lit p.incoming fin.cache ≡ some k)
                × (value_of after l ≡ value_of env k))
            block
        × ((v : Value) (m : Lit)
            → is_phi_of v block ≡ false
            → find_lit v fin.cache ≡ some m
            → value_of after m ≡ value_of env m)
  visit_phis-atomic vars is_block =
      let saves : List Stmt × List (Value × Var) × LitState =
        save_olds vfac params block block [] st in
      let step : IsStep vfac params distinct_names μ env [] st env saves =
        save_olds-IsStep vfac params distinct_names μ env block block [] st env nothing_saved in
      let saved = step.saved in
      let regs = is_block.regs in
      let ins = all_in block block (λ v h. h) in
      let (r, e, asks, early) =
        phis-IsMove vfac params distinct_names μ env block saves.1 saves.2 saved.valid
          (final_unused saves.1 saves.2 saves.2 step.after saved (asked saves.2))
          (final_cached saves.1 saves.2 saves.2 step.after saved (asked saves.2)) block saves.2
          (step.vars vars) regs in
      let good = final-IsValid saves.1 saves.2 r.1 step.after saved asks in
      let (r', e', asks', moves) =
        phis-IsMove vfac params distinct_names μ env block saves.1 r.1 good
          (final_unused saves.1 saves.2 r.1 step.after saved asks)
          (final_cached saves.1 saves.2 r.1 step.after saved asks) block saves.2 (step.vars vars)
          regs in
      let same : r' ≡ r = some_inj _ _ (sym e' ∙ e) in
      let move =
        moves step.after (subst (λ w. Extends w.1 r.1) (sym same) (λ v l h. h))
          (all-IsGood block saves.1 r.1 good regs ins is_block.types (
            save_olds-covers vfac params distinct_names μ env block block [] st env nothing_saved
              regs))
          is_block.distinct
          (all_ready block _ (first-Ready saves.1 saves.2 r.1 step.after saved asks)) in
      finish saves step r asks refl e
        (subst
          (λ w. IsMove vfac params distinct_names μ env block saves.1 r.1 good step.after block w.0)
          same move)
        ins
