-- ===== src/Builder/Phi/Save.antt =====
-- The invariant of the first loop of CrabPhiVisitor.
use crab_llvm.Prelude.{
  ◌≡◌, ◌≢◌, ◌∙◌, ◌⊎◌, inl, inr, sym, subst, none, some, List, ◌∷◌, arith, some_inj,
}
use crab_llvm.Llvm.{Value, Value-discrete}
use crab_llvm.Utils.Types.{CrabBuilderParams}
use crab_llvm.Lit.{Var, Lit, VariableFactory, IsVariableFactory, LitState, find_lit, get_lit}
use crab_llvm.Lit.Cache.{IsValid, get_lit-IsValid}
use crab_llvm.Lit.Fresh.{
  next, get_lit-Extends, IsReserved, get_lit-IsReserved, fresh-IsReserved, next-IsReserved,
  next-IsValid,
}
use crab_llvm.Crab.{Env, Meaning}
use crab_llvm.Builder.Phi.{find_old}
use crab_llvm.Builder.Phi.Values.{
  value_of, like, like-IsApart, write, IsApart, write-like, write-IsApart,
}
use crab_llvm.Builder.Phi.Olds.{find_old_self, find_old_ne, add_old-IsPart}

module _ (vfac : VariableFactory) (params : CrabBuilderParams)
    (distinct_names : IsVariableFactory vfac) (μ : Meaning) (env0 : Env) where
  -- What holds after a part of the first loop: each old version is a variable that no literal uses
  -- and has the value that the node had in `env0`, and the other variables are unchanged.
  pub record IsSaved (olds : List (Value × Var)) (st : LitState) (env : Env) : Type 0 where
    pub valid : IsValid vfac params distinct_names st
    pub reserved : (v : Value) (y : Var) → find_old v olds ≡ some y → IsReserved vfac params y st
    pub held :
        (v : Value) (y : Var)
        → find_old v olds ≡ some y
        → (l : Lit) × (find_lit v st.cache ≡ some l) × (value_of env (like l y) ≡ value_of env0 l)
    pub kept :
        (m : Lit)
        → ((v : Value) (y : Var) → find_old v olds ≡ some y → IsApart y m)
        → value_of env m ≡ value_of env0 m

  pub get_lit-IsSaved :
      (v : Value) (olds : List (Value × Var)) (st : LitState) (env : Env)
      → IsSaved olds st env
      → IsSaved olds (get_lit vfac params v st).1 env
  get_lit-IsSaved v olds st env saved = record {
    valid = get_lit-IsValid vfac params distinct_names v st saved.valid;
    reserved = λ u y h. get_lit-IsReserved vfac params distinct_names v st y (saved.reserved u y h);
    held = λ u y h.
        let (l, e, same) = saved.held u y h in (l, get_lit-Extends vfac params v st u l e, same);
    kept = saved.kept;
  }

  module _ (v : Value) (l : Lit) (y : Var) (olds : List (Value × Var)) (st : LitState) (env : Env)
      (saved : IsSaved olds st env) (cached : find_lit v st.cache ≡ some l)
      (missing : find_old v olds ≡ none) (named : y.name ≡ vfac.fresh_name st.fresh_count) where
    added_cases :
        (u : Value) (z : Var)
        → find_old u ((v, y) ∷ olds) ≡ some z
        → ((v ≡ u) × (y ≡ z)) ⊎ (find_old u olds ≡ some z)
    added_cases u z h = elim (Value-discrete v u) [
      | yes e ↦ inl (
        e,
        some_inj _ _
            (sym (subst (λ w. find_old w ((v, y) ∷ olds) ≡ some y) e (find_old_self v y olds)) ∙ h),
      )
      | no d ↦ inr (sym (find_old_ne u v y olds d) ∙ h)
    ]

    new-IsReserved : IsReserved vfac params y (next st)
    new-IsReserved = fresh-IsReserved vfac params distinct_names st y saved.valid named

    -- The new variable is not an older one.
    new_apart : (u : Value) (z : Var) → find_old u olds ≡ some z → y.name ≢ z.name
    new_apart u z h q =
        let (n, lt, e, unused) = saved.reserved u z h in
        let same : st.fresh_count ≡ n =
          distinct_names.fresh_injective st.fresh_count n (sym named ∙ q ∙ e) in
        absurd (omega arith)

    cached-IsApart : (u : Value) (z : Var) → find_old u olds ≡ some z → IsApart z l
    cached-IsApart u z h x g q =
        let (n, lt, e, unused) = saved.reserved u z h in unused v l x cached g q

    pub added-IsSaved : IsSaved ((v, y) ∷ olds) (next st) (write y l env)
    added-IsSaved = record {
      valid = next-IsValid vfac params distinct_names st saved.valid;
      reserved = λ u z h. elim (added_cases u z h) [
        | inl (e, f) ↦ subst (λ w. IsReserved vfac params w (next st)) f new-IsReserved
        | inr old ↦ next-IsReserved vfac params distinct_names st z (saved.reserved u z old)
      ];
      held = λ u z h. elim (added_cases u z h) [
        | inl (e, f) ↦ (
          l,
          subst (λ w. find_lit w st.cache ≡ some l) e cached,
          subst (λ w. value_of (write y l env) (like l w) ≡ value_of env0 l) f
              (write-like y l env ∙ saved.kept l cached-IsApart),
        )
        | inr old ↦
            let (k, e, same) = saved.held u z old in
            (k, e, write-IsApart y l (like k z) env (like-IsApart k y z (new_apart u z old)) ∙ same)
      ];
      kept = λ m apart.
          write-IsApart y l m env (apart v y (find_old_self v y olds))
          ∙ saved.kept m (λ u z h. apart u z (add_old-IsPart v y olds missing u z h));
    }
