-- ===== src/Builder/Call/Interface.antt =====
-- A call has the parameters that the declaration of its callee has.
use crab_llvm.Prelude.{
  ◌≡◌, ◌∙◌, inl, inr, sym, ap, subst, refl, true, false, ◌&&◌, none, some, if◌then◌else◌, Option,
  List, Bool-cases, some_inj, All, ◌>>=◌,
}
use crab_llvm.Llvm.{Ty, Value, type_of}
use crab_llvm.Utils.Types.{CrabBuilderParams, is_tracked_type}
use crab_llvm.Lit.{Var, VariableFactory, LitState}
use crab_llvm.Builder.Memory.{is_arr}
use crab_llvm.Builder.Call.{
  Effects, Signature, get_regions, add_reads, add_news, call_mods, declared_mods, declared_return,
  call_signature, declared_signature,
}
use crab_llvm.Builder.Call.Types.{kind_of, AreTyped}
use crab_llvm.Builder.Call.Regions.{
  types, AreAlike, is_proper, get_regions-IsUsable, add_reads-AreAlike, add_news-AreAlike,
  declared_mods-AreAlike,
}
use crab_llvm.Builder.Call.Arguments.{Match, none_ne, declared_args-Passed}
use crab_llvm.Builder.Call.Returns.{call_return_types, declared_return_types}

step :
    {A B : Type 0} (o : Option A) (f : A → Option B) (b : B)
    → o >>= f ≡ some b
    → (a : A) × (o ≡ some a) × (f a ≡ some b)
step none f b h = absurd (none_ne b h)
step (some a) f b h = (a, refl, h)

module _ (vfac : VariableFactory) (params : CrabBuilderParams) where
  -- The parameters for the regions, if there are any.
  arrays_alike :
      (eff : Effects) (s t s' t' : Signature)
      → All (λ r. is_proper r ≡ true) eff.mods
      → AreAlike s t
      → (do
        a ← add_reads vfac params (get_regions eff.only_reads) s
        b ← call_mods vfac params (get_regions eff.news) (get_regions eff.mods) a
        add_news vfac params (get_regions eff.news) b)
        ≡ some s'
      → (do
        a ← add_reads vfac params (get_regions eff.only_reads) t
        b ← declared_mods vfac params (get_regions eff.news) (get_regions eff.mods) a
        add_news vfac params (get_regions eff.news) b)
        ≡ some t'
      → AreAlike s' t'
  arrays_alike eff s t s' t' proper alike h k =
      let (a, ha, h1) = step _ _ s' h in
      let (b, hb, h2) = step _ _ s' h1 in
      let (c, kc, k1) = step _ _ t' k in
      let (d, kd, k2) = step _ _ t' k1 in
      add_news-AreAlike vfac params (get_regions eff.news) b d s' t'
        (declared_mods-AreAlike vfac params (get_regions eff.news) (get_regions eff.mods) a c b d
          (get_regions-IsUsable eff.mods proper)
          (add_reads-AreAlike vfac params (get_regions eff.only_reads) s t a c alike ha kc) hb kd)
        h2 k2

  end_alike :
      (eff : Effects) (s t s' t' : Signature)
      → All (λ r. is_proper r ≡ true) eff.mods
      → AreAlike s t
      → (if is_arr params
          then (do
            a ← add_reads vfac params (get_regions eff.only_reads) s
            b ← call_mods vfac params (get_regions eff.news) (get_regions eff.mods) a
            add_news vfac params (get_regions eff.news) b)
          else some s)
        ≡ some s'
      → (if is_arr params && true
          then (do
            a ← add_reads vfac params (get_regions eff.only_reads) t
            b ← declared_mods vfac params (get_regions eff.news) (get_regions eff.mods) a
            add_news vfac params (get_regions eff.news) b)
          else some t)
        ≡ some t'
      → AreAlike s' t'
  end_alike eff s t s' t' proper alike h k = elim (Bool-cases (is_arr params)) [
    | inl f ↦ arrays_alike eff s t s' t' proper alike (rw f at h) (rw f at k)
    | inr f ↦
        subst (λ w. AreAlike w t') (some_inj _ _ (rw f at h))
          (subst (λ w. AreAlike s w) (some_inj _ _ (rw f at k)) alike)
  ]

  -- Where both translations succeed, a call and the declaration of its callee, which is not main,
  -- have inputs and outputs of the same number and the same types in the same order, if the heap
  -- analysis gives both the same regions, the arguments and the result have the types of the formal
  -- parameters and of the return type, and the literals have variables of their types.
  pub call_signature-declared_signature :
      (I : Value) (t : Ty) (args formals : List Value) (ret : Option Var) (eff : Effects)
      (st st' : LitState) (call decl : Signature)
      → AreTyped st
      → AreTyped st'
      → type_of I ≡ t
      → Match args formals
      → ((x : Var) → ret ≡ some x → (is_tracked_type t params ≡ true) × (x.var_type ≡ kind_of t))
      → All (λ r. is_proper r ≡ true) eff.mods
      → call_signature vfac params I t args eff st ≡ some call
      → declared_signature vfac params false ret t formals eff st' ≡ some decl
      → AreAlike call decl
  unfolding call_signature declared_signature
  call_signature-declared_signature I t args formals ret eff st st' call decl typed typed' e m hr
        proper h k =
      let (a, ha, h1) = step _ _ call h in
      let (b, hb, h2) = step _ _ call h1 in
      let (c, kc, k1) = step _ _ decl k in
      let (types_r, typed_r) = declared_return_types vfac params ret t st' hr typed' in
      let passed =
        declared_args-Passed vfac params (declared_return vfac params ret t st').0 args formals _ _
          a c m typed typed_r refl ha kc in
      let (outs, ins) = call_return_types vfac params I t a b passed.typed e passed.same_call hb in
      let alike : AreAlike b c =
        (ap types ins ∙ passed.alike, outs ∙ sym types_r ∙ ap types (sym passed.same_decl)) in
      end_alike eff b c call decl proper alike h2 k1
