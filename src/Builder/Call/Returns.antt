-- ===== src/Builder/Call/Returns.antt =====
-- The returned value of a call and of a declaration.
use crab_llvm.Prelude.{
  ◌≡◌, ◌∙◌, inl, inr, sym, ap, refl, true, false, not, ◌&&◌, none, some, [], ◌∷◌, arith,
  if◌then◌else◌, Option, List, Option-cases, Bool-cases, some_inj,
}
use crab_llvm.Llvm.{Ty, Value, type_of}
use crab_llvm.Utils.Types.{
  CrabBuilderParams, is_bool, is_integer, is_tracked, is_tracked_type, is_void_ty,
  should_call_site_return, does_call_site_return,
}
use crab_llvm.Lit.{
  Var, VarType, get_var, VariableFactory, LitState, get_lit, mk_int_var, mk_bool_var, mk_ptr_var,
}
use crab_llvm.Builder.Call.{Signature, call_return, declared_return, returned}
use crab_llvm.Builder.Call.Types.{kind_of, AreTyped, get_lit-HasKind}
use crab_llvm.Builder.Call.Regions.{types}
use crab_llvm.Builder.Call.Arguments.{none_ne}

module _ (vfac : VariableFactory) (params : CrabBuilderParams) where
  -- The types of the returned value: one for a type that is tracked.
  abbrev expected : Ty → List VarType
  expected t = if is_tracked_type t params then kind_of t ∷ [] else []

  should_tracked : (t : Ty) → should_call_site_return (some t) params ≡ is_tracked_type t params
  unfolding should_call_site_return is_tracked_type
  should_tracked t = ground arith

  does_tracked : (I : Value) → does_call_site_return I params ≡ is_tracked I params
  unfolding does_call_site_return is_tracked is_tracked_type
  does_tracked I = by_type (type_of I)
    where
      by_type : (t : Ty) → not (is_void_ty t) && is_tracked_type t params ≡ is_tracked_type t params
      by_type t = ground arith

  pub call_return_types :
      (I : Value) (t : Ty) (s u : Signature)
      → AreTyped s.lits
      → type_of I ≡ t
      → s.outputs ≡ []
      → call_return vfac params I t s ≡ some u
      → (types u.outputs ≡ expected t) × (u.inputs ≡ s.inputs)
  unfolding call_return
  call_return_types I t s u typed e nil h =
      let h1 = rw (does_tracked I) at (rw (should_tracked t) at h) in
      elim (Bool-cases (is_tracked_type t params)) [
        | inr f ↦
            let f' : is_tracked I params ≡ false = ap (λ q. is_tracked_type q params) e ∙ f in
            let same = some_inj _ _ (rw f' at (rw f at h1)) in
            rw (sym same) (rw (f, expected) (rw nil (refl, refl)))
        | inl f ↦
            let f' : is_tracked I params ≡ true = ap (λ q. is_tracked_type q params) e ∙ f in
            let h2 = rw f' at (rw f at h1) in
            elim (Option-cases (get_lit vfac params I s.lits).0) [
              | inl g ↦ absurd (none_ne u (rw g at h2))
              | inr (l, g) ↦ elim (Option-cases (get_var l)) [
                | inl q ↦ absurd (none_ne u (rw q at (rw g at h2)))
                | inr (x, q) ↦
                    let (k, ty) = get_lit-HasKind vfac params I s.lits l typed g in
                    let same = some_inj _ _ (rw q at (rw g at h2)) in
                    rw (sym same) (
                      rw (f, expected)
                        (rw nil (ap (λ z. z ∷ []) (ty x q ∙ k ∙ ap kind_of e), refl)))
              ]
            ]
      ]

  pub declared_return_types :
      (ret : Option Var) (t : Ty) (st : LitState)
      → ((x : Var) → ret ≡ some x → (is_tracked_type t params ≡ true) × (x.var_type ≡ kind_of t))
      → AreTyped st
      → (types (returned (declared_return vfac params ret t st).0) ≡ expected t)
        × AreTyped (declared_return vfac params ret t st).1
  unfolding declared_return kind_of mk_bool_var mk_int_var mk_ptr_var
  declared_return_types (some x) t st h typed =
      let (f, k) = h x refl in (rw (f, expected) (ap (λ z. z ∷ []) k), typed)
  declared_return_types none t st h typed = elim (Bool-cases (is_tracked_type t params)) [
    | inr f ↦ rw (f, expected) (refl, typed)
    | inl f ↦ elim (Bool-cases (is_bool t)) [
      | inl b ↦ rw (f, expected) (rw b (refl, typed))
      | inr b ↦ elim (Bool-cases (is_integer t)) [
        | inl i ↦ rw (f, expected) (rw i (rw b (refl, typed)))
        | inr i ↦ rw (f, expected) (rw i (rw b (refl, typed)))
      ]
    ]
  ]
