-- ===== src/Builder/Call/Types.antt =====
-- The types of the variables that parameters get.
use crab_llvm.Prelude.{
  ◌≡◌, ◌≢◌, ◌∙◌, inl, inr, subst, refl, none, some, arith, if◌then◌else◌, List, Option-cases,
  Bool-cases, some_inj, ◌&&◌,
}
use crab_llvm.Llvm.{Ty, Value, type_of, is_const_expr}
use crab_llvm.Utils.Types.{CrabBuilderParams, is_tracked, is_bool, is_integer}
use crab_llvm.Lit.{
  Var, VarType, bool_type, int_type, ptr_type, Lit, bool_cst, bool_var, int_cst, int_var, ptr_null,
  ptr_var, get_var, VariableFactory, LitState, find_lit, get_lit, make_lit, get_bool_lit,
  get_int_lit, get_ptr_lit, remember, mk_var, mk_bool_var, mk_int_var, mk_ptr_var,
}
use crab_llvm.Lit.Exact.{find_lit-get_lit}
use crab_llvm.Lit.Fresh.{get_lit-cases, grown_cases}
use crab_llvm.Crab.{Stmt}
use crab_llvm.Builder.Casts.{param_of_lit, normalize_func_param_or_ret}

-- The type of a variable for a value of a type that is tracked.
unfoldable pub kind_of : Ty → VarType
unfolding is_bool is_integer
kind_of t = if is_bool t then bool_type else if is_integer t then int_type else ptr_type

unfoldable pub lit_type : Lit → VarType
lit_type (bool_cst b) = bool_type
lit_type (bool_var x) = bool_type
lit_type (int_cst n) = int_type
lit_type (int_var x) = int_type
lit_type ptr_null = ptr_type
lit_type (ptr_var x) = ptr_type

-- A literal of a value has the type for the value, and so has its variable.
abbrev pub HasKind : Value → Lit → Type 0
HasKind v l =
    (lit_type l ≡ kind_of (type_of v)) × ((x : Var) → get_var l ≡ some x → x.var_type ≡ lit_type l)

abbrev pub AreTyped : LitState → Type 0
AreTyped st = (v : Value) (l : Lit) → find_lit v st.cache ≡ some l → HasKind v l

module _ (vfac : VariableFactory) (params : CrabBuilderParams) where
  make_lit_kind :
      (v : Value) (st : LitState) (l : Lit)
      → (make_lit vfac params v st).0 ≡ some l
      → lit_type l ≡ kind_of (type_of v)
  unfolding make_lit get_bool_lit get_int_lit get_ptr_lit remember lit_type kind_of
  make_lit_kind (Value.const_int w bits) st l h = ground arith
  make_lit_kind v st l h = ground arith

  make_lit_var_type :
      (v : Value) (st : LitState) (l : Lit) (x : Var)
      → (make_lit vfac params v st).0 ≡ some l
      → get_var l ≡ some x
      → x.var_type ≡ lit_type l
  unfolding make_lit get_bool_lit get_int_lit get_ptr_lit remember lit_type get_var
  make_lit_var_type (Value.const_int w bits) st l x h e = ground arith
  make_lit_var_type v st l x h e = ground arith

  pub get_lit-AreTyped :
      (v : Value) (st : LitState) → AreTyped st → AreTyped (get_lit vfac params v st).1
  get_lit-AreTyped v st typed = get_lit-cases vfac params AreTyped v st typed (λ missing u l h.
      elim (grown_cases vfac params v u st l h) [
        | inl old ↦ typed u l old
        | inr (e, new) ↦
            subst (λ w. HasKind w l) e
              (make_lit_kind v st l new, λ x g. make_lit_var_type v st l x new g)
      ])

  -- The literal that was asked for.
  pub get_lit-HasKind :
      (v : Value) (st : LitState) (l : Lit)
      → AreTyped st
      → (get_lit vfac params v st).0 ≡ some l
      → HasKind v l
  get_lit-HasKind v st l typed h =
      get_lit-AreTyped v st typed v l (find_lit-get_lit vfac params v st l h)

  param_of_lit_type :
      (v : Value) (l : Lit) (st : LitState)
      → HasKind v l
      → ((param_of_lit vfac params v l st).0.var_type ≡ kind_of (type_of v))
        × ((param_of_lit vfac params v l st).1.1.cache ≡ st.cache)
  unfolding param_of_lit mk_bool_var mk_int_var mk_ptr_var get_var lit_type
  param_of_lit_type v (bool_var x) st (k, t) = (t x refl ∙ k, refl)
  param_of_lit_type v (int_var x) st (k, t) = (t x refl ∙ k, refl)
  param_of_lit_type v (ptr_var x) st (k, t) = (t x refl ∙ k, refl)
  param_of_lit_type v (int_cst n) st (k, t) = (k, refl)
  param_of_lit_type v (bool_cst b) st (k, t) = (k, refl)
  param_of_lit_type v ptr_null st (k, t) = (k, refl)

  mk_var_type :
      (v : Value) (st : LitState) (x : Var)
      → (mk_var vfac params v st).0 ≡ some x
      → (x.var_type ≡ kind_of (type_of v)) × ((mk_var vfac params v st).1.cache ≡ st.cache)
  unfolding mk_var kind_of
  mk_var_type (Value.const_int w bits) st x h = ground arith
  mk_var_type v st x h = ground arith

  -- A parameter that was normalized has the type of its value.
  pub normalize_func_param_or_ret_type :
      (v : Value) (st : LitState) (out : Var × (List Stmt × LitState))
      → AreTyped st
      → normalize_func_param_or_ret vfac params v st ≡ some out
      → (out.0.var_type ≡ kind_of (type_of v)) × AreTyped out.1.1
  unfolding normalize_func_param_or_ret
  normalize_func_param_or_ret_type v st out typed h =
      elim (Option-cases (get_lit vfac params v st).0) [
        | inr (l, e) ↦
            let (k, c) =
              param_of_lit_type v l (get_lit vfac params v st).1 (get_lit-HasKind v st l typed e) in
            let same = some_inj _ _ (rw (e, normalize_func_param_or_ret) at h) in
            subst Normal same (k, λ u m g. asked u m (subst (λ w. find_lit u w ≡ some m) c g))
        | inl e ↦ elim (Bool-cases (is_tracked v params && is_const_expr v)) [
          | inr f ↦ absurd (
              none_ne_some
                (rw (f, normalize_func_param_or_ret) at (rw (e, normalize_func_param_or_ret) at h)))
          | inl f ↦ elim (Option-cases (mk_var vfac params v (get_lit vfac params v st).1).0) [
            | inl g ↦ absurd (
                none_ne_some (
                  rw g at (
                    rw (f, normalize_func_param_or_ret) at
                      (rw (e, normalize_func_param_or_ret) at h))))
            | inr (x, g) ↦
                let same = some_inj _ _ (
                  rw g at (
                    rw (f, normalize_func_param_or_ret) at
                      (rw (e, normalize_func_param_or_ret) at h))) in
                let (k, c) = mk_var_type v (get_lit vfac params v st).1 x g in
                subst Normal same (k, λ u m q. asked u m (subst (λ w. find_lit u w ≡ some m) c q))
          ]
        ]
      ]
    where
      asked : AreTyped (get_lit vfac params v st).1
      asked = get_lit-AreTyped v st typed

      Normal : Var × (List Stmt × LitState) → Type 0
      Normal o = (o.0.var_type ≡ kind_of (type_of v)) × AreTyped o.1.1

      none_ne_some : none ≢ some out
      none_ne_some q = ground arith
