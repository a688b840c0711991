-- ===== src/Builder/Call/Arguments.antt =====
-- The arguments of a call and the formal parameters of its callee.
use crab_llvm.Prelude.{
  ◌≡◌, ◌≢◌, ◌∙◌, inl, inr, sym, ap, subst, refl, none, some, [], ◌∷◌, arith, if◌then◌else◌, Option,
  List, Option-cases, Bool-cases, some_inj,
}
use crab_llvm.Llvm.{Value, type_of}
use crab_llvm.Utils.Types.{CrabBuilderParams, is_tracked, is_tracked_type}
use crab_llvm.Lit.{
  Var, Lit, bool_cst, bool_var, int_cst, int_var, ptr_null, ptr_var, get_var, VariableFactory,
  LitState, find_lit, get_lit, mk_int_var, mk_bool_var, mk_ptr_var,
}
use crab_llvm.Builder.Casts.{normalize_func_param_or_ret}
use crab_llvm.Builder.Call.{Signature, call_args, declared_args, renamed, is_named}
use crab_llvm.Builder.Call.Types.{
  kind_of, lit_type, HasKind, AreTyped, get_lit-AreTyped, get_lit-HasKind,
  normalize_func_param_or_ret_type,
}
use crab_llvm.Builder.Call.Regions.{types, types-snoc}

-- As many arguments as formal parameters, each of the type of its parameter.
abbrev pub Match : List Value → List Value → Type 0
Match [] [] = Unit
Match (v ∷ vs) (w ∷ ws) = (type_of v ≡ type_of w) × Match vs ws
Match _ _ = ⊥

pub none_ne : {A : Type 0} (a : A) → none ≢ some a
none_ne a h = ground arith

module _ (vfac : VariableFactory) (params : CrabBuilderParams) where
  renamed_type :
      (v : Value) (l : Lit) (x : Var) (st : LitState)
      → get_var l ≡ some x
      → ((renamed vfac params v l x st).1.var_type ≡ lit_type l)
        × ((renamed vfac params v l x st).2.cache ≡ st.cache)
  unfolding renamed get_var lit_type mk_bool_var mk_int_var mk_ptr_var
  renamed_type v (bool_var y) x st h = (refl, refl)
  renamed_type v (int_var y) x st h = (refl, refl)
  renamed_type v (ptr_var y) x st h = (refl, refl)
  renamed_type v (bool_cst b) x st h = absurd (none_ne x h)
  renamed_type v (int_cst n) x st h = absurd (none_ne x h)
  renamed_type v ptr_null x st h = absurd (none_ne x h)

  -- What the loops over the parameters do: the inputs stay alike, the outputs stay.
  pub record Passed (s t s' t' : Signature) : Type 0 where
    pub alike : types s'.inputs ≡ types t'.inputs
    pub same_call : s'.outputs ≡ s.outputs
    pub same_decl : t'.outputs ≡ t.outputs
    pub typed : AreTyped s'.lits

  -- The input for a formal parameter.
  declared_input :
      (ret : Option Var) (w : Value) (l : Lit) (x : Var) (st : LitState)
      → AreTyped st
      → HasKind w l
      → get_var l ≡ some x
      → ((if is_named ret x then renamed vfac params w l x st else ([], x, st)).1.var_type
          ≡ kind_of (type_of w))
        × AreTyped (if is_named ret x then renamed vfac params w l x st else ([], x, st)).2
  declared_input ret w l x st typed (k, t) h = elim (Bool-cases (is_named ret x)) [
    | inl e ↦
        let (r, c) = renamed_type w l x st h in
        rw (e, is_named) (r ∙ k, λ u m g. typed u m (subst (λ q. find_lit u q ≡ some m) c g))
    | inr e ↦ rw (e, is_named) (t x h ∙ k, typed)
  ]

  pub declared_args-Passed :
      (ret : Option Var) (vs ws : List Value) (s t s' t' : Signature)
      → Match vs ws
      → AreTyped s.lits
      → AreTyped t.lits
      → types s.inputs ≡ types t.inputs
      → call_args vfac params vs s ≡ some s'
      → declared_args vfac params ret ws t ≡ some t'
      → Passed s t s' t'
  unfolding call_args declared_args
  declared_args-Passed ret [] [] s t s' t' m ts tt' i h k = rw (sym (some_inj _ _ h)) (
      rw (sym (some_inj _ _ k))
        (record { alike = i; same_call = refl; same_decl = refl; typed = ts }))
  declared_args-Passed ret (v ∷ vs) [] s t s' t' m ts tt' i h k = elim m [ ]
  declared_args-Passed ret [] (w ∷ ws) s t s' t' m ts tt' i h k = elim m [ ]
  declared_args-Passed ret (v ∷ vs) (w ∷ ws) s t s' t' (e, m) ts tt' i h k =
      elim (Bool-cases (is_tracked v params)) [
        | inr f ↦
            declared_args-Passed ret vs ws s t s' t' m ts tt' i (rw f at h)
              (rw (ap (λ q. is_tracked_type q params) (sym e) ∙ f) at k)
        | inl f ↦
            let k' = rw (ap (λ q. is_tracked_type q params) (sym e) ∙ f) at k in
            elim (Option-cases (normalize_func_param_or_ret vfac params v s.lits)) [
              | inl n ↦ absurd (none_ne s' (rw n at (rw f at h)))
              | inr (out, n) ↦ elim (Option-cases (get_lit vfac params w t.lits).0) [
                | inl g ↦ absurd (none_ne t' (rw g at k'))
                | inr (l, g) ↦ elim (Option-cases (get_var l)) [
                  | inl q ↦ absurd (none_ne t' (rw q at (rw g at k')))
                  | inr (x, q) ↦
                      let (c, ts1) =
                        normalize_func_param_or_ret_type vfac params v s.lits out ts n in
                      let (d, tt1) =
                        declared_input ret w l x (get_lit vfac params w t.lits).1
                          (get_lit-AreTyped vfac params w t.lits tt')
                          (get_lit-HasKind vfac params w t.lits l tt' g) q in
                      let rest =
                        declared_args-Passed ret vs ws _ _ s' t' m ts1 tt1
                          (types-snoc s.inputs t.inputs out.0 _ i (c ∙ ap kind_of e ∙ sym d))
                          (rw n at (rw f at h)) (rw q at (rw g at k')) in
                      record {
                        alike = rest.alike;
                        same_call = rest.same_call;
                        same_decl = rest.same_decl;
                        typed = rest.typed;
                      }
                ]
              ]
            ]
      ]
