-- ===== src/Builder/Call/Regions.antt =====
-- The parameters for regions have the same types in a call and in a declaration.
use crab_llvm.Prelude.{
  ◌≡◌, ◌≢◌, inl, inr, sym, refl, Bool, true, none, some, [], ◌∷◌, ◌++◌, arith, map, List,
  Option-cases, Bool-cases, some_inj, All,
}
use mathlib.Core.List.{map-append}
use crab_llvm.Utils.Types.{CrabBuilderParams, is_bool}
use crab_llvm.Lit.{Var, VarType, VariableFactory, LitState, Region, RegionType, mk_array_var}
use crab_llvm.Crab.{Stmt}
use crab_llvm.Builder.Memory.{is_int_or_bool}
use crab_llvm.Builder.Call.{
  Signature, get_regions, has_region, param_var, add_reads, add_news, call_mods, input_version,
  declare_mod, declared_mods,
}

abbrev pub types : List Var → List VarType
types xs = map (λ x. x.var_type) xs

pub types-snoc :
    (xs ys : List Var) (x y : Var)
    → types xs ≡ types ys
    → x.var_type ≡ y.var_type
    → types (xs ++ (x ∷ [])) ≡ types (ys ++ (y ∷ []))
types-snoc xs ys x y h k =
    rw (map-append (λ z. z.var_type) xs (x ∷ []))
      (rw (map-append (λ z. z.var_type) ys (y ∷ [])) (rw h (rw k refl)))

-- The inputs have the same types, and so have the outputs.
abbrev pub AreAlike : Signature → Signature → Type 0
AreAlike s t = (types s.inputs ≡ types t.inputs) × (types s.outputs ≡ types t.outputs)

-- The singleton of a region of Booleans is a Boolean.
abbrev pub is_proper : Region → Bool
is_proper r = elim r.region_type [
  | RegionType.bool_region ↦ elim r.singleton [ none ↦ true | some t ↦ is_bool t ]
  | _ ↦ true
]

-- A region that the translation keeps.
abbrev pub IsUsable : Region → Type 0
IsUsable r = (is_int_or_bool r ≡ true) × (is_proper r ≡ true)

pub get_regions-IsUsable :
    (rs : List Region) → All (λ r. is_proper r ≡ true) rs → All IsUsable (get_regions rs)
unfolding get_regions
get_regions-IsUsable [] h = tt
get_regions-IsUsable (r ∷ rs) (p, h) = elim (Bool-cases (is_int_or_bool r)) [
  | inl e ↦ rw (e, get_regions) ((e, p), get_regions-IsUsable rs h)
  | inr e ↦ rw (e, get_regions) (get_regions-IsUsable rs h)
]

none_ne : {A : Type 0} (a : A) → none ≢ some a
none_ne a h = ground arith

module _ (vfac : VariableFactory) (params : CrabBuilderParams) where
  pub add_reads-AreAlike :
      (rs : List Region) (s t s' t' : Signature)
      → AreAlike s t
      → add_reads vfac params rs s ≡ some s'
      → add_reads vfac params rs t ≡ some t'
      → AreAlike s' t'
  unfolding add_reads
  add_reads-AreAlike [] s t s' t' (i, o) h k =
      rw (sym (some_inj _ _ h)) (rw (sym (some_inj _ _ k)) (i, o))
  add_reads-AreAlike (r ∷ rs) s t s' t' (i, o) h k = elim (Option-cases (param_var vfac params r)) [
    | inl e ↦ absurd (none_ne s' (rw e at h))
    | inr (x, e) ↦
        add_reads-AreAlike rs _ _ s' t' (types-snoc s.inputs t.inputs x x i refl, o) (rw e at h)
          (rw e at k)
  ]

  pub add_news-AreAlike :
      (rs : List Region) (s t s' t' : Signature)
      → AreAlike s t
      → add_news vfac params rs s ≡ some s'
      → add_news vfac params rs t ≡ some t'
      → AreAlike s' t'
  unfolding add_news
  add_news-AreAlike [] s t s' t' (i, o) h k =
      rw (sym (some_inj _ _ h)) (rw (sym (some_inj _ _ k)) (i, o))
  add_news-AreAlike (r ∷ rs) s t s' t' (i, o) h k = elim (Option-cases (mk_array_var vfac r none)) [
    | inl e ↦ absurd (none_ne s' (rw e at h))
    | inr (x, e) ↦
        add_news-AreAlike rs _ _ s' t' (i, types-snoc s.outputs t.outputs x x o refl) (rw e at h)
          (rw e at k)
  ]

  version_there :
      (r : Region) (x : Var) (st : LitState)
      → is_int_or_bool r ≡ true
      → is_proper r ≡ true
      → param_var vfac params r ≡ some x
      → input_version vfac params r x st ≢ none
  unfolding input_version param_var
  version_there r x st u p h e = ground arith

  version_type :
      (r : Region) (x : Var) (st : LitState) (out : Stmt × Var × LitState)
      → is_int_or_bool r ≡ true
      → is_proper r ≡ true
      → param_var vfac params r ≡ some x
      → input_version vfac params r x st ≡ some out
      → out.1.var_type ≡ x.var_type
  unfolding input_version param_var
  version_type r x st out u p h e = ground arith

  mods_alike :
      (r : Region) (x : Var) (s t : Signature)
      → IsUsable r
      → param_var vfac params r ≡ some x
      → AreAlike s t
      → AreAlike
          (record s { inputs = s.inputs ++ (x ∷ []); outputs = s.outputs ++ (x ∷ []) })
          (declare_mod vfac params r x t)
  unfolding declare_mod
  mods_alike r x s t (u, p) h (i, o) = elim (Option-cases (input_version vfac params r x t.lits)) [
    | inl e ↦ absurd (version_there r x t.lits u p h e)
    | inr (out, e) ↦
        rw (e, declare_mod)
          (
            types-snoc s.inputs t.inputs x out.1 i (sym (version_type r x t.lits out u p h e)),
            types-snoc s.outputs t.outputs x x o refl,
          )
  ]

  pub declared_mods-AreAlike :
      (news rs : List Region) (s t s' t' : Signature)
      → All IsUsable rs
      → AreAlike s t
      → call_mods vfac params news rs s ≡ some s'
      → declared_mods vfac params news rs t ≡ some t'
      → AreAlike s' t'
  unfolding call_mods declared_mods
  declared_mods-AreAlike news [] s t s' t' usable (i, o) h k =
      rw (sym (some_inj _ _ h)) (rw (sym (some_inj _ _ k)) (i, o))
  declared_mods-AreAlike news (r ∷ rs) s t s' t' (u, usable) alike h k =
      elim (Bool-cases (has_region r news)) [
        | inl f ↦ declared_mods-AreAlike news rs s t s' t' usable alike (rw f at h) (rw f at k)
        | inr f ↦ elim (Option-cases (param_var vfac params r)) [
          | inl e ↦ absurd (none_ne s' (rw e at (rw f at h)))
          | inr (x, e) ↦
              declared_mods-AreAlike news rs _ _ s' t' usable (mods_alike r x s t u e alike)
                (rw e at (rw f at h)) (rw e at (rw f at k))
        ]
      ]
