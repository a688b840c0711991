-- ===== src/Lit/Cache.antt =====
-- About the cache of literals: their classes, names and variables.
use crab_llvm.Prelude.{
  ℕ, suc, ◌<◌, ◌≤◌, ◌≡◌, ◌≢◌, ◌⊎◌, ◌∙◌, inl, inr, refl, sym, subst, Option, none, some, List, ◌∷◌,
  arith, Option-cases, some_inj,
}
use mathlib.Core.Path.{subst₂}
use crab_llvm.Llvm.{Value, Value-discrete, type_of}
use crab_llvm.Utils.Types.{CrabBuilderParams, is_bool, is_integer, is_pointer_ty}
use crab_llvm.Lit.{
  Var, Lit, is_bool_lit, is_int_lit, is_ptr_lit, get_var, VariableFactory, IsVariableFactory,
  LitState, find_lit, get_bool_lit, get_int_lit, get_ptr_lit, remember, make_lit, get_lit,
}

pub find_lit_self :
    (v : Value) (l : Lit) (c : List (Value × Lit)) → find_lit v ((v, l) ∷ c) ≡ some l
unfolding find_lit
find_lit_self v l c =
    elim (Value-discrete v v) as (λ d. elim d [ yes e ↦ some l | no n ↦ find_lit v c ] ≡ some l) [
      | yes e ↦ refl
      | no d ↦ absurd (d refl)
    ]

pub find_lit_ne :
    (u v : Value) (l : Lit) (c : List (Value × Lit))
    → v ≢ u
    → find_lit u ((v, l) ∷ c) ≡ find_lit u c
unfolding find_lit
find_lit_ne u v l c h =
    elim (Value-discrete v u)
      as (λ d. elim d [ yes e ↦ some l | no n ↦ find_lit u c ] ≡ find_lit u c) [
        | yes e ↦ absurd (h e)
        | no d ↦ refl
      ]

-- The class of a literal is the kind of the value's type.
pub record HasClass (v : Value) (l : Lit) : Type 0 where
  pub bools : is_bool_lit l ≡ is_bool (type_of v)
  pub ints : is_int_lit l ≡ is_integer (type_of v)
  pub ptrs : is_ptr_lit l ≡ is_pointer_ty (type_of v)

module _ (vfac : VariableFactory) (params : CrabBuilderParams) where
  abbrev pub Origin : ℕ → Value → Var → Type 0
  Origin count v x =
      (x.name ≡ vfac.value_name v) ⊎ ((n : ℕ) × (n < count) × (x.name ≡ vfac.fresh_name n))

  make_lit-HasClass :
      (v : Value) (st : LitState) (l : Lit) → (make_lit vfac params v st).0 ≡ some l → HasClass v l
  unfolding make_lit get_bool_lit get_int_lit get_ptr_lit remember is_bool_lit is_int_lit is_ptr_lit
  make_lit-HasClass (Value.const_int w bits) st l h = ground arith
  make_lit-HasClass v st l h = ground arith

  -- The variable of a new literal is the value's own, or the next fresh one; the counter goes up.
  pub make_lit_var :
      (v : Value) (st : LitState) (l : Lit) (x : Var)
      → (make_lit vfac params v st).0 ≡ some l
      → get_var l ≡ some x
      → (x.name ≡ vfac.value_name v)
        ⊎ ((x.name ≡ vfac.fresh_name st.fresh_count)
            × ((make_lit vfac params v st).1.fresh_count ≡ suc st.fresh_count))
  unfolding make_lit get_bool_lit get_int_lit get_ptr_lit remember get_var
  make_lit_var (Value.const_int w bits) st l x h e = ground arith
  make_lit_var v st l x h e = ground arith

  pub make_lit_count :
      (v : Value) (st : LitState) → st.fresh_count ≤ (make_lit vfac params v st).1.fresh_count
  unfolding make_lit get_bool_lit get_int_lit get_ptr_lit remember
  make_lit_count (Value.const_int w bits) st = ground arith
  make_lit_count v st = ground arith

  -- The cache afterwards: the same, or the new literal in front.
  pub make_lit_cache :
      (v : Value) (st : LitState)
      → ((make_lit vfac params v st).0 ≡ none) × ((make_lit vfac params v st).1.cache ≡ st.cache)
        ⊎ ((l : Lit) × ((make_lit vfac params v st).0 ≡ some l)
            × ((make_lit vfac params v st).1.cache ≡ (v, l) ∷ st.cache))
  unfolding make_lit get_bool_lit get_int_lit get_ptr_lit remember
  make_lit_cache (Value.const_int w bits) st = ground arith
  make_lit_cache v st = ground arith

-- Where a literal of the longer cache comes from.
find_lit_cases :
    (u v : Value) (l m : Lit) (c : List (Value × Lit))
    → find_lit u ((v, l) ∷ c) ≡ some m
    → ((v ≡ u) × (m ≡ l)) ⊎ (find_lit u c ≡ some m)
find_lit_cases u v l m c h = elim (Value-discrete v u) [
  | yes e ↦ inl (
    e,
    some_inj _ _ (sym h ∙ subst (λ w. find_lit w ((v, l) ∷ c) ≡ some l) e (find_lit_self v l c)),
  )
  | no d ↦ inr (sym (find_lit_ne u v l c d) ∙ h)
]

module _ (vfac : VariableFactory) (params : CrabBuilderParams)
    (distinct_names : IsVariableFactory vfac) where
  open distinct_names use {value_injective, fresh_injective, fresh_new}

  -- Every cached literal has its value's class; its variable is named after the value, or by a fresh
  -- name given before; and no two values have literals with one variable.
  pub record IsValid (st : LitState) : Type 0 where
    pub typed : (v : Value) (l : Lit) → find_lit v st.cache ≡ some l → HasClass v l
    pub named :
        (v : Value) (l : Lit) (x : Var)
        → find_lit v st.cache ≡ some l
        → get_var l ≡ some x
        → Origin vfac params st.fresh_count v x
    pub distinct :
        (u v : Value) (l m : Lit) (x y : Var)
        → find_lit u st.cache ≡ some l
        → find_lit v st.cache ≡ some m
        → get_var l ≡ some x
        → get_var m ≡ some y
        → x.name ≡ y.name
        → u ≡ v

  Origin-mono :
      (a b : ℕ) (v : Value) (x : Var) → a ≤ b → Origin vfac params a v x → Origin vfac params b v x
  Origin-mono a b v x h (inl e) = inl e
  Origin-mono a b v x h (inr (n, lt, e)) = inr (n, omega arith, e)

  -- A new variable of `v` is not one of the cache's.
  new_or_own :
      (count : ℕ) (v w : Value) (x y : Var)
      → (x.name ≡ vfac.value_name v) ⊎ (x.name ≡ vfac.fresh_name count)
      → Origin vfac params count w y
      → x.name ≡ y.name
      → v ≡ w
  new_or_own count v w x y (inl p) (inl q) e = value_injective v w (sym p ∙ e ∙ q)
  new_or_own count v w x y (inl p) (inr (n, lt, q)) e = absurd (fresh_new n v (sym q ∙ sym e ∙ p))
  new_or_own count v w x y (inr p) (inl q) e = absurd (fresh_new count w (sym p ∙ e ∙ q))
  new_or_own count v w x y (inr p) (inr (n, lt, q)) e =
      let same : count ≡ n = fresh_injective count n (sym p ∙ e ∙ q) in absurd (omega arith)

  module _ (v : Value) (st : LitState) (valid : IsValid st) where
    abbrev made : Option Lit × LitState
    made = make_lit vfac params v st

    kept : made.1.cache ≡ st.cache → IsValid made.1
    kept e = record {
      typed = λ u l h. valid.typed u l (subst (λ c. find_lit u c ≡ some l) e h);
      named = λ u l x h g.
          Origin-mono st.fresh_count made.1.fresh_count u x (make_lit_count vfac params v st)
            (valid.named u l x (subst (λ c. find_lit u c ≡ some l) e h) g);
      distinct = λ u w l m x y h k.
          valid.distinct u w l m x y (subst (λ c. find_lit u c ≡ some l) e h)
            (subst (λ c. find_lit w c ≡ some m) e k);
    }

    module _ (new : Lit) (is_new : made.0 ≡ some new)
        (grown : made.1.cache ≡ (v, new) ∷ st.cache) where
      found :
          (u : Value) (l : Lit)
          → find_lit u made.1.cache ≡ some l
          → ((v ≡ u) × (l ≡ new)) ⊎ (find_lit u st.cache ≡ some l)
      found u l h = find_lit_cases u v new l st.cache (subst (λ c. find_lit u c ≡ some l) grown h)

      new-Origin : (x : Var) → get_var new ≡ some x → Origin vfac params made.1.fresh_count v x
      new-Origin x g = elim (make_lit_var vfac params v st new x is_new g) [
        | inl e ↦ inl e
        | inr (e, count) ↦ inr (st.fresh_count, omega arith, e)
      ]

      new_name :
          (x : Var)
          → get_var new ≡ some x
          → (x.name ≡ vfac.value_name v) ⊎ (x.name ≡ vfac.fresh_name st.fresh_count)
      new_name x g = elim (make_lit_var vfac params v st new x is_new g) [
        | inl e ↦ inl e
        | inr (e, count) ↦ inr e
      ]

      added_typed : (u : Value) (l : Lit) → find_lit u made.1.cache ≡ some l → HasClass u l
      added_typed u l h = elim (found u l h) [
        | inl (e, f) ↦ subst₂ HasClass e (sym f) (make_lit-HasClass vfac params v st new is_new)
        | inr old ↦ valid.typed u l old
      ]

      added_named :
          (u : Value) (l : Lit) (x : Var)
          → find_lit u made.1.cache ≡ some l
          → get_var l ≡ some x
          → Origin vfac params made.1.fresh_count u x
      added_named u l x h g = elim (found u l h) [
        | inl (e, f) ↦
            subst (λ w. Origin vfac params made.1.fresh_count w x) e
              (new-Origin x (subst (λ k. get_var k ≡ some x) f g))
        | inr old ↦
            Origin-mono st.fresh_count made.1.fresh_count u x (make_lit_count vfac params v st)
              (valid.named u l x old g)
      ]

      added_distinct :
          (u w : Value) (l m : Lit) (x y : Var)
          → find_lit u made.1.cache ≡ some l
          → find_lit w made.1.cache ≡ some m
          → get_var l ≡ some x
          → get_var m ≡ some y
          → x.name ≡ y.name
          → u ≡ w
      added_distinct u w l m x y h k gx gy e = elim (found u l h) [
        | inl (eu, fl) ↦ elim (found w m k) [
          | inl (ew, fm) ↦ sym eu ∙ ew
          | inr old ↦
              sym eu
              ∙ new_or_own st.fresh_count v w x y
                  (new_name x (subst (λ q. get_var q ≡ some x) fl gx)) (valid.named w m y old gy) e
        ]
        | inr oldu ↦ elim (found w m k) [
          | inl (ew, fm) ↦
              sym (
                new_or_own st.fresh_count v u y x
                  (new_name y (subst (λ q. get_var q ≡ some y) fm gy)) (valid.named u l x oldu gx)
                  (sym e))
              ∙ ew
          | inr oldw ↦ valid.distinct u w l m x y oldu oldw gx gy e
        ]
      ]

    make_lit-IsValid : IsValid made.1
    make_lit-IsValid = elim (make_lit_cache vfac params v st) [
      | inl (nothing, e) ↦ kept e
      | inr (new, is_new, grown) ↦ record {
        typed = added_typed new is_new grown;
        named = added_named new is_new grown;
        distinct = added_distinct new is_new grown;
      }
    ]

  -- Asking the factory for a literal keeps its cache valid, where Crab's variable factory gives
  -- different values and fresh variables different names.
  pub get_lit-IsValid :
      (v : Value) (st : LitState) → IsValid st → IsValid (get_lit vfac params v st).1
  unfolding get_lit
  get_lit-IsValid v st valid = elim (Option-cases (find_lit v st.cache)) [
    | inl e ↦ rw (e, get_lit) (make_lit-IsValid v st valid)
    | inr (l, e) ↦ rw (e, get_lit) valid
  ]
