-- ===== src/Lit/Fresh.antt =====
-- Variables that the factory made and that no literal of its cache uses.
use crab_llvm.Prelude.{
  ℕ, suc, ◌⊎◌, ◌<◌, ◌≤◌, ◌≡◌, ◌≢◌, ◌∙◌, inl, inr, sym, ap, subst, true, none, some, ◌∷◌, arith,
  Option-cases,
}
use crab_llvm.Llvm.{Ty, int, Value, Value-discrete}
use crab_llvm.Utils.Types.{CrabBuilderParams, is_tracked}
use crab_llvm.Lit.{
  Var, Lit, get_var, VariableFactory, IsVariableFactory, LitState, find_lit, make_lit, get_lit,
  get_bool_lit, get_int_lit, get_ptr_lit, remember,
}
use crab_llvm.Lit.Cache.{
  IsValid, make_lit_var, make_lit_count, make_lit_cache, find_lit_self, find_lit_ne,
}
use crab_llvm.Lit.Exact.{get_lit_hit, get_lit_miss}

-- The literals of one state are literals of the other.
abbrev pub Extends : LitState → LitState → Type 0
Extends st fin =
    (v : Value) (l : Lit) → find_lit v st.cache ≡ some l → find_lit v fin.cache ≡ some l

abbrev pub next : LitState → LitState
next st = record st { fresh_count = suc st.fresh_count }

module _ (vfac : VariableFactory) (params : CrabBuilderParams) where
  -- Asking for a literal changes the state as `make_lit` does, or not at all.
  pub get_lit-cases :
      (P : LitState → Type 0) (v : Value) (st : LitState)
      → P st
      → (find_lit v st.cache ≡ none → P (make_lit vfac params v st).1)
      → P (get_lit vfac params v st).1
  get_lit-cases P v st same made = elim (Option-cases (find_lit v st.cache)) [
    | inr (l, e) ↦ rw (get_lit_hit vfac params v st l e) same
    | inl e ↦ rw (get_lit_miss vfac params v st e) (made e)
  ]

  pub get_lit-Extends : (v : Value) (st : LitState) → Extends st (get_lit vfac params v st).1
  get_lit-Extends v st = get_lit-cases (Extends st) v st (λ u l h. h) (λ missing. made missing)
    where
      made : find_lit v st.cache ≡ none → Extends st (make_lit vfac params v st).1
      made missing u l h = elim (make_lit_cache vfac params v st) [
        | inl (nothing, e) ↦ rw e h
        | inr (new, is_new, grown) ↦ elim (Value-discrete u v) [
          | yes e ↦ absurd (clash (sym missing ∙ subst (λ w. find_lit w st.cache ≡ some l) e h))
          | no d ↦ rw grown (find_lit_ne u v new st.cache (λ q. d (sym q)) ∙ h)
        ]
      ]
        where
          clash : ¬ (none ≡ some l)
          clash q = ground arith

  -- The literal of a register that is not cached is its variable.
  make_lit_reg :
      (i : ℕ) (t : Ty) (st : LitState) (l : Lit)
      → (make_lit vfac params (Value.reg i t) st).0 ≡ some l
      → get_var l ≢ none
  unfolding make_lit get_bool_lit get_int_lit get_ptr_lit remember get_var
  make_lit_reg i (int w) st l h e = ground arith
  make_lit_reg i t st l h e = ground arith

  make_lit_tracked :
      (i : ℕ) (t : Ty) (st : LitState)
      → is_tracked (Value.reg i t) params ≡ true
      → (make_lit vfac params (Value.reg i t) st).0 ≢ none
  unfolding make_lit get_bool_lit get_int_lit get_ptr_lit remember is_tracked
  make_lit_tracked i (int w) st h e = ground arith
  make_lit_tracked i t st h e = ground arith

  -- A tracked register has a literal.
  pub get_lit-tracked :
      (i : ℕ) (t : Ty) (st : LitState)
      → is_tracked (Value.reg i t) params ≡ true
      → (get_lit vfac params (Value.reg i t) st).0 ≢ none
  get_lit-tracked i t st h e = elim (Option-cases (find_lit (Value.reg i t) st.cache)) [
    | inr (l, found) ↦
        some_ne_none l
          (sym (ap (λ r. r.0) (get_lit_hit vfac params (Value.reg i t) st l found)) ∙ e)
    | inl missing ↦
        make_lit_tracked i t st h
          (sym (ap (λ r. r.0) (get_lit_miss vfac params (Value.reg i t) st missing)) ∙ e)
  ]
    where
      some_ne_none : (l : Lit) → some l ≢ none
      some_ne_none l q = ground arith

  -- The literals of registers are variables.
  abbrev pub HasVars : LitState → Type 0
  HasVars st =
      (i : ℕ) (t : Ty) (l : Lit) → find_lit (Value.reg i t) st.cache ≡ some l → get_var l ≢ none

  -- What a longer cache adds: the literal that `make_lit` gave.
  pub grown_cases :
      (v u : Value) (st : LitState) (l : Lit)
      → find_lit u (make_lit vfac params v st).1.cache ≡ some l
      → (find_lit u st.cache ≡ some l) ⊎ ((v ≡ u) × ((make_lit vfac params v st).0 ≡ some l))
  grown_cases v u st l h = elim (make_lit_cache vfac params v st) [
    | inl (nothing, e) ↦ inl (rw e at h)
    | inr (new, is_new, grown) ↦ elim (Value-discrete v u) [
      | yes e ↦ inr (
        e,
        is_new
            ∙ sym (
                subst (λ w. find_lit w ((v, new) ∷ st.cache) ≡ some new) e
                  (find_lit_self v new st.cache))
            ∙ (rw grown at h),
      )
      | no d ↦ inl (sym (find_lit_ne u v new st.cache d) ∙ (rw grown at h))
    ]
  ]

  pub get_lit-HasVars :
      (v : Value) (st : LitState) → HasVars st → HasVars (get_lit vfac params v st).1
  get_lit-HasVars v st vars = get_lit-cases HasVars v st vars (λ missing i t l h.
      elim (grown_cases v (Value.reg i t) st l h) [
        | inl old ↦ vars i t l old
        | inr (e, new) ↦
            make_lit_reg i t st l (subst (λ w. (make_lit vfac params w st).0 ≡ some l) e new)
      ])

  -- A variable with a name that the factory gave out, which no cached literal has.
  abbrev pub IsReserved : Var → LitState → Type 0
  IsReserved y st =
      (n : ℕ) × (n < st.fresh_count)
      × (y.name ≡ vfac.fresh_name n)
      × ((u : Value) (l : Lit) (x : Var)
          → find_lit u st.cache ≡ some l
          → get_var l ≡ some x
          → y.name ≢ x.name)

-- The states that the second is reached from by asking for literals.
pub data Asks (vfac : VariableFactory) (params : CrabBuilderParams)
    : LitState → LitState → Type 0 where
  asked : (st : LitState) → Asks vfac params st st
  ask :
      (v : Value) (st fin : LitState)
      → Asks vfac params (get_lit vfac params v st).1 fin
      → Asks vfac params st fin

module _ (vfac : VariableFactory) (params : CrabBuilderParams) where
  -- What a request keeps, all of them keep.
  pub Asks-keeps :
      (P : LitState → Type 0)
      → ((v : Value) (st : LitState) → P st → P (get_lit vfac params v st).1)
      → (st fin : LitState) → Asks vfac params st fin
      → P st
      → P fin
  Asks-keeps P keep st fin (asked _) h = h
  Asks-keeps P keep st fin (ask v _ _ rest) h =
      Asks-keeps P keep (get_lit vfac params v st).1 fin rest (keep v st h)

  pub Asks-Extends : (st fin : LitState) → Asks vfac params st fin → Extends st fin
  Asks-Extends st fin asks =
      Asks-keeps (Extends st) (λ v mid h u l e. get_lit-Extends vfac params v mid u l (h u l e)) st
        fin asks (λ v l h. h)

  pub Asks-trans :
      (a b c : LitState) → Asks vfac params a b → Asks vfac params b c → Asks vfac params a c
  Asks-trans a b c (asked _) more = more
  Asks-trans a b c (ask v _ _ rest) more =
      ask v a c (Asks-trans (get_lit vfac params v a).1 b c rest more)

module _ (vfac : VariableFactory) (params : CrabBuilderParams)
    (distinct_names : IsVariableFactory vfac) where
  open distinct_names use {fresh_injective, fresh_new}

  pub get_lit-IsReserved :
      (v : Value) (st : LitState) (y : Var)
      → IsReserved vfac params y st
      → IsReserved vfac params y (get_lit vfac params v st).1
  get_lit-IsReserved v st y (n, lt, e, unused) =
      get_lit-cases vfac params (IsReserved vfac params y) v st (n, lt, e, unused)
        (λ missing.
          let count : st.fresh_count ≤ (make_lit vfac params v st).1.fresh_count =
            make_lit_count vfac params v st in
          (n, omega arith, e, new))
    where
      named_otherwise :
          (x : Var)
          → (x.name ≡ vfac.value_name v)
            ⊎ ((x.name ≡ vfac.fresh_name st.fresh_count)
                × ((make_lit vfac params v st).1.fresh_count ≡ suc st.fresh_count))
          → y.name ≢ x.name
      named_otherwise x (inl own) q = fresh_new n v (sym e ∙ q ∙ own)
      named_otherwise x (inr (f, c)) q =
          let same : n ≡ st.fresh_count = fresh_injective n st.fresh_count (sym e ∙ q ∙ f) in
          absurd (omega arith)

      new :
          (u : Value) (l : Lit) (x : Var)
          → find_lit u (make_lit vfac params v st).1.cache ≡ some l
          → get_var l ≡ some x
          → y.name ≢ x.name
      new u l x h g = elim (grown_cases vfac params v u st l h) [
        | inl old ↦ unused u l x old g
        | inr (same, made) ↦ named_otherwise x (make_lit_var vfac params v st l x made g)
      ]

  -- The next fresh variable is reserved.
  pub fresh-IsReserved :
      (st : LitState) (y : Var)
      → IsValid vfac params distinct_names st
      → y.name ≡ vfac.fresh_name st.fresh_count
      → IsReserved vfac params y (next st)
  fresh-IsReserved st y valid e = (
    st.fresh_count,
    omega arith,
    e,
    λ u l x h g q. elim (valid.named u l x h g) [
      | inl own ↦ fresh_new st.fresh_count u (sym e ∙ q ∙ own)
      | inr (n, lt, f) ↦
          let same : st.fresh_count ≡ n = fresh_injective st.fresh_count n (sym e ∙ q ∙ f) in
          absurd (omega arith)
    ],
  )

  pub next-IsReserved :
      (st : LitState) (y : Var) → IsReserved vfac params y st → IsReserved vfac params y (next st)
  next-IsReserved st y (n, lt, e, unused) = (n, omega arith, e, unused)

  pub next-IsValid :
      (st : LitState)
      → IsValid vfac params distinct_names st
      → IsValid vfac params distinct_names (next st)
  next-IsValid st valid = record {
    typed = valid.typed;
    named = λ u l x h g. elim (valid.named u l x h g) [
      | inl own ↦ inl own
      | inr (n, lt, f) ↦ inr (n, omega arith, f)
    ];
    distinct = valid.distinct;
  }
