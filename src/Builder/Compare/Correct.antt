-- ===== src/Builder/Compare/Correct.antt =====
-- The three translations of a comparison.
use crab_llvm.Prelude.{
  ℕ, ◌+◌, ◌<◌, ◌≡◌, ◌≢◌, ◌⊎◌, inl, inr, Bool, true, false, not, none, some, List, [], ◌∷◌,
  if◌then◌else◌, ◌^◌, arith, ◌==◌, some_inj, refl, ◌∙◌, sym, ap, Option-cases,
}
use crab_llvm.Prelude.Int.{ℤ}
use crab_llvm.CmpInst.{Predicate, Cmp, swap_operands, compares, signed_value}
use crab_llvm.Llvm.{Value}
use crab_llvm.Utils.Types.{CrabBuilderParams}
use crab_llvm.Lit.{
  Var, Lit, LinExp, get_exp, int_cst, bool_var, int_var, VariableFactory, LitState, get_lit,
  is_ptr_lit,
}
use crab_llvm.Crab.{
  LinCst, PtrCst, Stmt, bool_assign_cst, Env, set_bool, exp_at, ptr_holds, ptr_of, int_of, Meaning,
  continues,
}
use crab_llvm.Crab.Run.{holds, exec, run}
use crab_llvm.Builder.Compare.{
  normalize_cmp_inst, bool_constraint, int_constraint, ptr_constraint, ptr_equality,
  ptr_disequality, assign_comparison, bool_lhs, cmp_inst_to_crab_bool, cmp_inst_to_crab_int,
  cmp_inst_to_crab_ptr,
}
use crab_llvm.Builder.Compare.Sound.{is_signed_normal, exp_at-get_exp, int_constraint-holds}

-- A predicate that compares signed values or patterns for equality.
abbrev pub is_signed : Predicate → Bool
is_signed Predicate.ugt = false
is_signed Predicate.uge = false
is_signed Predicate.ult = false
is_signed Predicate.ule = false
is_signed _ = true

-- The negation that a caller may ask for.
abbrev pub negate_if : Bool → Bool → Bool
negate_if negated b = if negated then not b else b

pub get_exp_of :
    (env : Env) (l : Lit) (n : ℤ)
    → int_of env l ≡ some n
    → (e : LinExp) × (get_exp l ≡ some e) × (exp_at env e ≡ n)
get_exp_of env l n h = elim (Option-cases (get_exp l)) [
  | inr (e, g) ↦ (e, g, some_inj _ _ (sym (exp_at-get_exp env l e g) ∙ h))
  | inl g ↦ absurd (is_some l h g)
]
  where
    is_some : (l : Lit) → int_of env l ≡ some n → get_exp l ≢ none
    is_some (int_cst m) h = unfold get_exp in ground arith
    is_some (int_var m) h = unfold get_exp in ground arith
    is_some l h = unfold get_exp int_of in ground arith

constraint_of :
    (p : Predicate) (x y : LinExp) (negated : Bool)
    → p ≢ Predicate.ugt
    → p ≢ Predicate.uge
    → p ≢ Predicate.sgt
    → p ≢ Predicate.sge
    → (c : LinCst) × (int_constraint p x y negated ≡ some c)
unfolding int_constraint bool_constraint
constraint_of Predicate.eq x y true h0 h1 h2 h3 = (_, refl)
constraint_of Predicate.eq x y false h0 h1 h2 h3 = (_, refl)
constraint_of Predicate.ne x y true h0 h1 h2 h3 = (_, refl)
constraint_of Predicate.ne x y false h0 h1 h2 h3 = (_, refl)
constraint_of Predicate.ult x y true h0 h1 h2 h3 = (_, refl)
constraint_of Predicate.ult x y false h0 h1 h2 h3 = (_, refl)
constraint_of Predicate.slt x y true h0 h1 h2 h3 = (_, refl)
constraint_of Predicate.slt x y false h0 h1 h2 h3 = (_, refl)
constraint_of Predicate.ule x y true h0 h1 h2 h3 = (_, refl)
constraint_of Predicate.ule x y false h0 h1 h2 h3 = (_, refl)
constraint_of Predicate.sle x y true h0 h1 h2 h3 = (_, refl)
constraint_of Predicate.sle x y false h0 h1 h2 h3 = (_, refl)
constraint_of Predicate.ugt x y negated h0 h1 h2 h3 = absurd (h0 refl)
constraint_of Predicate.uge x y negated h0 h1 h2 h3 = absurd (h1 refl)
constraint_of Predicate.sgt x y negated h0 h1 h2 h3 = absurd (h2 refl)
constraint_of Predicate.sge x y negated h0 h1 h2 h3 = absurd (h3 refl)

normal_lem :
    (c : Cmp Value) (k : ℕ) (bits : Value → ℕ)
    → (compares k
          (normalize_cmp_inst c).predicate
          (bits (normalize_cmp_inst c).op0)
          (bits (normalize_cmp_inst c).op1)
        ≡ compares k c.predicate (bits c.op0) (bits c.op1))
      × ((normalize_cmp_inst c).predicate ≢ Predicate.ugt)
      × ((normalize_cmp_inst c).predicate ≢ Predicate.uge)
      × ((normalize_cmp_inst c).predicate ≢ Predicate.sgt)
      × ((normalize_cmp_inst c).predicate ≢ Predicate.sge)
      × (is_signed c.predicate ≡ is_signed_normal (normalize_cmp_inst c).predicate)
unfolding normalize_cmp_inst compares swap_operands
normal_lem c k bits = ground arith

assign_comparison_lem :
    (hv : Bool) (lhs : Var) (p : Predicate) (l0 l1 : Lit) (x y : LinExp) (c : LinCst)
    → get_exp l0 ≡ some x
    → get_exp l1 ≡ some y
    → int_constraint p x y false ≡ some c
    → assign_comparison hv lhs p (some l0) (some l1) ≡ some (bool_assign_cst lhs c ∷ [])
unfolding assign_comparison int_constraint
assign_comparison_lem hv lhs p l0 l1 x y c h0 h1 h =
    rw (h0, assign_comparison) (rw (h1, assign_comparison) (rw h refl))

not-not : (b : Bool) → not (not b) ≡ b
not-not true = refl
not-not false = refl

ptr_predicate :
    (c : Cmp Value)
    → ((c.predicate ≡ Predicate.eq) × ((normalize_cmp_inst c).predicate ≡ Predicate.eq))
      ⊎ (((c.predicate ≡ Predicate.ne) × ((normalize_cmp_inst c).predicate ≡ Predicate.ne))
          ⊎ ((c.predicate ≢ Predicate.eq)
              × (c.predicate ≢ Predicate.ne)
              × ((normalize_cmp_inst c).predicate ≢ Predicate.eq)
              × ((normalize_cmp_inst c).predicate ≢ Predicate.ne)))
unfolding normalize_cmp_inst swap_operands
ptr_predicate c = ground arith

ptr_constraint-none :
    (p : Predicate) (l0 l1 : Lit) (negated : Bool)
    → p ≢ Predicate.eq
    → p ≢ Predicate.ne
    → ptr_constraint p l0 l1 negated ≡ none
unfolding ptr_constraint
ptr_constraint-none p l0 l1 negated h0 h1 = ground arith

module _ (vfac : VariableFactory) (params : CrabBuilderParams) where
  -- A comparison of patterns of width suc k, with the literals that its operands get when they are
  -- asked for one after the other, and a valuation of Crab's variables by their signed values.
  pub record IsComparison (k : ℕ) (bits : Value → ℕ) (env : Env) (c : Cmp Value) (st : LitState)
      (l0 l1 : Lit) : Type 0 where
    pub first : (get_lit vfac params (normalize_cmp_inst c).op0 st).0 ≡ some l0
    pub second :
        (get_lit vfac params
          (normalize_cmp_inst c).op1
          (get_lit vfac params (normalize_cmp_inst c).op0 st).1).0
        ≡ some l1
    pub range0 : bits (normalize_cmp_inst c).op0 < 2 ^ k + 2 ^ k
    pub range1 : bits (normalize_cmp_inst c).op1 < 2 ^ k + 2 ^ k
    pub value0 : int_of env l0 ≡ some (signed_value k (bits (normalize_cmp_inst c).op0))
    pub value1 : int_of env l1 ≡ some (signed_value k (bits (normalize_cmp_inst c).op1))

  module _ (μ : Meaning) (k : ℕ) (bits : Value → ℕ) (env : Env) (c : Cmp Value)
      (st : LitState) where
    -- A comparison of integers has a constraint; where the predicate is not an unsigned one, the
    -- constraint holds exactly if LLVM's comparison, or its negation where that is asked for, does.
    pub cmp_inst_to_crab_int-holds :
        (l0 l1 : Lit) (negated : Bool)
        → IsComparison k bits env c st l0 l1
        → (cst : LinCst) × ((cmp_inst_to_crab_int vfac params c negated st).0 ≡ some cst)
          × (is_signed c.predicate ≡ true
              → holds μ env cst
                ≡ negate_if negated (compares k c.predicate (bits c.op0) (bits c.op1)))
    unfolding cmp_inst_to_crab_int
    cmp_inst_to_crab_int-holds l0 l1 negated h =
        let (same, n0, n1, n2, n3, signed) = normal_lem c k bits in
        let (x, ex, vx) = get_exp_of env l0 _ h.value0 in
        let (y, ey, vy) = get_exp_of env l1 _ h.value1 in
        let (cst, e) = constraint_of (normalize_cmp_inst c).predicate x y negated n0 n1 n2 n3 in
        (
          cst,
          rw (h.first, h.second, ex, ey) e,
          λ s.
              int_constraint-holds μ env k (normalize_cmp_inst c).predicate x y _ _ negated cst
                (sym signed ∙ s) h.range0 h.range1 vx vy e
              ∙ ap (negate_if negated) same,
        )

    -- A comparison of integers that defines the Boolean variable `lhs` is translated to statements
    -- that go on and assign it the result of LLVM's comparison, where the predicate is not an
    -- unsigned one.
    pub cmp_inst_to_crab_bool-assigns :
        (I : Value) (lhs : Var) (l0 l1 : Lit)
        → (get_lit vfac params I st).0 ≡ some (bool_var lhs)
        → IsComparison k bits env c (get_lit vfac params I st).1 l0 l1
        → is_signed c.predicate ≡ true
        → (code : List Stmt) × (st' : LitState) × (cmp_inst_to_crab_bool vfac params I c st
            ≡ some (code, st'))
          × (run μ code env
              ≡ continues
                  (set_bool lhs.name (compares k c.predicate (bits c.op0) (bits c.op1)) env))
    unfolding cmp_inst_to_crab_bool bool_lhs
    cmp_inst_to_crab_bool-assigns I lhs l0 l1 e h s =
        let (same, n0, n1, n2, n3, signed) = normal_lem c k bits in
        let (x, ex, vx) = get_exp_of env l0 _ h.value0 in
        let (y, ey, vy) = get_exp_of env l1 _ h.value1 in
        let (cst, f) = constraint_of (normalize_cmp_inst c).predicate x y false n0 n1 n2 n3 in
        (
          bool_assign_cst lhs cst ∷ [],
          (get_lit vfac params (normalize_cmp_inst c).op1
              (get_lit vfac params (normalize_cmp_inst c).op0 (get_lit vfac params I st).1).1).1,
          rw (e, h.first, h.second, ex)
              (rw (assign_comparison_lem params.include_useless_havoc lhs _ l0 l1 x y cst ex ey f)
                refl),
          unfold run exec in
              ap (λ b. continues (set_bool lhs.name b env))
                (int_constraint-holds μ env k (normalize_cmp_inst c).predicate x y _ _ false cst
                    (sym signed ∙ s) h.range0 h.range1 vx vy f
                  ∙ same),
        )

  module _ (env : Env) where
    ptr_equality-holds :
        (l0 l1 : Lit) (a b : ℕ)
        → ptr_of env l0 ≡ some a
        → ptr_of env l1 ≡ some b
        → ptr_holds env (ptr_equality l0 l1) ≡ (a == b)
    unfolding ptr_of ptr_equality ptr_holds
    ptr_equality-holds l0 l1 a b h0 h1 = ground arith

    ptr_disequality-holds :
        (l0 l1 : Lit) (a b : ℕ)
        → ptr_of env l0 ≡ some a
        → ptr_of env l1 ≡ some b
        → ptr_holds env (ptr_disequality l0 l1) ≡ not (a == b)
    unfolding ptr_of ptr_disequality ptr_holds
    ptr_disequality-holds l0 l1 a b h0 h1 = ground arith

    ptr_choice-holds :
        (l0 l1 : Lit) (a b : ℕ) (negated : Bool)
        → ptr_of env l0 ≡ some a
        → ptr_of env l1 ≡ some b
        → ptr_holds env (if negated then ptr_disequality l0 l1 else ptr_equality l0 l1)
          ≡ negate_if negated (a == b)
    ptr_choice-holds l0 l1 a b true h0 h1 = ptr_disequality-holds l0 l1 a b h0 h1
    ptr_choice-holds l0 l1 a b false h0 h1 = ptr_equality-holds l0 l1 a b h0 h1

    ptr_choice-holds_not :
        (l0 l1 : Lit) (a b : ℕ) (negated : Bool)
        → ptr_of env l0 ≡ some a
        → ptr_of env l1 ≡ some b
        → ptr_holds env (if negated then ptr_equality l0 l1 else ptr_disequality l0 l1)
          ≡ negate_if negated (not (a == b))
    ptr_choice-holds_not l0 l1 a b true h0 h1 =
        ptr_equality-holds l0 l1 a b h0 h1 ∙ sym (not-not (a == b))
    ptr_choice-holds_not l0 l1 a b false h0 h1 = ptr_disequality-holds l0 l1 a b h0 h1

    ptr_constraint_eq :
        (l0 l1 : Lit) (a b : ℕ) (negated : Bool)
        → ptr_of env l0 ≡ some a
        → ptr_of env l1 ≡ some b
        → ptr_constraint Predicate.eq l0 l1 negated
          ≡ some (if negated then ptr_disequality l0 l1 else ptr_equality l0 l1)
    unfolding ptr_of ptr_constraint is_ptr_lit
    ptr_constraint_eq l0 l1 a b negated h0 h1 = ground arith

    ptr_constraint_ne :
        (l0 l1 : Lit) (a b : ℕ) (negated : Bool)
        → ptr_of env l0 ≡ some a
        → ptr_of env l1 ≡ some b
        → ptr_constraint Predicate.ne l0 l1 negated
          ≡ some (if negated then ptr_equality l0 l1 else ptr_disequality l0 l1)
    unfolding ptr_of ptr_constraint is_ptr_lit
    ptr_constraint_ne l0 l1 a b negated h0 h1 = ground arith

    -- Two pointers have a constraint exactly if they are compared for equality or its negation, and
    -- it holds exactly if the comparison of their addresses, negated where that is asked for, does.
    pub cmp_inst_to_crab_ptr-holds :
        (c : Cmp Value) (st : LitState) (l0 l1 : Lit) (a b : ℕ) (negated : Bool)
        → (get_lit vfac params (normalize_cmp_inst c).op0 st).0 ≡ some l0
        → (get_lit vfac params
            (normalize_cmp_inst c).op1
            (get_lit vfac params (normalize_cmp_inst c).op0 st).1).0
          ≡ some l1
        → ptr_of env l0 ≡ some a
        → ptr_of env l1 ≡ some b
        → (((cmp_inst_to_crab_ptr vfac params c negated st).0 ≡ none)
            × (c.predicate ≢ Predicate.eq)
            × (c.predicate ≢ Predicate.ne))
          ⊎ ((cst : PtrCst) × ((cmp_inst_to_crab_ptr vfac params c negated st).0 ≡ some cst)
              × (((c.predicate ≡ Predicate.eq) × (ptr_holds env cst ≡ negate_if negated (a == b)))
                  ⊎ ((c.predicate ≡ Predicate.ne)
                      × (ptr_holds env cst ≡ negate_if negated (not (a == b))))))
    unfolding cmp_inst_to_crab_ptr
    cmp_inst_to_crab_ptr-holds c st l0 l1 a b negated h0 h1 e0 e1 =
        rw (h0, h1)
          (elim (ptr_predicate c) [
            | inl (p, q) ↦ inr (
              _,
              rw q (ptr_constraint_eq l0 l1 a b negated e0 e1),
              inl (p, ptr_choice-holds l0 l1 a b negated e0 e1),
            )
            | inr (inl (p, q)) ↦ inr (
              _,
              rw q (ptr_constraint_ne l0 l1 a b negated e0 e1),
              inr (p, ptr_choice-holds_not l0 l1 a b negated e0 e1),
            )
            | inr (inr (p, p', q, q')) ↦ inl (ptr_constraint-none _ l0 l1 negated q q', p, p')
          ])
