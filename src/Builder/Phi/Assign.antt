-- ===== src/Builder/Phi/Assign.antt =====
-- About the second loop of CrabPhiVisitor: the assignments of the PHI nodes.
use crab_llvm.Prelude.{
  ◌≡◌, ◌≢◌, ◌∙◌, ◌⊎◌, inl, inr, sym, ap, subst, refl, Bool, true, false, not, ◌||◌, none, some,
  List, [], ◌∷◌, arith, Option-cases, Bool-cases, true_ne_false,
}
use crab_llvm.Llvm.{Ty, int, Value, type_of}
use crab_llvm.Utils.Types.{
  CrabBuilderParams, is_tracked, is_tracked_type, is_bool, is_integer, is_integer_ty, is_pointer,
  is_pointer_ty,
}
use crab_llvm.Lit.{
  Var, Lit, exp_var, get_var, VariableFactory, LitState, find_lit, get_lit, is_bool_lit, is_int_lit,
  is_ptr_lit,
}
use crab_llvm.Lit.Cache.{HasClass}
use crab_llvm.Lit.Exact.{
  lacks_literal, make_lit-none_iff, get_lit_hit, get_lit_miss, find_lit-get_lit,
}
use crab_llvm.Lit.Fresh.{HasVars, get_lit-HasVars, get_lit-tracked}
use crab_llvm.Crab.{bool_assign_var, assign, ptr_assign}
use crab_llvm.Builder.Phi.{PhiNode, find_old, assign_lit, assign_old, assign_incoming, assign_phi}
use crab_llvm.Builder.Phi.Values.{like}
use crab_llvm.Builder.Phi.Olds.{IsRegNode}

module _ (vfac : VariableFactory) (params : CrabBuilderParams) where
  int_parts : (t : Ty) → is_integer t ≡ true → (is_bool t ≡ false) × (is_integer_ty t ≡ true)
  unfolding is_integer is_bool is_integer_ty
  int_parts (int w) h = ground arith
  int_parts t h = ground arith

  ptr_parts :
      (t : Ty)
      → is_pointer_ty t ≡ true
      → is_tracked_type t params ≡ true
      → (is_bool t ≡ false) × (is_integer_ty t ≡ false) × (is_pointer t params ≡ true)
  unfolding is_pointer is_pointer_ty is_bool is_integer_ty is_tracked_type
  ptr_parts t h k = ground arith

  old_bool :
      (node : Value) (x y : Var)
      → is_bool (type_of node) ≡ true
      → assign_old vfac params node x y ≡ bool_assign_var x y false ∷ []
  unfolding assign_old
  old_bool node x y h = rw h refl

  old_int :
      (node : Value) (x y : Var)
      → is_integer (type_of node) ≡ true
      → assign_old vfac params node x y ≡ assign x (exp_var y) ∷ []
  unfolding assign_old
  old_int node x y h = let (a, b) = int_parts (type_of node) h in rw a (rw b refl)

  old_ptr :
      (node : Value) (x y : Var)
      → is_pointer_ty (type_of node) ≡ true
      → is_tracked node params ≡ true
      → assign_old vfac params node x y ≡ ptr_assign x y ∷ []
  unfolding assign_old is_tracked
  old_ptr node x y h k = let (a, b, c) = ptr_parts (type_of node) h k in rw a (rw b (rw c refl))

  -- An old version is assigned like a literal of the class that the PHI node's type gives.
  pub assign_old_lem :
      (node v : Value) (x y : Var) (l : Lit)
      → type_of v ≡ type_of node
      → is_tracked node params ≡ true
      → HasClass v l
      → assign_old vfac params node x y ≡ assign_lit x (like l y)
  unfolding assign_lit like is_bool_lit is_int_lit is_ptr_lit
  assign_old_lem node v x y (Lit.bool_cst b) e h class =
      old_bool node x y (ap is_bool (sym e) ∙ sym class.bools)
  assign_old_lem node v x y (Lit.bool_var z) e h class =
      old_bool node x y (ap is_bool (sym e) ∙ sym class.bools)
  assign_old_lem node v x y (Lit.int_cst n) e h class =
      old_int node x y (ap is_integer (sym e) ∙ sym class.ints)
  assign_old_lem node v x y (Lit.int_var z) e h class =
      old_int node x y (ap is_integer (sym e) ∙ sym class.ints)
  assign_old_lem node v x y Lit.ptr_null e h class =
      old_ptr node x y (ap is_pointer_ty (sym e) ∙ sym class.ptrs) h
  assign_old_lem node v x y (Lit.ptr_var z) e h class =
      old_ptr node x y (ap is_pointer_ty (sym e) ∙ sym class.ptrs) h

  -- A value that does not lack a literal gets one.
  pub get_lit-some :
      (v : Value) (st : LitState)
      → lacks_literal params v ≡ false
      → (get_lit vfac params v st).0 ≢ none
  get_lit-some v st h e = elim (Option-cases (find_lit v st.cache)) [
    | inr (l, found) ↦ clash l (sym (ap (λ r. r.0) (get_lit_hit vfac params v st l found)) ∙ e)
    | inl missing ↦ true_ne_false (
        sym (
          (make_lit-none_iff vfac params v st).0
            (sym (ap (λ r. r.0) (get_lit_miss vfac params v st missing)) ∙ e))
        ∙ h)
  ]
    where
      clash : (l : Lit) → some l ≢ none
      clash l q = ground arith

  module _ (olds : List (Value × Var)) where
    -- The ways that a round of the second loop goes.
    abbrev pub Round : PhiNode → LitState → Type 0
    Round p st =
        ((not (is_tracked p.node params) || p.shadow_name ≡ true)
          × (assign_phi vfac params olds p st ≡ some ([], st)))
        ⊎ ((l : Lit) × (x : Var) × (is_tracked p.node params ≡ true)
            × (p.shadow_name ≡ false)
            × ((get_lit vfac params p.node st).0 ≡ some l)
            × (get_var l ≡ some x)
            × (((y : Var) × (find_old p.incoming olds ≡ some y)
                  × (assign_phi vfac params olds p st
                      ≡ some
                          (assign_old vfac params p.node x y, (get_lit vfac params p.node st).1)))
                ⊎ ((find_old p.incoming olds ≡ none)
                    × (assign_phi vfac params olds p st
                        ≡ some (
                            assign_incoming vfac params x p.incoming
                              (get_lit vfac params p.node st).1)))))

    pub assign_phi-Round :
        (p : PhiNode) (st : LitState) → IsRegNode p → HasVars vfac params st → Round p st
    unfolding assign_phi
    assign_phi-Round p st (i, t, reg) vars =
        elim (Bool-cases (not (is_tracked p.node params) || p.shadow_name)) [
          | inl e ↦ inl (e, rw e refl)
          | inr e ↦ elim (Option-cases (get_lit vfac params p.node st).0) [
            | inl f ↦
                let (tracked, shadow) = or_false (is_tracked p.node params) p.shadow_name e in
                absurd (
                  get_lit-tracked vfac params i t st
                    (subst (λ w. is_tracked w params ≡ true) reg tracked)
                    (subst (λ w. (get_lit vfac params w st).0 ≡ none) reg f))
            | inr (l, f) ↦ elim (Option-cases (get_var l)) [
              | inl g ↦ absurd (
                  get_lit-HasVars vfac params p.node st vars i t l
                    (subst (λ w. find_lit w (get_lit vfac params p.node st).1.cache ≡ some l) reg
                      (find_lit-get_lit vfac params p.node st l f))
                    g)
              | inr (x, g) ↦ elim (Option-cases (find_old p.incoming olds)) [
                | inr (y, h) ↦ inr (
                  l,
                  x,
                  (or_false (is_tracked p.node params) p.shadow_name e).0,
                  (or_false (is_tracked p.node params) p.shadow_name e).1,
                  f,
                  g,
                  inl (y, h, rw e (rw f (rw g (rw h refl)))),
                )
                | inl h ↦ inr (
                  l,
                  x,
                  (or_false (is_tracked p.node params) p.shadow_name e).0,
                  (or_false (is_tracked p.node params) p.shadow_name e).1,
                  f,
                  g,
                  inr (h, rw e (rw f (rw g (rw h refl)))),
                )
              ]
            ]
          ]
        ]
      where
        or_false : (a b : Bool) → not a || b ≡ false → (a ≡ true) × (b ≡ false)
        or_false a b h = ground arith
