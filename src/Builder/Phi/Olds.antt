-- ===== src/Builder/Phi/Olds.antt =====
-- About the map of old versions and the block's PHI nodes.
use crab_llvm.Prelude.{
  ℕ, ◌≡◌, ◌≢◌, ◌∙◌, sym, subst, refl, true, none, some, List, [], ◌∷◌, arith, true_ne_false, All,
}
use crab_llvm.Llvm.{Ty, Value, Value-discrete}
use crab_llvm.Lit.{Var}
use crab_llvm.Builder.Phi.{PhiNode, is_phi_of, find_old}

pub find_old_self :
    (v : Value) (y : Var) (olds : List (Value × Var)) → find_old v ((v, y) ∷ olds) ≡ some y
unfolding find_old
find_old_self v y olds =
    elim (Value-discrete v v)
      as (λ d. elim d [ yes e ↦ some y | no n ↦ find_old v olds ] ≡ some y) [
        | yes e ↦ refl
        | no d ↦ absurd (d refl)
      ]

pub find_old_ne :
    (u v : Value) (y : Var) (olds : List (Value × Var))
    → v ≢ u
    → find_old u ((v, y) ∷ olds) ≡ find_old u olds
unfolding find_old
find_old_ne u v y olds h =
    elim (Value-discrete v u)
      as (λ d. elim d [ yes e ↦ some y | no n ↦ find_old u olds ] ≡ find_old u olds) [
        | yes e ↦ absurd (h e)
        | no d ↦ refl
      ]

-- The old versions of one list are those of the other.
abbrev pub IsPart : List (Value × Var) → List (Value × Var) → Type 0
IsPart olds more = (v : Value) (y : Var) → find_old v olds ≡ some y → find_old v more ≡ some y

pub add_old-IsPart :
    (v : Value) (y : Var) (olds : List (Value × Var))
    → find_old v olds ≡ none
    → IsPart olds ((v, y) ∷ olds)
add_old-IsPart v y olds missing u z h = elim (Value-discrete v u) [
  | yes e ↦ absurd (clash (sym missing ∙ subst (λ w. find_old w olds ≡ some z) (sym e) h))
  | no d ↦ find_old_ne u v y olds d ∙ h
]
  where
    clash : ¬ (none ≡ some z)
    clash q = ground arith

-- LLVM's PHI nodes are instructions.
abbrev pub IsRegNode : PhiNode → Type 0
IsRegNode p = (i : ℕ) × (t : Ty) × (p.node ≡ Value.reg i t)

is_phi_of-ne :
    (v : Value) (p : PhiNode) (block : List PhiNode)
    → p.node ≢ v
    → is_phi_of v (p ∷ block) ≡ is_phi_of v block
unfolding is_phi_of
is_phi_of-ne v p block h =
    elim (Value-discrete p.node v)
      as (λ d. elim d [ yes e ↦ true | no n ↦ is_phi_of v block ] ≡ is_phi_of v block) [
        | yes e ↦ absurd (h e)
        | no d ↦ refl
      ]

-- A PHI node with the value as its node.
pub is_reg_of :
    (v : Value) (block : List PhiNode)
    → All IsRegNode block
    → is_phi_of v block ≡ true
    → (i : ℕ) × (t : Ty) × (v ≡ Value.reg i t)
unfolding is_phi_of
is_reg_of v [] regs h = absurd (true_ne_false (sym h))
is_reg_of v (p ∷ block) ((i, t, e), regs) h = elim (Value-discrete p.node v) [
  | yes same ↦ (i, t, sym same ∙ e)
  | no d ↦ is_reg_of v block regs (sym (is_phi_of-ne v p block d) ∙ h)
]
