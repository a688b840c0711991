-- ===== src/Builder/Compare/Sound.antt =====
-- About the constraints that the comparisons give.
use crab_llvm.Prelude.{
  ℕ, ◌+◌, ◌<◌, ◌≡◌, inl, inr, Option-cases, Bool, true, false, not, some, if◌then◌else◌, ◌^◌, arith,
  ◌==◌, refl, ◌∙◌, ap,
}
use crab_llvm.Prelude.Int.{ℤ, pos, negsuc, ◌+ℤ◌, leb_ℤ, eqb_ℤ, ltb_ℤ, +ℤ_parts}
use crab_llvm.CmpInst.{Predicate, compares, signed_value}
use crab_llvm.Lit.{Lit, LinExp, get_exp, int_cst, int_var}
use crab_llvm.Crab.{LinCst, add_constant, Env, exp_at, related, int_of, int_at, Meaning}
use crab_llvm.Crab.Run.{holds, +ℤ_zero, +ℤ_assoc}
use crab_llvm.Builder.Compare.{bool_constraint, int_constraint}

-- A predicate that is left after normalising, and that Crab's constraints without flag express.
abbrev pub is_signed_normal : Predicate → Bool
is_signed_normal Predicate.eq = true
is_signed_normal Predicate.ne = true
is_signed_normal Predicate.slt = true
is_signed_normal Predicate.sle = true
is_signed_normal _ = false

-- The value of an expression plus a number.
pub exp_at-add_constant :
    (env : Env) (e : LinExp) (n : ℤ) → exp_at env (add_constant e n) ≡ exp_at env e +ℤ n
unfolding exp_at add_constant
exp_at-add_constant env e n = elim (Option-cases e.variable) [
  | inl h ↦ rw h
  | inr (x, h) ↦ rw h (+ℤ_assoc (int_at env x.name) e.constant n)
]

pub exp_at-get_exp :
    (env : Env) (l : Lit) (e : LinExp) → get_exp l ≡ some e → int_of env l ≡ some (exp_at env e)
unfolding exp_at get_exp int_of
exp_at-get_exp env (int_cst n) e h = ground arith
exp_at-get_exp env (int_var x) e h = ground (arith, +ℤ_zero (int_at env x.name))
exp_at-get_exp env l e h = ground arith

-- Two's complement keeps equality.
signed_value-injective :
    (k a b : ℕ)
    → a < 2 ^ k + 2 ^ k
    → b < 2 ^ k + 2 ^ k
    → eqb_ℤ (signed_value k a) (signed_value k b) ≡ (a == b)
signed_value-injective k a b ha hb = ground arith

-- The comparison that a predicate makes of two integers.
abbrev compares_ℤ : Predicate → ℤ → ℤ → Bool
compares_ℤ Predicate.eq m n = eqb_ℤ m n
compares_ℤ Predicate.ne m n = not (eqb_ℤ m n)
compares_ℤ Predicate.slt m n = ltb_ℤ m n
compares_ℤ Predicate.sle m n = leb_ℤ m n
compares_ℤ _ m n = false

compares-signed_value :
    (k : ℕ) (p : Predicate) (a b : ℕ)
    → is_signed_normal p ≡ true
    → a < 2 ^ k + 2 ^ k
    → b < 2 ^ k + 2 ^ k
    → compares_ℤ p (signed_value k a) (signed_value k b) ≡ compares k p a b
unfolding compares
compares-signed_value k Predicate.eq a b hp ha hb = signed_value-injective k a b ha hb
compares-signed_value k Predicate.ne a b hp ha hb = ap not (signed_value-injective k a b ha hb)
compares-signed_value k Predicate.slt a b hp ha hb = refl
compares-signed_value k Predicate.sle a b hp ha hb = refl
compares-signed_value k p a b hp ha hb = ground arith

module _ (μ : Meaning) (env : Env) where
  constraint_ℤ :
      (p : Predicate) (x y : LinExp) (negated : Bool) (c : LinCst)
      → is_signed_normal p ≡ true
      → int_constraint p x y negated ≡ some c
      → holds μ env c ≡ (
          if negated
          then not (compares_ℤ p (exp_at env x) (exp_at env y))
          else compares_ℤ p (exp_at env x) (exp_at env y))
  unfolding int_constraint bool_constraint holds related
  constraint_ℤ Predicate.eq x y negated c hp h = ground arith
  constraint_ℤ Predicate.ne x y negated c hp h = ground arith
  constraint_ℤ Predicate.slt x y negated c hp h =
      ground (arith, exp_at-add_constant env y (negsuc 0), +ℤ_parts (exp_at env y) (negsuc 0))
  constraint_ℤ Predicate.sle x y negated c hp h =
      ground (arith, exp_at-add_constant env y (pos 1), +ℤ_parts (exp_at env y) (pos 1))
  constraint_ℤ p x y negated c hp h = ground arith

  -- The constraint holds exactly if the comparison has the asked-for result.
  pub int_constraint-holds :
      (k : ℕ) (p : Predicate) (x y : LinExp) (a b : ℕ) (negated : Bool) (c : LinCst)
      → is_signed_normal p ≡ true
      → a < 2 ^ k + 2 ^ k
      → b < 2 ^ k + 2 ^ k
      → exp_at env x ≡ signed_value k a
      → exp_at env y ≡ signed_value k b
      → int_constraint p x y negated ≡ some c
      → holds μ env c ≡ (if negated then not (compares k p a b) else compares k p a b)
  int_constraint-holds k p x y a b negated c hp ra rb ea eb h =
      constraint_ℤ p x y negated c hp h ∙ rw (ea, eb, compares-signed_value k p a b hp ra rb)
