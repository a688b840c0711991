-- ===== src/Lit/Sample.antt =====
-- A variable factory: values have even names, by an encoding of them, and fresh variables odd ones.
use crab_llvm.Prelude.{
  ℕ, zero, suc, ◌+◌, ◌*◌, ◌≡◌, ◌≢◌, refl, ap, none, some, true, false, [], arith,
}
use crab_llvm.Llvm.{Ty, int, pointer, void, other, Value}
use crab_llvm.Utils.Types.{CrabBuilderParams, Precision}
use crab_llvm.Lit.Cache.{IsValid}
use crab_llvm.Lit.{Lit, find_lit, VariableFactory, IsVariableFactory, LitState}

abbrev pair : ℕ → ℕ → ℕ
pair zero b = 2 * b + 1
pair (suc a) b = 2 * pair a b

pair-injective : (a b c d : ℕ) → pair a b ≡ pair c d → (a ≡ c) × (b ≡ d)
pair-injective zero b zero d h = (refl, omega arith)
pair-injective zero b (suc c) d h = absurd (omega arith)
pair-injective (suc a) b zero d h = absurd (omega arith)
pair-injective (suc a) b (suc c) d h =
    let (e, f) = pair-injective a b c d (omega arith) in (ap suc e, f)

abbrev type_code : Ty → ℕ
type_code (int w) = 3 + w
type_code pointer = 0
type_code void = 1
type_code other = 2

type_code-injective : (t u : Ty) → type_code t ≡ type_code u → t ≡ u
type_code-injective t u h = ground arith

abbrev code : Value → ℕ
code (Value.const_int w bits) = 5 * pair w bits
code Value.null = 1
code (Value.const_expr i t) = 5 * pair i (type_code t) + 2
code (Value.undef i t) = 5 * pair i (type_code t) + 3
code (Value.reg i t) = 5 * pair i (type_code t) + 4

typed_pair :
    (f : ℕ → Ty → Value) (i j : ℕ) (t u : Ty)
    → pair i (type_code t) ≡ pair j (type_code u)
    → f i t ≡ f j u
typed_pair f i j t u h =
    let (e, g) = pair-injective i (type_code t) j (type_code u) h in
    let k = type_code-injective t u g in cc

code-injective : (u v : Value) → code u ≡ code v → u ≡ v
code-injective (Value.const_int w a) (Value.const_int x b) h =
    let (e, g) = pair-injective w a x b (omega arith) in cc
code-injective Value.null Value.null h = refl
code-injective (Value.const_expr i t) (Value.const_expr j u) h =
    typed_pair Value.const_expr i j t u (omega arith)
code-injective (Value.undef i t) (Value.undef j u) h = typed_pair Value.undef i j t u (omega arith)
code-injective (Value.reg i t) (Value.reg j u) h = typed_pair Value.reg i j t u (omega arith)
code-injective u v h = absurd (omega arith)

abbrev pub sample_factory : VariableFactory
sample_factory = record {
  value_name = λ v. 2 * code v;
  region_name = λ n. 2 * n;
  fresh_name = λ n. 2 * n + 1;
}

pub sample_factory-IsVariableFactory : IsVariableFactory sample_factory
sample_factory-IsVariableFactory = record {
  value_injective = λ u v h. code-injective u v (halve _ _ h);
  fresh_injective = λ m n h. fresh_half m n h;
  fresh_new = λ n v h. odd_even n (code v) h;
}
  where
    halve : (a b : ℕ) → 2 * a ≡ 2 * b → a ≡ b
    halve a b h = omega arith

    fresh_half : (m n : ℕ) → 2 * m + 1 ≡ 2 * n + 1 → m ≡ n
    fresh_half m n h = omega arith

    odd_even : (n c : ℕ) → 2 * n + 1 ≢ 2 * c
    odd_even n c h = omega arith

-- All is translated, with pointers, and bignums are excluded.
abbrev pub sample_params : CrabBuilderParams
sample_params = record {
  precision_level = Precision.ptr;
  interprocedural = true;
  include_useless_havoc = true;
  enable_bignums = false;
  lower_singleton_aliases = true;
  use_array_smashing = true;
}

abbrev pub empty_state : LitState
empty_state = record { cache = []; fresh_count = 0 }

pub empty_state-IsValid :
    IsValid sample_factory sample_params sample_factory-IsVariableFactory empty_state
unfolding find_lit
empty_state-IsValid = record {
  typed = λ v l h. absurd (nothing l h);
  named = λ v l x h e. absurd (nothing l h);
  distinct = λ u v l m x y h g e f k. absurd (nothing l h);
}
  where
    nothing : (l : Lit) → ¬ (none ≡ some l)
    nothing l h = ground arith
