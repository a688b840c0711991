-- ===== src/Llvm.antt =====
-- What the translation reads of LLVM's intermediate code: types and values. A number stands for
-- the identity of an instruction, an argument, a global, a constant expression or an undef value,
-- that is for LLVM's pointer to it.
use crab_llvm.Prelude.{ℕ, ℕ_discrete, Bool, true, false, Option, none, some}

pub data Ty : Type 0 where
  int : ℕ → Ty
  pointer void other : Ty

-- A ConstantInt holds its width and its bit pattern.
pub data Value : Type 0 where
  const_int : ℕ → ℕ → Value
  null : Value
  const_expr undef reg : ℕ → Ty → Value

unfoldable pub type_of : Value → Ty
type_of (Value.const_int w bits) = int w
type_of Value.null = pointer
type_of (Value.const_expr i t) = t
type_of (Value.undef i t) = t
type_of (Value.reg i t) = t

-- getIntegerBitWidth, and 0 for a type that is not an integer.
unfoldable pub width_of : Ty → ℕ
width_of (int w) = w
width_of pointer = 0
width_of void = 0
width_of other = 0

-- dyn_cast<ConstantInt>: the width and the pattern.
unfoldable pub as_constant_int : Value → Option (ℕ × ℕ)
as_constant_int (Value.const_int w bits) = some (w, bits)
as_constant_int _ = none

unfoldable pub is_const_expr : Value → Bool
is_const_expr (Value.const_expr i t) = true
is_const_expr _ = false

pub Ty-discrete : Discrete Ty
Ty-discrete = hlevel ℕ_discrete

unfoldable pub Value-discrete : Discrete Value
unfolding Ty-discrete
Value-discrete = hlevel (ℕ_discrete, Ty-discrete)
