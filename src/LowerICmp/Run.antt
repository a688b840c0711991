-- ===== src/LowerICmp/Run.antt =====
-- The meaning of the code that the pass creates: registers hold bit patterns, 1 and 0 for i1.
use crab_llvm.Prelude.{
  ℕ, zero, suc, ◌-◌, Bool, true, false, Option, none, some, List, [], ◌∷◌, ◌==◌, if◌then◌else◌, ◌≡◌,
  arith, length, drop, ◌>>=◌,
}
use crab_llvm.CmpInst.{compares}
use crab_llvm.Llvm.{int, pointer, other, void}
use crab_llvm.LowerICmp.{
  Operand, const_int, reg, Inst, icmp, phi, opaque, Terminator, br, cond_br, other_exit, Func,
  Position,
}

-- The latest assignment comes first; a register with none holds 0.
pub data Regs : Type 0 where
  unset : Regs
  write : ℕ → ℕ → Regs → Regs

unfoldable pub read : Regs → ℕ → ℕ
read unset q = 0
read (write r v s) q = if r == q then v else read s q

unfoldable pub value_of : Regs → Operand → ℕ
unfolding read
value_of s (const_int c) = c
value_of s (reg r) = read s r

unfoldable pub bit : Bool → ℕ
bit true = 1
bit false = 0

pub some-bit-injective : (a b : Bool) → some (bit a) ≡ some (bit b) → a ≡ b
unfolding bit
some-bit-injective a b h = ground arith

-- The incoming value of a PHI node for the block that control comes from.
unfoldable pub incoming_value : Regs → ℕ → List (Operand × ℕ) → Option ℕ
unfolding value_of
incoming_value s from [] = none
incoming_value s from ((v, l) ∷ rest) =
    if l == from then some (value_of s v) else incoming_value s from rest

-- An instruction whose meaning is not given stops the run.
unfoldable pub exec_inst : ℕ → Regs → Inst → Option Regs
unfolding value_of bit incoming_value
exec_inst from s (icmp r (int w) c) =
    some (write r (bit (compares (w - 1) c.predicate (value_of s c.op0) (value_of s c.op1))) s)
exec_inst from s (icmp r pointer c) = none
exec_inst from s (icmp r void c) = none
exec_inst from s (icmp r other c) = none
exec_inst from s (phi r incoming) = do v ← incoming_value s from incoming; some (write r v s)
exec_inst from s (opaque i) = none

unfoldable pub exec_insts : ℕ → Regs → List Inst → Option Regs
unfolding exec_inst
exec_insts from s [] = some s
exec_insts from s (i ∷ is) = do s' ← exec_inst from s i; exec_insts from s' is

unfoldable pub successor : Regs → Terminator → Option ℕ
unfolding value_of
successor s (br l) = some l
successor s (cond_br c t f) = some (if value_of s c == 0 then f else t)
successor s (other_exit i) = none

-- Executes `pending`, the rest of block `l`, which control entered from `from`, and goes on along
-- at most `fuel` edges to block `target`: the value that its first instruction, a PHI node, takes.
unfoldable pub phi_value : ℕ → Func → ℕ → ℕ → ℕ → List Inst → Regs → Option ℕ
unfolding successor exec_insts incoming_value
phi_value zero f target from l pending s = none
phi_value (suc fuel) f target from l pending s = do
  s' ← exec_insts from s pending
  b ← f.block l
  m ← successor s' b.terminator
  c ← f.block m
  elim (m == target) [
    | true ↦ elim c.insts [ phi r incoming ∷ is ↦ incoming_value s' l incoming | _ ↦ none ]
    | false ↦ phi_value fuel f target l m c.insts s'
  ]

-- The value of the PHI node that stands for a lowered comparison. The run starts behind the
-- instructions that stood before the comparison, in the register state `s`.
unfoldable pub lowered_value : Func → Position → ℕ → Regs → Option ℕ
lowered_value f p cont s = do
  b ← f.block p.label
  phi_value 3 f cont p.label p.label (drop (length p.before) b.insts) s
