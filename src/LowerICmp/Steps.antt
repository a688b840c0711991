-- ===== src/LowerICmp/Steps.antt =====
-- One edge of a run through lowered code.
use crab_llvm.Prelude.{
  ℕ, suc, ◌-◌, ◌^◌, ◌≡◌, Bool, true, false, some, List, [], ◌∷◌, arith, ltb, ◌==◌, ◌∙◌, refl,
  ==_refl, if◌then◌else◌,
}
use crab_llvm.CmpInst.{Cmp, compares, signed_predicate}
use crab_llvm.LowerICmp.{
  Operand, reg, Inst, phi, Func, Block, br, cond_br, mk_non_negative, signed_icmp,
}
use crab_llvm.LowerICmp.Signs.{sge_zero}
use crab_llvm.LowerICmp.Run.{
  Regs, write, read, value_of, bit, exec_insts, successor, incoming_value, phi_value,
}

pub exec-mk_non_negative :
    (from b w : ℕ) (v : Operand) (s : Regs)
    → exec_insts from s (mk_non_negative b w v ∷ [])
      ≡ some (write b (bit (ltb (value_of s v) (2 ^ (w - 1)))) s)
unfolding exec_insts mk_non_negative
exec-mk_non_negative from b w v s = rw (sge_zero (w - 1) (value_of s v))

pub exec-signed_icmp :
    (from b w : ℕ) (c : Cmp Operand) (s : Regs)
    → exec_insts from s (signed_icmp b w c ∷ [])
      ≡ some (
          write b
            (bit (
              compares
                (w - 1)
                (signed_predicate c.predicate)
                (value_of s c.op0)
                (value_of s c.op1)))
            s)
unfolding exec_insts signed_icmp
exec-signed_icmp from b w c s = ground arith

pub successor-test :
    (b : ℕ) (test : Bool) (s : Regs) (t e : ℕ)
    → successor (write b (bit test) s) (cond_br (reg b) t e) ≡ some (if test then t else e)
unfolding successor bit
successor-test b true s t e = ground arith
successor-test b false s t e = ground arith

module _ (fuel : ℕ) (g : Func) (target from l : ℕ) (pending : List Inst) (s s' : Regs) (b c : Block)
    (m : ℕ) (executed : exec_insts from s pending ≡ some s') (at_block : g.block l ≡ some b)
    (next : successor s' b.terminator ≡ some m) (at_next : g.block m ≡ some c) where
  pub phi_value-step :
      (m == target) ≡ false
      → phi_value (suc fuel) g target from l pending s ≡ phi_value fuel g target l m c.insts s'
  unfolding phi_value
  phi_value-step e = ground arith

  pub phi_value-arrive :
      (r : ℕ) (incoming : List (Operand × ℕ)) (is : List Inst)
      → (m == target) ≡ true
      → c.insts ≡ phi r incoming ∷ is
      → phi_value (suc fuel) g target from l pending s ≡ incoming_value s' l incoming
  unfolding phi_value
  phi_value-arrive r incoming is e h = ground arith

-- The edges out of a block that ends in a test of a sign bit.
module _ (fuel : ℕ) (g : Func) (target from l b w x t e : ℕ) (is : List Inst) (s : Regs) (c : Block)
    (at_block : g.block l ≡ some (record { insts = is; terminator = cond_br (reg b) t e })) where
  pub edge_nonneg :
      ltb (read s x) (2 ^ (w - 1)) ≡ true
      → g.block t ≡ some c
      → (t == target) ≡ false
      → phi_value (suc fuel) g target from l (mk_non_negative b w (reg x) ∷ []) s
        ≡ phi_value fuel g target l t c.insts (write b 1 s)
  unfolding value_of bit
  edge_nonneg h at_t far =
      phi_value-step fuel g target from l _ s (write b 1 s) _ c t
        (exec-mk_non_negative from b w (reg x) s ∙ rw h) at_block (successor-test b true s t e) at_t
        far

  pub edge_neg :
      ltb (read s x) (2 ^ (w - 1)) ≡ false
      → g.block e ≡ some c
      → (e == target) ≡ false
      → phi_value (suc fuel) g target from l (mk_non_negative b w (reg x) ∷ []) s
        ≡ phi_value fuel g target l e c.insts (write b 0 s)
  unfolding value_of bit
  edge_neg h at_e far =
      phi_value-step fuel g target from l _ s (write b 0 s) _ c e
        (exec-mk_non_negative from b w (reg x) s ∙ rw h) at_block (successor-test b false s t e)
        at_e far

  pub arrive_nonneg :
      (r : ℕ) (incoming : List (Operand × ℕ)) (rest : List Inst)
      → ltb (read s x) (2 ^ (w - 1)) ≡ true
      → g.block t ≡ some c
      → (t == target) ≡ true
      → c.insts ≡ phi r incoming ∷ rest
      → phi_value (suc fuel) g target from l (mk_non_negative b w (reg x) ∷ []) s
        ≡ incoming_value (write b 1 s) l incoming
  unfolding value_of bit
  arrive_nonneg r incoming rest h at_t =
      phi_value-arrive fuel g target from l _ s (write b 1 s) _ c t
        (exec-mk_non_negative from b w (reg x) s ∙ rw h) at_block (successor-test b true s t e) at_t
        r incoming rest

  pub arrive_neg :
      (r : ℕ) (incoming : List (Operand × ℕ)) (rest : List Inst)
      → ltb (read s x) (2 ^ (w - 1)) ≡ false
      → g.block e ≡ some c
      → (e == target) ≡ true
      → c.insts ≡ phi r incoming ∷ rest
      → phi_value (suc fuel) g target from l (mk_non_negative b w (reg x) ∷ []) s
        ≡ incoming_value (write b 0 s) l incoming
  unfolding value_of bit
  arrive_neg r incoming rest h at_e =
      phi_value-arrive fuel g target from l _ s (write b 0 s) _ c e
        (exec-mk_non_negative from b w (reg x) s ∙ rw h) at_block (successor-test b false s t e)
        at_e r incoming rest

-- The edge out of a block that holds the signed comparison alone.
pub arrive_signed :
    (fuel : ℕ) (g : Func) (from l b w m : ℕ) (cmp : Cmp Operand) (is : List Inst) (s : Regs)
    (c : Block) (r : ℕ) (incoming : List (Operand × ℕ)) (rest : List Inst)
    → g.block l ≡ some (record { insts = is; terminator = br m })
    → g.block m ≡ some c
    → c.insts ≡ phi r incoming ∷ rest
    → phi_value (suc fuel) g m from l (signed_icmp b w cmp ∷ []) s
      ≡ incoming_value
          (write b
            (bit (
              compares
                (w - 1)
                (signed_predicate cmp.predicate)
                (value_of s cmp.op0)
                (value_of s cmp.op1)))
            s)
          l
          incoming
unfolding successor
arrive_signed fuel g from l b w m cmp is s c r incoming rest at_l at_m =
    phi_value-arrive fuel g m from l _ s _ _ c m (exec-signed_icmp from b w cmp s) at_l refl at_m r
      incoming rest (==_refl m)

-- The edge out of an empty block.
pub arrive_empty :
    (fuel : ℕ) (g : Func) (from l m : ℕ) (s : Regs) (c : Block) (r : ℕ)
    (incoming : List (Operand × ℕ)) (rest : List Inst)
    → g.block l ≡ some (record { insts = []; terminator = br m })
    → g.block m ≡ some c
    → c.insts ≡ phi r incoming ∷ rest
    → phi_value (suc fuel) g m from l [] s ≡ incoming_value s l incoming
unfolding successor exec_insts
arrive_empty fuel g from l m s c r incoming rest at_l at_m =
    phi_value-arrive fuel g m from l [] s s _ c m refl at_l refl at_m r incoming rest (==_refl m)
