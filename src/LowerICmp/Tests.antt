-- ===== src/LowerICmp/Tests.antt =====
-- The pass on a function of one block: `%2 = icmp ult i8 %0, %1`.
use crab_llvm.Prelude.{
  ◌≡◌, ◌≢◌, ◌↔◌, refl, some, none, [], ◌∷◌, arith, inl, true, if◌then◌else◌, ◌==◌,
}
use crab_llvm.CmpInst.{Predicate, Cmp, compares}
use crab_llvm.Llvm.{int}
use crab_llvm.LowerICmp.{
  Operand, const_int, reg, icmp, other_exit, Func, normalize_cmp_inst, run_on_function,
  process_unsigned_icmp, is_non_neg_int_cst, lower_general, add_blocks, update,
}
use crab_llvm.LowerICmp.Run.{Regs, unset, write, read, bit, value_of, lowered_value, phi_value}
use crab_llvm.LowerICmp.Signed.{
  Site, IsSite, outcome, signed_result, unsigned_result, is_nonneg, process_registers-signed,
  process_registers-unsigned_iff, process_constant-signed, normalize_cmp_inst-compares,
}

abbrev less : Cmp Operand
less = record { predicate = Predicate.ult; op0 = reg 0; op1 = reg 1 }

abbrev one_block : Func
one_block = record {
  layout = 0 ∷ [];
  block = λ l.
      if l == 0
      then some (record { insts = icmp 2 (int 8) less ∷ []; terminator = other_exit 0 })
      else none;
  next_label = 1;
  next_reg = 3;
}

abbrev site : Site
site = record {
  label = 0;
  result = 2;
  width = 8;
  predicate = Predicate.ult;
  before = [];
  after = [];
  ty = int 8;
  terminator = other_exit 0;
}

site-IsSite : IsSite one_block site
site-IsSite = record { known = omega arith; defined = omega arith; lowered = inl refl }

-- %0 is 5 and %1 is 200, that is -56.
abbrev regs : Regs
regs = write 0 5 (write 1 200 unset)

process_registers-signed_example :
    outcome one_block site (reg 0) (reg 1) regs
    ≡ some (bit (signed_result site (read regs 0) (read regs 1)))
process_registers-signed_example =
    process_registers-signed one_block site site-IsSite 0 1 regs (omega arith) (omega arith)

process_registers-unsigned_iff_example :
    (outcome one_block site (reg 0) (reg 1) regs
      ≡ some (bit (unsigned_result site (read regs 0) (read regs 1))))
    ↔ (is_nonneg site (read regs 0) ≡ is_nonneg site (read regs 1))
unfolding read
process_registers-unsigned_iff_example =
    process_registers-unsigned_iff one_block site site-IsSite 0 1 regs (omega arith) (omega arith)
      (omega arith) (omega arith)

process_constant-signed_example :
    (outcome one_block site (reg 1) (const_int 7) regs
      ≡ some (bit (signed_result site (read regs 1) 7)))
    × (outcome one_block site (const_int 7) (reg 1) regs
        ≡ some (bit (signed_result site 7 (read regs 1))))
process_constant-signed_example =
    process_constant-signed one_block site site-IsSite 1 7 regs (omega arith) refl

normalize_cmp_inst-compares_example :
    (compares 7
        (normalize_cmp_inst less).predicate
        (value_of regs (normalize_cmp_inst less).op0)
        (value_of regs (normalize_cmp_inst less).op1)
      ≡ compares 7 less.predicate (value_of regs less.op0) (value_of regs less.op1))
    × ((normalize_cmp_inst less).predicate ≢ Predicate.ugt)
    × ((normalize_cmp_inst less).predicate ≢ Predicate.uge)
    × ((normalize_cmp_inst less).predicate ≢ Predicate.sgt)
    × ((normalize_cmp_inst less).predicate ≢ Predicate.sge)
normalize_cmp_inst-compares_example = normalize_cmp_inst-compares 7 less regs

-- The whole pass creates five blocks, and 5 < 200 comes out false.
whole_pass : (run_on_function one_block).1 ≡ true
unfolding run_on_function
whole_pass = refl

lowered_run : outcome one_block site (reg 0) (reg 1) regs ≡ some 0
unfolding lowered_value phi_value process_unsigned_icmp is_non_neg_int_cst lower_general add_blocks
    update compares
lowered_run = refl
