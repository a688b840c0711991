-- ===== src/LowerICmp/Pass.antt =====
-- The pass: LowerUnsignedICmp.
use mathlib.Core.Option
use crab_llvm.Prelude.{
  ℕ, ◌+◌, ◌-◌, ◌^◌, Bool, true, false, ◌&&◌, ◌||◌, Option, none, some, List, [], ◌∷◌, ◌++◌, map,
  ltb, leb, ◌==◌, if◌then◌else◌, ◌≡◌, arith, length,
}
use crab_llvm.CmpInst.{Predicate, Cmp, swap_operands, signed_predicate}
use crab_llvm.Llvm.{int, pointer, other, void}
use crab_llvm.LowerICmp.Code.{
  Operand, const_int, reg, Inst, icmp, phi, opaque, br, cond_br, Block, Func, update, add_blocks,
  rename_inst, rename_block, replace_block, Position, find_icmp,
}

-- A bool that is compared with 0 is promoted to int.
promote : Bool → ℕ
promote true = 1
promote false = 0

-- APInt::isNonNegative: the sign bit of a pattern of width w is clear.
unfoldable pub is_non_negative : ℕ → ℕ → Bool
is_non_negative w c = ltb c (2 ^ (w - 1))

unfoldable pub is_non_neg_int_cst : ℕ → Operand → Bool
unfolding promote is_non_negative
is_non_neg_int_cst w (const_int c) = leb 0 (promote (is_non_negative w c))
is_non_neg_int_cst w (reg r) = false

pub is_non_neg_int_cst-const_int : (w c : ℕ) → is_non_neg_int_cst w (const_int c) ≡ true
unfolding is_non_neg_int_cst
is_non_neg_int_cst-const_int w c = ground arith

unfoldable pub normalize_cmp_inst : Cmp Operand → Cmp Operand
unfolding swap_operands
normalize_cmp_inst c = elim c.predicate [
  | Predicate.ugt ↦ swap_operands c
  | Predicate.sgt ↦ swap_operands c
  | Predicate.uge ↦ swap_operands c
  | Predicate.sge ↦ swap_operands c
  | _ ↦ c
]

-- `%r = icmp sge v, 0`
unfoldable pub mk_non_negative : ℕ → ℕ → Operand → Inst
mk_non_negative r w v =
    icmp r (int w) (record { predicate = Predicate.sge; op0 = v; op1 = const_int 0 })

abbrev pub true_cst : Operand
true_cst = const_int 1

abbrev pub false_cst : Operand
false_cst = const_int 0

-- The comparison that replaces the unsigned one.
unfoldable pub signed_icmp : ℕ → ℕ → Cmp Operand → Inst
signed_icmp r w c = icmp r (int w) (record c { predicate = signed_predicate c.predicate })

insert_label : ℕ → List ℕ → List ℕ → List ℕ
insert_label l new [] = []
insert_label l new (m ∷ ms) = if m == l then m ∷ (new ++ ms) else m ∷ insert_label l new ms

-- cur->splitBasicBlock(CI): the comparison and all behind it move to a new block.
unfoldable pub split_block : Func → Position → ℕ → Func
unfolding insert_label rename_block
split_block f p r =
    let cont = f.next_label in
    let renamed = λ (l : ℕ). Option.map (rename_block p.label cont) (f.block l) in
    let rest = icmp r p.ty p.cmp ∷ map (rename_inst p.label cont) p.after in
    let cur_block : Block = record {
      insts = map (rename_inst p.label cont) p.before;
      terminator = br cont;
    } in
    record {
      layout = insert_label p.label (cont ∷ []) f.layout;
      block =
          add_blocks cont (record { insts = rest; terminator = p.terminator } ∷ [])
            (update renamed p.label cur_block);
      next_label = cont + 1;
      next_reg = f.next_reg;
    }

-- One operand is a constant: blocks `tt` and `ff`, and a PHI node in place of the comparison.
unfoldable pub lower_constant : Func → Position → ℕ → ℕ → Bool → Func
unfolding mk_non_negative signed_icmp insert_label rename_block replace_block
lower_constant f p r w is_nonneg_op2 =
    let cur = p.label in
    let cont = f.next_label in
    let tt_block = cont + 1 in
    let ff_block = cont + 2 in
    let nonneg = f.next_reg in
    let new_ci = nonneg + 1 in
    let phi_reg = nonneg + 2 in
    let tested = if is_nonneg_op2 then p.cmp.op0 else p.cmp.op1 in
    let otherwise = if is_nonneg_op2 then true_cst else false_cst in
    let renamed = λ (l : ℕ). Option.map (rename_block cur cont) (f.block l) in
    let cur_block : Block = record {
      insts = map (rename_inst cur cont) p.before ++ (mk_non_negative nonneg w tested ∷ []);
      terminator = cond_br (reg nonneg) tt_block ff_block;
    } in
    let cont_block : Block = record {
      insts =
          phi phi_reg ((reg new_ci, tt_block) ∷ (otherwise, ff_block) ∷ [])
          ∷ map (rename_inst cur cont) p.after;
      terminator = p.terminator;
    } in
    let then_block : Block = record {
      insts = signed_icmp new_ci w p.cmp ∷ [];
      terminator = br cont;
    } in
    let else_block : Block = record { insts = []; terminator = br cont } in
    let table =
      add_blocks cont (cont_block ∷ then_block ∷ else_block ∷ []) (update renamed cur cur_block) in
    record {
      layout = insert_label cur (tt_block ∷ ff_block ∷ cont ∷ []) f.layout;
      block = λ l. Option.map (replace_block r phi_reg) (table l);
      next_label = cont + 3;
      next_reg = nonneg + 3;
    }

-- No operand is a constant: blocks `bb1` to `bb4`.
unfoldable pub lower_general : Func → Position → ℕ → ℕ → Func
unfolding mk_non_negative signed_icmp insert_label rename_block replace_block
lower_general f p r w =
    let cur = p.label in
    let cont = f.next_label in
    let bb1 = cont + 1 in
    let bb2 = cont + 2 in
    let bb3 = cont + 3 in
    let bb4 = cont + 4 in
    let b1 = f.next_reg in
    let b2 = b1 + 1 in
    let b3 = b1 + 2 in
    let b4 = b1 + 3 in
    let b5 = b1 + 4 in
    let phi_reg = b1 + 5 in
    let renamed = λ (l : ℕ). Option.map (rename_block cur cont) (f.block l) in
    let cur_block : Block = record {
      insts = map (rename_inst cur cont) p.before ++ (mk_non_negative b1 w p.cmp.op0 ∷ []);
      terminator = cond_br (reg b1) bb1 bb2;
    } in
    let cont_block : Block = record {
      insts =
          phi phi_reg ((false_cst, bb1) ∷ (true_cst, bb2) ∷ (reg b4, bb3) ∷ (reg b5, bb4) ∷ [])
          ∷ map (rename_inst cur cont) p.after;
      terminator = p.terminator;
    } in
    let block1 : Block = record {
      insts = mk_non_negative b2 w p.cmp.op1 ∷ [];
      terminator = cond_br (reg b2) bb3 cont;
    } in
    let block2 : Block = record {
      insts = mk_non_negative b3 w p.cmp.op1 ∷ [];
      terminator = cond_br (reg b3) cont bb4;
    } in
    let block3 : Block = record { insts = signed_icmp b4 w p.cmp ∷ []; terminator = br cont } in
    let block4 : Block = record { insts = signed_icmp b5 w p.cmp ∷ []; terminator = br cont } in
    let table =
      add_blocks cont (cont_block ∷ block1 ∷ block2 ∷ block3 ∷ block4 ∷ [])
        (update renamed cur cur_block) in
    record {
      layout = insert_label cur (bb1 ∷ bb2 ∷ bb3 ∷ bb4 ∷ cont ∷ []) f.layout;
      block = λ l. Option.map (replace_block r phi_reg) (table l);
      next_label = cont + 5;
      next_reg = b1 + 6;
    }

-- processUnsignedICmp, for the comparison at `p` that defines `r`.
unfoldable pub process_unsigned_icmp : Func → Position → ℕ → ℕ → Func
process_unsigned_icmp f p r w =
    let nonneg1 = is_non_neg_int_cst w p.cmp.op0 in
    let nonneg2 = is_non_neg_int_cst w p.cmp.op1 in
    if nonneg2 && nonneg1
    then split_block f p r
    else if nonneg2 || nonneg1
    then lower_constant f p r w nonneg2
    else lower_general f p r w

normalize_inst : Inst → Inst
unfolding normalize_cmp_inst
normalize_inst (icmp r (int w) c) = icmp r (int w) (normalize_cmp_inst c)
normalize_inst i = i

normalize_block : Block → Block
unfolding normalize_inst
normalize_block b = record b { insts = map normalize_inst b.insts }

is_unsigned_lower : Predicate → Bool
is_unsigned_lower Predicate.ult = true
is_unsigned_lower Predicate.ule = true
is_unsigned_lower _ = false

-- The registers that the comparisons of a block on the worklist define.
collect : List Inst → List ℕ
unfolding is_unsigned_lower
collect [] = []
collect (icmp r (int w) c ∷ rest) =
    if is_unsigned_lower c.predicate then r ∷ collect rest else collect rest
collect (icmp r pointer c ∷ rest) = collect rest
collect (icmp r void c ∷ rest) = collect rest
collect (icmp r other c ∷ rest) = collect rest
collect (phi r incoming ∷ rest) = collect rest
collect (opaque i ∷ rest) = collect rest

worklist_of : (ℕ → Option Block) → List ℕ → List ℕ
unfolding collect
worklist_of block [] = []
worklist_of block (l ∷ ls) =
    Option.get_or (Option.map (λ b. collect b.insts) (block l)) [] ++ worklist_of block ls

-- worklist.back(), pop_back(): the list is kept last entry first.
drain : List ℕ → Func → Func
unfolding find_icmp process_unsigned_icmp
drain [] f = f
drain (r ∷ rest) f = drain rest (elim (find_icmp r f) [
  | none ↦ f
  | some p ↦ elim p.ty [ int w ↦ process_unsigned_icmp f p r w | _ ↦ f ]
])

reverse_onto : List ℕ → List ℕ → List ℕ
reverse_onto [] acc = acc
reverse_onto (x ∷ xs) acc = reverse_onto xs (x ∷ acc)

-- runOnFunction: the new function, and whether the pass reports a change.
unfoldable pub run_on_function : Func → Func × Bool
unfolding normalize_block worklist_of drain reverse_onto
run_on_function f =
    let normalized = record f { block = λ l. Option.map normalize_block (f.block l) } in
    let worklist = worklist_of normalized.block f.layout in
    (drain (reverse_onto worklist []) normalized, ltb 0 (length worklist))
