-- ===== src/LowerICmp/General.antt =====
-- The general case of the pass: both operands are registers.
use crab_llvm.Prelude.{
  ℕ, ◌+◌, ◌-◌, ◌<◌, ◌≡◌, ◌≢◌, ◌∙◌, some, List, [], ◌∷◌, ◌++◌, map, arith, drop, length,
  drop-map-map,
}
use crab_llvm.CmpInst.{Predicate, compares, signed_predicate}
use crab_llvm.Llvm.{Ty}
use crab_llvm.LowerICmp.{
  const_int, reg, Inst, phi, Terminator, br, cond_br, Func, Position, rename_inst, replace_inst,
  replace_terminator, replace_operand, add_blocks-new, add_blocks-first, add_blocks-old,
  update_self, replace_block, mk_non_negative, signed_icmp, lower_general,
}
use crab_llvm.LowerICmp.Run.{Regs, read, bit, lowered_value}
use crab_llvm.LowerICmp.Signs.{IsLowered}
use crab_llvm.LowerICmp.Walk.{walk}

-- replaceAllUsesWith leaves the registers alone that are not replaced.
pub replace_operand-ne : (r new q : ℕ) → q ≢ r → replace_operand r new (reg q) ≡ reg q
unfolding replace_operand
replace_operand-ne r new q h = ground arith

module _ (f : Func) (l r w x y : ℕ) (before after : List Inst) (ty : Ty) (pred : Predicate)
    (t : Terminator) (s : Regs) (lowered : IsLowered pred) (x-lt : x < f.next_reg)
    (y-lt : y < f.next_reg) (x-ne : x ≢ r) (y-ne : y ≢ r) (r-lt : r < f.next_reg)
    (l-lt : l < f.next_label) where
  abbrev here : Position
  here = record {
    label = l;
    before = before;
    ty = ty;
    cmp = record { predicate = pred; op0 = reg x; op1 = reg y };
    after = after;
    terminator = t;
  }

  abbrev c : ℕ
  c = f.next_label

  abbrev b : ℕ
  b = f.next_reg

  abbrev g : Func
  g = lower_general f here r w

  keep : (i : ℕ) → replace_operand r (b + 5) (reg (b + i)) ≡ reg (b + i)
  keep i = replace_operand-ne r (b + 5) (b + i) (omega arith)

  keep_first : replace_operand r (b + 5) (reg b) ≡ reg b
  keep_first = replace_operand-ne r (b + 5) b (omega arith)

  keep_x : replace_operand r (b + 5) (reg x) ≡ reg x
  keep_x = replace_operand-ne r (b + 5) x x-ne

  keep_y : replace_operand r (b + 5) (reg y) ≡ reg y
  keep_y = replace_operand-ne r (b + 5) y y-ne

  at_1 :
      g.block (c + 1)
      ≡ some (record {
        insts = mk_non_negative (b + 1) w (reg y) ∷ [];
        terminator = cond_br (reg (b + 1)) (c + 3) c;
      })
  unfolding lower_general replace_block
  at_1 = rw add_blocks-new (simp (keep, keep_y))

  at_2 :
      g.block (c + 2)
      ≡ some (record {
        insts = mk_non_negative (b + 2) w (reg y) ∷ [];
        terminator = cond_br (reg (b + 2)) c (c + 4);
      })
  unfolding lower_general
  at_2 = rw add_blocks-new (simp (keep, keep_y))

  at_3 :
      g.block (c + 3)
      ≡ some (record {
        insts = signed_icmp (b + 3) w (record { predicate = pred; op0 = reg x; op1 = reg y }) ∷ [];
        terminator = br c;
      })
  unfolding lower_general
  at_3 = rw add_blocks-new (simp (keep_x, keep_y))

  at_4 :
      g.block (c + 4)
      ≡ some (record {
        insts = signed_icmp (b + 4) w (record { predicate = pred; op0 = reg x; op1 = reg y }) ∷ [];
        terminator = br c;
      })
  unfolding lower_general
  at_4 = rw add_blocks-new (simp (keep_x, keep_y))

  at_cont :
      g.block c
      ≡ some (record {
        insts =
            phi (b + 5) (
              (const_int 0, c + 1)
              ∷ (const_int 1, c + 2)
              ∷ (reg (b + 3), c + 3)
              ∷ (reg (b + 4), c + 4)
              ∷ [])
            ∷ map (replace_inst r (b + 5)) (map (rename_inst l c) after);
        terminator = replace_terminator r (b + 5) t;
      })
  unfolding lower_general
  at_cont = rw add_blocks-first (simp keep)

  abbrev cur_insts : List Inst
  cur_insts =
      map (replace_inst r (b + 5))
        (map (rename_inst l c) before ++ mk_non_negative b w (reg x) ∷ [])

  at_cur :
      g.block l ≡ some (record { insts = cur_insts; terminator = cond_br (reg b) (c + 1) (c + 2) })
  unfolding lower_general
  at_cur = rw (add_blocks-old, l-lt, update_self) (simp keep_first)

  pending : drop (length before) cur_insts ≡ mk_non_negative b w (reg x) ∷ []
  unfolding mk_non_negative replace_inst
  pending =
      drop-map-map (rename_inst l c) (replace_inst r (b + 5)) before
        (mk_non_negative b w (reg x) ∷ [])
      ∙ simp keep_x

  pub lower_general-signed :
      lowered_value g here c s
      ≡ some (bit (compares (w - 1) (signed_predicate pred) (read s x) (read s y)))
  unfolding lowered_value
  lower_general-signed =
      rw (at_cur, pending)
        (walk g l c b w x y pred s cur_insts _ _ lowered x-lt y-lt at_cur at_cont at_1 at_2 at_3
          at_4)
