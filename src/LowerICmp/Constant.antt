-- ===== src/LowerICmp/Constant.antt =====
-- The case of one constant operand.
use crab_llvm.Prelude.{
  ℕ, ◌+◌, ◌-◌, ◌^◌, ◌<◌, ◌≡◌, ◌≢◌, ◌∙◌, refl, Bool, true, false, Option, some, List, [], ◌∷◌, ◌++◌,
  map, arith, ltb, Bool-cases, inl, inr, drop, length, drop-map-map, if◌then◌else◌,
}
use crab_llvm.CmpInst.{Predicate, Cmp, compares, signed_predicate}
use crab_llvm.Llvm.{Ty}
use crab_llvm.LowerICmp.{
  Operand, const_int, reg, Inst, phi, Terminator, br, cond_br, Func, Position, rename_inst,
  replace_inst, replace_terminator, replace_operand, add_blocks-new, add_blocks-first,
  add_blocks-old, update_self, mk_non_negative, signed_icmp, lower_constant,
}
use crab_llvm.LowerICmp.Run.{
  Regs, write, read, value_of, bit, incoming_value, phi_value, lowered_value,
}
use crab_llvm.LowerICmp.Steps.{edge_nonneg, arrive_signed, edge_neg, arrive_empty}
use crab_llvm.LowerICmp.General.{replace_operand-ne}

-- The blocks of the special case, from label `c` and register `b` on.
module _ (g : Func) (l c b w x d : ℕ) (cmp : Cmp Operand) (s : Regs) (is after : List Inst)
    (t : Terminator)
    (at_cur : g.block l
      ≡ some (record { insts = is; terminator = cond_br (reg b) (c + 1) (c + 2) }))
    (at_cont : g.block c
      ≡ some (record {
        insts = phi (b + 2) ((reg (b + 1), c + 1) ∷ (const_int d, c + 2) ∷ []) ∷ after;
        terminator = t;
      }))
    (at_1 : g.block (c + 1)
      ≡ some (record { insts = signed_icmp (b + 1) w cmp ∷ []; terminator = br c }))
    (at_2 : g.block (c + 2) ≡ some (record { insts = []; terminator = br c })) where
  abbrev nonneg : Bool
  nonneg = ltb (read s x) (2 ^ (w - 1))

  walk_nonneg :
      nonneg ≡ true
      → phi_value 3 g c l l (mk_non_negative b w (reg x) ∷ []) s
        ≡ some (
            bit (
              compares
                (w - 1)
                (signed_predicate cmp.predicate)
                (value_of (write b 1 s) cmp.op0)
                (value_of (write b 1 s) cmp.op1)))
  unfolding value_of incoming_value read
  walk_nonneg px =
      edge_nonneg 2 g c l l b w x _ _ is s _ at_cur px at_1 (ground arith)
      ∙ arrive_signed 1 g l (c + 1) (b + 1) w c _ _ _ _ (b + 2) _ after at_1 at_cont refl
      ∙ ground arith

  walk_neg : nonneg ≡ false → phi_value 3 g c l l (mk_non_negative b w (reg x) ∷ []) s ≡ some d
  unfolding value_of incoming_value
  walk_neg px =
      edge_neg 2 g c l l b w x _ _ is s _ at_cur px at_2 (ground arith)
      ∙ arrive_empty 1 g l (c + 2) c _ _ (b + 2) _ after at_2 at_cont refl
      ∙ ground arith

module _ (f : Func) (l r w x d : ℕ) (before after : List Inst) (ty : Ty) (pred : Predicate)
    (t : Terminator) (s : Regs) (x-lt : x < f.next_reg) (x-ne : x ≢ r) (r-lt : r < f.next_reg)
    (l-lt : l < f.next_label) where
  abbrev c : ℕ
  c = f.next_label

  abbrev b : ℕ
  b = f.next_reg

  -- `x` is the first operand or the second.
  abbrev cmp_of : Bool → Cmp Operand
  cmp_of true = record { predicate = pred; op0 = reg x; op1 = const_int d }
  cmp_of false = record { predicate = pred; op0 = const_int d; op1 = reg x }

  abbrev here : Bool → Position
  here second = record {
    label = l;
    before = before;
    ty = ty;
    cmp = cmp_of second;
    after = after;
    terminator = t;
  }

  abbrev g : Bool → Func
  g second = lower_constant f (here second) r w second

  abbrev other_value : Bool → ℕ
  other_value true = 1
  other_value false = 0

  keep : (i : ℕ) → replace_operand r (b + 2) (reg (b + i)) ≡ reg (b + i)
  keep i = replace_operand-ne r (b + 2) (b + i) (omega arith)

  keep_first : replace_operand r (b + 2) (reg b) ≡ reg b
  keep_first = replace_operand-ne r (b + 2) b (omega arith)

  keep_x : replace_operand r (b + 2) (reg x) ≡ reg x
  keep_x = replace_operand-ne r (b + 2) x x-ne

  at_1 :
      (second : Bool)
      → (g second).block (c + 1)
        ≡ some (record { insts = signed_icmp (b + 1) w (cmp_of second) ∷ []; terminator = br c })
  unfolding lower_constant replace_operand
  at_1 true = rw add_blocks-new (simp keep_x)
  at_1 false = rw add_blocks-new (simp keep_x)

  at_2 :
      (second : Bool) → (g second).block (c + 2) ≡ some (record { insts = []; terminator = br c })
  unfolding lower_constant
  at_2 second = rw add_blocks-new

  at_cont :
      (second : Bool)
      → (g second).block c
        ≡ some (record {
          insts =
              phi (b + 2) ((reg (b + 1), c + 1) ∷ (const_int (other_value second), c + 2) ∷ [])
              ∷ map (replace_inst r (b + 2)) (map (rename_inst l c) after);
          terminator = replace_terminator r (b + 2) t;
        })
  unfolding lower_constant
  at_cont true = rw add_blocks-first (simp keep)
  at_cont false = rw add_blocks-first (simp keep)

  abbrev cur_insts : List Inst
  cur_insts =
      map (replace_inst r (b + 2))
        (map (rename_inst l c) before ++ mk_non_negative b w (reg x) ∷ [])

  at_cur :
      (second : Bool)
      → (g second).block l
        ≡ some (record { insts = cur_insts; terminator = cond_br (reg b) (c + 1) (c + 2) })
  unfolding lower_constant
  at_cur true = rw (add_blocks-old, l-lt, update_self) (simp keep_first)
  at_cur false = rw (add_blocks-old, l-lt, update_self) (simp keep_first)

  pending : drop (length before) cur_insts ≡ mk_non_negative b w (reg x) ∷ []
  unfolding mk_non_negative replace_inst
  pending =
      drop-map-map (rename_inst l c) (replace_inst r (b + 2)) before
        (mk_non_negative b w (reg x) ∷ [])
      ∙ simp keep_x

  abbrev compared : Bool → Regs → Option ℕ
  compared second s' = some (
      bit (
        compares (w - 1) (signed_predicate pred) (value_of s' (cmp_of second).op0)
          (value_of s' (cmp_of second).op1)))

  compared-write : (second : Bool) → compared second (write b 1 s) ≡ compared second s
  unfolding value_of read
  compared-write true = ground arith
  compared-write false = ground arith

  step_nonneg :
      (second : Bool)
      → ltb (read s x) (2 ^ (w - 1)) ≡ true
      → phi_value 3 (g second) c l l (mk_non_negative b w (reg x) ∷ []) s
        ≡ compared second (write b 1 s)
  step_nonneg true px =
      walk_nonneg (g true) l c b w x 1 (cmp_of true) s cur_insts _ _ (at_cur true) (at_cont true)
        (at_1 true) (at_2 true) px
  step_nonneg false px =
      walk_nonneg (g false) l c b w x 0 (cmp_of false) s cur_insts _ _ (at_cur false)
        (at_cont false) (at_1 false) (at_2 false) px

  -- The sign of the operand that is not constant decides between the signed comparison and the
  -- constant of the other edge.
  pub lower_constant_value :
      (second : Bool)
      → lowered_value (g second) (here second) c s
        ≡ some (
            if ltb (read s x) (2 ^ (w - 1))
            then bit (
                compares
                  (w - 1)
                  (signed_predicate pred)
                  (value_of s (cmp_of second).op0)
                  (value_of s (cmp_of second).op1))
            else other_value second)
  unfolding lowered_value
  lower_constant_value second = elim (Bool-cases (ltb (read s x) (2 ^ (w - 1)))) [
    | inl px ↦ rw (at_cur second, pending, px) (step_nonneg second px ∙ compared-write second)
    | inr px ↦
        rw (at_cur second, pending, px)
          (walk_neg (g second) l c b w x (other_value second) (cmp_of second) s cur_insts _ _
            (at_cur second) (at_cont second) (at_1 second) (at_2 second) px)
  ]
