-- ===== src/LowerICmp/Signed.antt =====
-- What the pass computes in place of an unsigned comparison.
use crab_llvm.Prelude.{
  arith, ℕ, ◌+◌, ◌-◌, ◌^◌, ◌<◌, ◌≡◌, ◌≢◌, ◌∙◌, ◌↔◌, ap, refl, sym, if◌then◌else◌, Bool-cases, Bool,
  true, false, Option, some, List, not, ltb, inl, inr,
}
use crab_llvm.CmpInst.{Predicate, Cmp, compares, signed_predicate, swap_operands}
use crab_llvm.Llvm.{Ty}
use crab_llvm.LowerICmp.{
  Operand, const_int, reg, Inst, Terminator, Func, Position, process_unsigned_icmp, lower_constant,
  normalize_cmp_inst, is_non_neg_int_cst, is_non_neg_int_cst-const_int,
}
use crab_llvm.LowerICmp.Run.{Regs, read, bit, some-bit-injective, value_of, lowered_value}
use crab_llvm.LowerICmp.Signs.{
  IsLowered, signed_same, signed_differs, signed_neg_pos, signed_pos_neg, unsigned_pos_neg,
}
use crab_llvm.LowerICmp.General.{lower_general-signed}
use crab_llvm.LowerICmp.Constant.{lower_constant_value}

-- Normalising keeps the result of a comparison, and leaves none of the predicates GT and GE.
pub normalize_cmp_inst-compares :
    (k : ℕ) (c : Cmp Operand) (s : Regs)
    → (compares k
          (normalize_cmp_inst c).predicate
          (value_of s (normalize_cmp_inst c).op0)
          (value_of s (normalize_cmp_inst c).op1)
        ≡ compares k c.predicate (value_of s c.op0) (value_of s c.op1))
      × ((normalize_cmp_inst c).predicate ≢ Predicate.ugt)
      × ((normalize_cmp_inst c).predicate ≢ Predicate.uge)
      × ((normalize_cmp_inst c).predicate ≢ Predicate.sgt)
      × ((normalize_cmp_inst c).predicate ≢ Predicate.sge)
unfolding normalize_cmp_inst compares swap_operands
normalize_cmp_inst-compares k c s = ground arith

-- A comparison that defines `result` in the block `label`, with the instructions around it.
pub record Site : Type 0 where
  pub label : ℕ
  pub result : ℕ
  pub width : ℕ
  pub predicate : Predicate
  pub before : List Inst
  pub after : List Inst
  pub ty : Ty
  pub terminator : Terminator

-- It stands in the function, and its predicate is one that the pass lowers.
pub record IsSite (f : Func) (site : Site) : Type 0 where
  pub known : site.label < f.next_label
  pub defined : site.result < f.next_reg
  pub lowered : IsLowered site.predicate

-- A register that the function already defines, other than the comparison itself.
abbrev pub IsOperand : Func → Site → ℕ → Type 0
IsOperand f site x = (x < f.next_reg) × (x ≢ site.result)

module _ (site : Site) where
  open site use {label, result, width, predicate, before, after, ty, terminator}

  abbrev pub position : Operand → Operand → Position
  position v0 v1 = record {
    label = label;
    before = before;
    ty = ty;
    cmp = record { predicate = predicate; op0 = v0; op1 = v1 };
    after = after;
    terminator = terminator;
  }

  abbrev pub signed_result : ℕ → ℕ → Bool
  signed_result a b = compares (width - 1) (signed_predicate predicate) a b

  abbrev pub unsigned_result : ℕ → ℕ → Bool
  unsigned_result a b = compares (width - 1) predicate a b

  -- The sign bit is clear.
  abbrev pub is_nonneg : ℕ → Bool
  is_nonneg a = ltb a (2 ^ (width - 1))

  -- A pattern of the comparison's width.
  abbrev pub IsPattern : ℕ → Type 0
  IsPattern a = a < 2 ^ (width - 1) + 2 ^ (width - 1)

-- The value that the lowered code gives for the comparison.
abbrev pub outcome : Func → Site → Operand → Operand → Regs → Option ℕ
outcome f site v0 v1 s =
    lowered_value (process_unsigned_icmp f (position site v0 v1) site.result site.width)
      (position site v0 v1) f.next_label s

module _ (f : Func) (site : Site) (valid : IsSite f site) where
  open site use {label, result, width, predicate, before, after, ty, terminator}

  -- Of two registers the lowered code computes the signed comparison.
  pub process_registers-signed :
      (x y : ℕ) (s : Regs)
      → IsOperand f site x
      → IsOperand f site y
      → outcome f site (reg x) (reg y) s ≡ some (bit (signed_result site (read s x) (read s y)))
  unfolding process_unsigned_icmp is_non_neg_int_cst
  process_registers-signed x y s hx hy =
      lower_general-signed f label result width x y before after ty predicate terminator s
        valid.lowered hx.0 hy.0 hx.1 hy.1 valid.defined valid.known

  -- Of two registers the lowered code computes the unsigned comparison exactly where their sign
  -- bits agree.
  pub process_registers-unsigned_iff :
      (x y : ℕ) (s : Regs)
      → IsOperand f site x
      → IsOperand f site y
      → IsPattern site (read s x)
      → IsPattern site (read s y)
      → (outcome f site (reg x) (reg y) s ≡ some (bit (unsigned_result site (read s x) (read s y))))
        ↔ (is_nonneg site (read s x) ≡ is_nonneg site (read s y))
  process_registers-unsigned_iff x y s hx hy rx ry =
      let e = process_registers-signed x y s hx hy in
      (
        λ h.
            signed_differs (width - 1) predicate _ _ valid.lowered
              (some-bit-injective _ _ (sym e ∙ h)),
        λ h.
            e
            ∙ ap (λ v. some (bit v)) (signed_same (width - 1) predicate _ _ valid.lowered rx ry h),
      )

  constant_case_second :
      (x d : ℕ)
      → process_unsigned_icmp f (position site (reg x) (const_int d)) result width
        ≡ lower_constant f (position site (reg x) (const_int d)) result width true
  unfolding process_unsigned_icmp
  constant_case_second x d =
      rw (is_non_neg_int_cst-const_int width d) (unfold is_non_neg_int_cst in refl)

  constant_case_first :
      (x d : ℕ)
      → process_unsigned_icmp f (position site (const_int d) (reg x)) result width
        ≡ lower_constant f (position site (const_int d) (reg x)) result width false
  unfolding process_unsigned_icmp
  constant_case_first x d =
      rw (is_non_neg_int_cst-const_int width d) (unfold is_non_neg_int_cst in refl)

  constant_second :
      (x d : ℕ) (s : Regs)
      → IsOperand f site x
      → outcome f site (reg x) (const_int d) s
        ≡ some (if is_nonneg site (read s x) then bit (signed_result site (read s x) d) else 1)
  unfolding value_of
  constant_second x d s hx = rw (constant_case_second x d) (
      lower_constant_value f label result width x d before after ty predicate terminator s hx.0 hx.1
        valid.defined valid.known true)

  constant_first :
      (x d : ℕ) (s : Regs)
      → IsOperand f site x
      → outcome f site (const_int d) (reg x) s
        ≡ some (if is_nonneg site (read s x) then bit (signed_result site d (read s x)) else 0)
  unfolding value_of
  constant_first x d s hx = rw (constant_case_first x d) (
      lower_constant_value f label result width x d before after ty predicate terminator s hx.0 hx.1
        valid.defined valid.known false)

  -- Of a register and a constant with a clear sign bit, in either order, the lowered code computes
  -- the signed comparison.
  pub process_constant-signed :
      (x d : ℕ) (s : Regs)
      → IsOperand f site x
      → is_nonneg site d ≡ true
      → (outcome f site (reg x) (const_int d) s ≡ some (bit (signed_result site (read s x) d)))
        × (outcome f site (const_int d) (reg x) s ≡ some (bit (signed_result site d (read s x))))
  unfolding bit
  process_constant-signed x d s hx hd = elim (Bool-cases (is_nonneg site (read s x))) [
    | inl px ↦ (constant_second x d s hx ∙ rw px, constant_first x d s hx ∙ rw px)
    | inr px ↦ (
      constant_second x d s hx
          ∙ rw (px, signed_neg_pos (width - 1) predicate _ _ valid.lowered px hd),
      constant_first x d s hx
          ∙ rw (px, signed_pos_neg (width - 1) predicate _ _ valid.lowered hd px),
    )
  ]

  -- Against a constant with a set sign bit, the test of the other operand alone decides: a register
  -- with a clear sign bit is reported as not below the constant, although it is below it.
  process_negative_constant :
      (x d : ℕ) (s : Regs)
      → IsOperand f site x
      → is_nonneg site d ≡ false
      → (outcome f site (reg x) (const_int d) s ≡ some (bit (not (is_nonneg site (read s x)))))
        × (is_nonneg site (read s x) ≡ true → unsigned_result site (read s x) d ≡ true)
  unfolding bit
  process_negative_constant x d s hx hd = elim (Bool-cases (is_nonneg site (read s x))) [
    | inl px ↦ (
      constant_second x d s hx
          ∙ rw (px, signed_pos_neg (width - 1) predicate _ _ valid.lowered px hd),
      λ _. unsigned_pos_neg (width - 1) predicate _ _ valid.lowered px hd,
    )
    | inr px ↦ (constant_second x d s hx ∙ rw px, λ h. cc)
  ]
