-- ===== src/LowerICmp/Walk.antt =====
-- A run through the blocks that the general case of the pass creates.
use crab_llvm.Prelude.{
  ℕ, ◌+◌, ◌-◌, ◌^◌, ◌<◌, ◌≡◌, ◌∙◌, refl, Bool, true, false, Option, some, List, [], ◌∷◌, arith, ltb,
  Bool-cases, ==_refl, inl, inr,
}
use crab_llvm.CmpInst.{Predicate, compares, signed_predicate}
use crab_llvm.LowerICmp.{
  const_int, reg, Inst, phi, Terminator, br, cond_br, Func, mk_non_negative, signed_icmp,
}
use crab_llvm.LowerICmp.Run.{Regs, write, read, value_of, bit, incoming_value, phi_value}
use crab_llvm.LowerICmp.Steps.{edge_nonneg, edge_neg, arrive_nonneg, arrive_neg, arrive_signed}
use crab_llvm.LowerICmp.Signs.{IsLowered, signed_neg_pos, signed_pos_neg}

-- The blocks that the general case creates, from label `c` and register `b` on.
module _ (g : Func) (l c b w x y : ℕ) (pred : Predicate) (s : Regs) (is after : List Inst)
    (t : Terminator) (lowered : IsLowered pred) (x-lt : x < b) (y-lt : y < b)
    (at_cur : g.block l
      ≡ some (record { insts = is; terminator = cond_br (reg b) (c + 1) (c + 2) }))
    (at_cont : g.block c
      ≡ some (record {
        insts =
            phi (b + 5) (
              (const_int 0, c + 1)
              ∷ (const_int 1, c + 2)
              ∷ (reg (b + 3), c + 3)
              ∷ (reg (b + 4), c + 4)
              ∷ [])
            ∷ after;
        terminator = t;
      }))
    (at_1 : g.block (c + 1)
      ≡ some (record {
        insts = mk_non_negative (b + 1) w (reg y) ∷ [];
        terminator = cond_br (reg (b + 1)) (c + 3) c;
      }))
    (at_2 : g.block (c + 2)
      ≡ some (record {
        insts = mk_non_negative (b + 2) w (reg y) ∷ [];
        terminator = cond_br (reg (b + 2)) c (c + 4);
      }))
    (at_3 : g.block (c + 3)
      ≡ some (record {
        insts = signed_icmp (b + 3) w (record { predicate = pred; op0 = reg x; op1 = reg y }) ∷ [];
        terminator = br c;
      }))
    (at_4 : g.block (c + 4)
      ≡ some (record {
        insts = signed_icmp (b + 4) w (record { predicate = pred; op0 = reg x; op1 = reg y }) ∷ [];
        terminator = br c;
      })) where
  abbrev nonneg : ℕ → Bool
  nonneg q = ltb (read s q) (2 ^ (w - 1))

  abbrev start : Option ℕ
  start = phi_value 3 g c l l (mk_non_negative b w (reg x) ∷ []) s

  abbrev signed : Option ℕ
  signed = some (bit (compares (w - 1) (signed_predicate pred) (read s x) (read s y)))

  read_y : (v : ℕ) → read (write b v s) y ≡ read s y
  unfolding read
  read_y v = ground arith

  read_x : (v : ℕ) → read (write b v s) x ≡ read s x
  unfolding read
  read_x v = ground arith

  walk_pos_pos : nonneg x ≡ true → nonneg y ≡ true → start ≡ signed
  unfolding value_of incoming_value read
  walk_pos_pos px py =
      edge_nonneg 2 g c l l b w x _ _ is s _ at_cur px at_1 (ground arith)
      ∙ edge_nonneg 1 g c l (c + 1) (b + 1) w y _ _ _ _ _ at_1 (rw (read_y 1) py) at_3
          (ground arith)
      ∙ arrive_signed 0 g (c + 1) (c + 3) (b + 3) w c _ _ _ _ (b + 5) _ after at_3 at_cont refl
      ∙ ground arith

  walk_pos_neg : nonneg x ≡ true → nonneg y ≡ false → start ≡ signed
  unfolding value_of incoming_value bit
  walk_pos_neg px py =
      edge_nonneg 2 g c l l b w x _ _ is s _ at_cur px at_1 (ground arith)
      ∙ arrive_neg 1 g c l (c + 1) (b + 1) w y _ _ _ _ _ at_1 (b + 5) _ after (rw (read_y 1) py)
          at_cont (==_refl c) refl
      ∙ rw (signed_pos_neg (w - 1) pred _ _ lowered px py) (ground arith)

  walk_neg_pos : nonneg x ≡ false → nonneg y ≡ true → start ≡ signed
  unfolding value_of incoming_value bit
  walk_neg_pos px py =
      edge_neg 2 g c l l b w x _ _ is s _ at_cur px at_2 (ground arith)
      ∙ arrive_nonneg 1 g c l (c + 2) (b + 2) w y _ _ _ _ _ at_2 (b + 5) _ after (rw (read_y 0) py)
          at_cont (==_refl c) refl
      ∙ rw (signed_neg_pos (w - 1) pred _ _ lowered px py) (ground arith)

  walk_neg_neg : nonneg x ≡ false → nonneg y ≡ false → start ≡ signed
  unfolding value_of incoming_value read
  walk_neg_neg px py =
      edge_neg 2 g c l l b w x _ _ is s _ at_cur px at_2 (ground arith)
      ∙ edge_neg 1 g c l (c + 2) (b + 2) w y _ _ _ _ _ at_2 (rw (read_y 0) py) at_4 (ground arith)
      ∙ arrive_signed 0 g (c + 2) (c + 4) (b + 4) w c _ _ _ _ (b + 5) _ after at_4 at_cont refl
      ∙ ground arith

  pub walk : start ≡ signed
  walk = elim (Bool-cases (nonneg x)) [
    | inl px ↦ elim (Bool-cases (nonneg y)) [
      | inl py ↦ walk_pos_pos px py
      | inr py ↦ walk_pos_neg px py
    ]
    | inr px ↦ elim (Bool-cases (nonneg y)) [
      | inl py ↦ walk_neg_pos px py
      | inr py ↦ walk_neg_neg px py
    ]
  ]
