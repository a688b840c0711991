-- ===== src/LowerICmp/Code.antt =====
-- The intermediate code that the pass edits, and LLVM's calls that edit it.
use mathlib.Core.Option
use crab_llvm.Prelude.{
  ℕ, Option, none, some, List, [], ◌∷◌, ◌++◌, map, ◌==◌, if◌then◌else◌, ◌≡◌, ◌+◌, ◌-◌, ◌<◌, ltb,
  get_elem?, arith,
}
use crab_llvm.CmpInst.{Cmp}
use crab_llvm.Llvm.{Ty}

pub data Operand : Type 0 where
  const_int reg : ℕ → Operand

pub data Inst : Type 0 where
  icmp : ℕ → Ty → Cmp Operand → Inst
  phi : ℕ → List (Operand × ℕ) → Inst
  opaque : ℕ → Inst

pub data Terminator : Type 0 where
  br : ℕ → Terminator
  cond_br : Operand → ℕ → ℕ → Terminator
  other_exit : ℕ → Terminator

pub record Block : Type 0 where
  pub insts : List Inst
  pub terminator : Terminator

pub record Func : Type 0 where
  pub layout : List ℕ
  pub block : ℕ → Option Block
  pub next_label : ℕ
  pub next_reg : ℕ

unfoldable pub update : (ℕ → Option Block) → ℕ → Block → ℕ → Option Block
update f l b m = if l == m then some b else f m

-- splitBasicBlock redirects the incoming edges of PHI nodes to the new block.
rename_label : ℕ → ℕ → ℕ → ℕ
rename_label old new l = if l == old then new else l

rename_incoming : ℕ → ℕ → List (Operand × ℕ) → List (Operand × ℕ)
unfolding rename_label
rename_incoming old new [] = []
rename_incoming old new ((v, l) ∷ rest) = (v, rename_label old new l) ∷ rename_incoming old new rest

unfoldable pub rename_inst : ℕ → ℕ → Inst → Inst
unfolding rename_incoming
rename_inst old new (phi r incoming) = phi r (rename_incoming old new incoming)
rename_inst old new i = i

unfoldable pub rename_block : ℕ → ℕ → Block → Block
unfolding rename_inst
rename_block old new b = record b { insts = map (rename_inst old new) b.insts }

-- replaceAllUsesWith, for the register `old`.
unfoldable pub replace_operand : ℕ → ℕ → Operand → Operand
replace_operand old new (reg r) = if r == old then reg new else reg r
replace_operand old new (const_int c) = const_int c

replace_incoming : ℕ → ℕ → List (Operand × ℕ) → List (Operand × ℕ)
unfolding replace_operand
replace_incoming old new [] = []
replace_incoming old new ((v, l) ∷ rest) =
    (replace_operand old new v, l) ∷ replace_incoming old new rest

unfoldable pub replace_inst : ℕ → ℕ → Inst → Inst
unfolding replace_incoming replace_operand
replace_inst old new (icmp r t c) =
    icmp r t (record c { op0 = replace_operand old new c.op0; op1 = replace_operand old new c.op1 })
replace_inst old new (phi r incoming) = phi r (replace_incoming old new incoming)
replace_inst old new (opaque i) = opaque i

unfoldable pub replace_terminator : ℕ → ℕ → Terminator → Terminator
unfolding replace_operand
replace_terminator old new (cond_br c t f) = cond_br (replace_operand old new c) t f
replace_terminator old new t = t

unfoldable pub replace_block : ℕ → ℕ → Block → Block
unfolding replace_inst replace_terminator
replace_block old new b = record {
  insts = map (replace_inst old new) b.insts;
  terminator = replace_terminator old new b.terminator;
}

-- Where the comparison that defines a register stands.
pub record Position : Type 0 where
  pub label : ℕ
  pub before : List Inst
  pub ty : Ty
  pub cmp : Cmp Operand
  pub after : List Inst
  pub terminator : Terminator

find_in : ℕ → ℕ → Terminator → List Inst → List Inst → Option Position
find_in r l t before [] = none
find_in r l t before (icmp q ty c ∷ rest) =
    let later = find_in r l t (before ++ (icmp q ty c ∷ [])) rest in
    if q == r
    then some
        (record { label = l; before = before; ty = ty; cmp = c; after = rest; terminator = t })
    else later
find_in r l t before (phi q incoming ∷ rest) = find_in r l t (before ++ (phi q incoming ∷ [])) rest
find_in r l t before (opaque q ∷ rest) = find_in r l t (before ++ (opaque q ∷ [])) rest

abbrev or_else {ℓ} : {A : Type ℓ} → Option A → Option A → Option A
or_else none y = y
or_else (some x) y = some x

find_labels : ℕ → (ℕ → Option Block) → List ℕ → Option Position
unfolding find_in
find_labels r block [] = none
find_labels r block (l ∷ ls) =
    or_else (Option.bind (block l) (λ b. find_in r l b.terminator [] b.insts))
      (find_labels r block ls)

unfoldable pub find_icmp : ℕ → Func → Option Position
unfolding find_labels
find_icmp r f = find_labels r f.block f.layout

-- New blocks take the labels from `n` on, in order.
unfoldable pub add_blocks : ℕ → List Block → (ℕ → Option Block) → ℕ → Option Block
add_blocks n bs f m = if ltb m n then f m else get_elem? bs (m - n)

pub add_blocks-old :
    (n : ℕ) (bs : List Block) (f : ℕ → Option Block) (m : ℕ) → m < n → add_blocks n bs f m ≡ f m
unfolding add_blocks
add_blocks-old n bs f m h = ground arith

pub add_blocks-first :
    (n : ℕ) (bs : List Block) (f : ℕ → Option Block) → add_blocks n bs f n ≡ get_elem? bs 0
unfolding add_blocks
add_blocks-first n bs f = let e : n - n ≡ 0 = omega arith in ground arith

pub add_blocks-new :
    (n : ℕ) (bs : List Block) (f : ℕ → Option Block) (i : ℕ)
    → add_blocks n bs f (n + i) ≡ get_elem? bs i
unfolding add_blocks
add_blocks-new n bs f i = let e : (n + i) - n ≡ i = omega arith in ground arith

pub update_self : (f : ℕ → Option Block) (l : ℕ) (b : Block) → update f l b l ≡ some b
unfolding update
update_self f l b = ground arith
