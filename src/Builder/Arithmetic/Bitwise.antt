-- ===== src/Builder/Arithmetic/Bitwise.antt =====
-- About doIntLogicOp.
use crab_llvm.Prelude.{
  ◌≡◌, ◌⊎◌, inl, inr, Bool, true, false, none, some, List, [], ◌∷◌, arith, refl, ◌∙◌, ap, sym,
  some_inj, Option-cases, subst,
}
use crab_llvm.Prelude.Int.{ℤ}
use crab_llvm.Llvm.{Value}
use crab_llvm.Utils.Types.{CrabBuilderParams}
use crab_llvm.Lit.{
  Var, Lit, is_int_lit, get_var, get_exp, exp_var, exp_cst, int_cst, int_var, LinExp,
  VariableFactory, LitState, get_lit,
}
use crab_llvm.Crab.{
  BinOp, var_operand, number_operand, Stmt, apply, Env, Meaning, int_of, continues,
}
use crab_llvm.Crab.Run.{operand_at, run}
use crab_llvm.Builder.Logic.{Opcode}
use crab_llvm.Builder.Arithmetic.{
  crab_op, do_bin_op, is_arithmetic, int_lhs, int_logic_code, do_int_logic_op,
}
use crab_llvm.Builder.Arithmetic.Documented.{IsDocumented, llvm_value, compute-crab_op}
use crab_llvm.Builder.Arithmetic.Computes.{Computes, direct-Computes, exp_of}

-- The opcodes of doIntLogicOp.
unfoldable pub is_bitwise : Opcode → Bool
is_bitwise Opcode.and_op = true
is_bitwise Opcode.or_op = true
is_bitwise Opcode.xor_op = true
is_bitwise _ = false

module _ (vfac : VariableFactory) (params : CrabBuilderParams) (μ : Meaning) (env : Env) where
  -- The statements of an integer And, Or or Xor with the expressions of two literals.
  int_logic_bin :
      (op : Opcode) (o : BinOp) (lhs : Var) (x y : LinExp)
      → is_arithmetic op ≡ false
      → crab_op op ≡ some o
      → int_logic_code vfac params op lhs x y ≡ do_bin_op op lhs x y
  unfolding int_logic_code is_arithmetic crab_op
  int_logic_bin op o lhs x y h g = ground arith

  bin_v :
      (op : Opcode) (o : BinOp) (lhs x : Var) (y : LinExp)
      → crab_op op ≡ some o
      → do_bin_op op lhs (exp_var x) y
        ≡ some (
            apply o lhs x
              (elim y.variable [ some z ↦ var_operand z | none ↦ number_operand y.constant ])
            ∷ [])
  unfolding do_bin_op
  bin_v op o lhs x y g = elim (Option-cases y.variable) [
    | inl e ↦ rw (g, e) refl
    | inr (z, e) ↦ rw (g, e) refl
  ]

  bin_c :
      (op : Opcode) (o : BinOp) (lhs : Var) (n : ℤ) (y : LinExp)
      → crab_op op ≡ some o
      → do_bin_op op lhs (exp_cst n) y ≡ some []
  unfolding do_bin_op
  bin_c op o lhs n y g = rw g refl

  logic_code-Computes :
      (op : Opcode) (o : BinOp) (lhs : Var) (l1 l2 : Lit) (a b : ℤ) (x y : LinExp)
      → is_arithmetic op ≡ false
      → crab_op op ≡ some o
      → int_of env l1 ≡ some a
      → int_of env l2 ≡ some b
      → get_exp l1 ≡ some x
      → get_exp l2 ≡ some y
      → (code : List Stmt) × (int_logic_code vfac params op lhs x y ≡ some code)
        × (((x : Var) × (l1 ≡ int_var x) × Computes vfac μ env lhs (μ.compute o a b) code)
            ⊎ ((l1 ≡ int_cst a) × (code ≡ [])))
  unfolding int_of get_exp operand_at
  logic_code-Computes op o lhs (int_var x) (int_var y) a b e f h g h1 h2 h3 h4 =
      rw
        (sym (some_inj _ _ h1), sym (some_inj _ _ h2), sym (some_inj _ _ h3), sym (some_inj _ _ h4))
        (
          _,
          int_logic_bin op o lhs (exp_var x) (exp_var y) h g ∙ bin_v op o lhs x (exp_var y) g,
          inl (x, refl, direct-Computes vfac μ env lhs o x (var_operand y)),
        )
  logic_code-Computes op o lhs (int_var x) (int_cst m) a b e f h g h1 h2 h3 h4 =
      rw
        (sym (some_inj _ _ h1), sym (some_inj _ _ h2), sym (some_inj _ _ h3), sym (some_inj _ _ h4))
        (
          _,
          int_logic_bin op o lhs (exp_var x) (exp_cst m) h g ∙ bin_v op o lhs x (exp_cst m) g,
          inl (x, refl, direct-Computes vfac μ env lhs o x (number_operand m)),
        )
  logic_code-Computes op o lhs (int_cst n) l2 a b e f h g h1 h2 h3 h4 = (
    [],
    int_logic_bin op o lhs e f h g ∙ rw (sym (some_inj _ _ h3)) (bin_c op o lhs n f g),
    inr (ap int_cst (some_inj _ _ h1), refl),
  )
  logic_code-Computes op o lhs l1 l2 a b e f h g h1 h2 h3 h4 = ground arith

  logic_op_of : (op : Opcode) → is_bitwise op ≡ true → (o : BinOp) × (crab_op op ≡ some o)
  unfolding crab_op is_bitwise
  logic_op_of Opcode.and_op h = (_, refl)
  logic_op_of Opcode.or_op h = (_, refl)
  logic_op_of Opcode.xor_op h = (_, refl)
  logic_op_of op h = absurd (ground arith)

  is_bitwise-is_arithmetic : (op : Opcode) → is_bitwise op ≡ true → is_arithmetic op ≡ false
  unfolding is_bitwise is_arithmetic
  is_bitwise-is_arithmetic op h = ground arith

  -- And, Or and Xor of two values with integer literals, whose values have no sign bit and where
  -- Crab's operations do what is documented: with a variable as the first operand, the statements
  -- go on, assign LLVM's result to the left-hand side, and change no other integer variable but
  -- fresh ones; with a constant as the first operand, they go on and change nothing at all.
  pub do_int_logic_op-Computes :
      (op : Opcode) (lhs : Var) (v1 v2 : Value) (l1 l2 : Lit) (a b r : ℤ) (st : LitState)
      → IsDocumented μ
      → is_bitwise op ≡ true
      → (get_lit vfac params v1 st).0 ≡ some l1
      → (get_lit vfac params v2 (get_lit vfac params v1 st).1).0 ≡ some l2
      → int_of env l1 ≡ some a
      → int_of env l2 ≡ some b
      → llvm_value op a b ≡ some r
      → (code : List Stmt) × (st' : LitState) × (do_int_logic_op vfac params
            (some (int_var lhs))
            op
            v1
            v2
            st
          ≡ some (code, st'))
        × (((x : Var) × (l1 ≡ int_var x) × Computes vfac μ env lhs r code)
            ⊎ ((l1 ≡ int_cst a) × (run μ code env ≡ continues env)))
  unfolding do_int_logic_op int_lhs is_int_lit get_var
  do_int_logic_op-Computes op lhs v1 v2 l1 l2 a b r st documented h e1 e2 h1 h2 value =
      let (o, g) = logic_op_of op h in
      let (x, f1) = exp_of env l1 a h1 in
      let (y, f2) = exp_of env l2 b h2 in
      let (code, made, computes) =
        logic_code-Computes op o lhs l1 l2 a b x y (is_bitwise-is_arithmetic op h) g h1 h2 f1 f2 in
      (
        code,
        (get_lit vfac params v2 (get_lit vfac params v1 st).1).1,
        rw (e1, f1) (rw (e2, f2) (rw made refl)),
        elim computes [
          | inl (z, e, c) ↦ inl (
            z,
            e,
            subst (λ n. Computes vfac μ env lhs n code)
                (compute-crab_op μ documented op o a b r g value) c,
          )
          | inr (e, nothing) ↦ inr (e, rw nothing (unfold run in refl))
        ],
      )
