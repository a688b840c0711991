-- ===== src/Builder/Arithmetic/Correct.antt =====
-- About doArithmetic.
use crab_llvm.Prelude.{
  ℕ, suc, ◌<◌, ◌≡◌, ◌≢◌, inl, inr, true, none, some, List, [], ◌∷◌, arith, refl, ◌∙◌, sym, some_inj,
  Option-cases, subst,
}
use crab_llvm.Prelude.Int.{ℤ}
use crab_llvm.Llvm.{Value}
use crab_llvm.Utils.Types.{CrabBuilderParams}
use crab_llvm.Lit.{
  Var, int_type, Lit, is_int_lit, get_var, get_exp, exp_var, exp_cst, int_cst, int_var, LinExp,
  VariableFactory, IsVariableFactory, LitState, get_lit, mk_int_var,
}
use crab_llvm.Lit.Cache.{IsValid, get_lit-IsValid}
use crab_llvm.Lit.Exact.{find_lit-get_lit}
use crab_llvm.Crab.{BinOp, var_operand, number_operand, Stmt, assign, apply, Env, Meaning, int_of}
use crab_llvm.Crab.Run.{operand_at}
use crab_llvm.Builder.Logic.{Opcode}
use crab_llvm.Builder.Arithmetic.{
  crab_op, do_bin_op, is_arithmetic, int_lhs, arithmetic_code, do_arithmetic,
}
use crab_llvm.Builder.Arithmetic.Documented.{IsDocumented, llvm_value, compute-crab_op}
use crab_llvm.Builder.Arithmetic.Computes.{
  Computes, direct-Computes, first-Computes, both-Computes, exp_of,
}

-- The operation of an opcode that doArithmetic accepts.
crab_op_of : (op : Opcode) → is_arithmetic op ≡ true → (o : BinOp) × (crab_op op ≡ some o)
unfolding crab_op is_arithmetic
crab_op_of Opcode.add h = (_, refl)
crab_op_of Opcode.sub h = (_, refl)
crab_op_of Opcode.mul h = (_, refl)
crab_op_of Opcode.sdiv h = (_, refl)
crab_op_of Opcode.udiv h = (_, refl)
crab_op_of Opcode.srem h = (_, refl)
crab_op_of Opcode.urem h = (_, refl)
crab_op_of Opcode.shl h = (_, refl)
crab_op_of Opcode.ashr h = (_, refl)
crab_op_of Opcode.lshr h = (_, refl)
crab_op_of Opcode.and_op h = ground arith
crab_op_of Opcode.or_op h = ground arith
crab_op_of Opcode.xor_op h = ground arith
crab_op_of Opcode.other_op h = ground arith

module _ (vfac : VariableFactory) (params : CrabBuilderParams) (μ : Meaning) (env : Env)
    (distinct_names : IsVariableFactory vfac) where
  open distinct_names use {fresh_injective, fresh_new}

  suc_ne : (n : ℕ) → suc n ≢ n
  suc_ne n e = omega arith

  -- The statements for a variable as the first operand.
  code_vv :
      (op : Opcode) (o : BinOp) (w : ℕ) (lhs x : Var) (y : LinExp) (st : LitState)
      → is_arithmetic op ≡ true
      → crab_op op ≡ some o
      → arithmetic_code vfac params op w lhs (exp_var x) y st
        ≡ some (
          apply o lhs x
                (elim y.variable [ some z ↦ var_operand z | none ↦ number_operand y.constant ])
              ∷ [],
          st,
        )
  unfolding arithmetic_code do_bin_op
  code_vv op o w lhs x y st h g = elim (Option-cases y.variable) [
    | inl e ↦ rw (h, g, e) refl
    | inr (z, e) ↦ rw (h, g, e) refl
  ]

  temp : ℕ → ℕ → Var
  temp w c = record { name = vfac.fresh_name c; var_type = int_type; bitwidth = w }

  code_cv :
      (op : Opcode) (o : BinOp) (w : ℕ) (lhs : Var) (n : ℤ) (y : Var) (st : LitState)
      → is_arithmetic op ≡ true
      → crab_op op ≡ some o
      → arithmetic_code vfac params op w lhs (exp_cst n) (exp_var y) st
        ≡ some (
          assign (temp w st.fresh_count) (exp_cst n)
              ∷ apply o lhs (temp w st.fresh_count) (var_operand y)
              ∷ [],
          (mk_int_var vfac params w st).1,
        )
  unfolding arithmetic_code do_bin_op mk_int_var temp
  code_cv op o w lhs n y st h g = rw (h, g) refl

  code_cc :
      (op : Opcode) (o : BinOp) (w : ℕ) (lhs : Var) (n m : ℤ) (st : LitState)
      → is_arithmetic op ≡ true
      → crab_op op ≡ some o
      → arithmetic_code vfac params op w lhs (exp_cst n) (exp_cst m) st
        ≡ some (
          assign (temp w st.fresh_count) (exp_cst n)
              ∷ assign (temp w (suc st.fresh_count)) (exp_cst m)
              ∷ apply o lhs (temp w st.fresh_count) (var_operand (temp w (suc st.fresh_count)))
              ∷ [],
          (mk_int_var vfac params w (mk_int_var vfac params w st).1).1,
        )
  unfolding arithmetic_code do_bin_op mk_int_var temp
  code_cc op o w lhs n m st h g = rw (h, g) refl

  code-Computes :
      (op : Opcode) (o : BinOp) (w : ℕ) (lhs : Var) (l1 l2 : Lit) (a b : ℤ) (x y : LinExp)
      (st : LitState)
      → is_arithmetic op ≡ true
      → crab_op op ≡ some o
      → int_of env l1 ≡ some a
      → int_of env l2 ≡ some b
      → get_exp l1 ≡ some x
      → get_exp l2 ≡ some y
      → ((z : Var) → get_var l2 ≡ some z → vfac.fresh_name st.fresh_count ≢ z.name)
      → (code : List Stmt) × (st' : LitState) × (arithmetic_code vfac params op w lhs x y st
          ≡ some (code, st'))
        × Computes vfac μ env lhs (μ.compute o a b) code
  unfolding int_of get_exp get_var temp operand_at
  code-Computes op o w lhs (int_var x) (int_var y) a b e f st h g h1 h2 h3 h4 new =
      rw
        (sym (some_inj _ _ h1), sym (some_inj _ _ h2), sym (some_inj _ _ h3), sym (some_inj _ _ h4))
        (
          _,
          st,
          code_vv op o w lhs x (exp_var y) st h g,
          direct-Computes vfac μ env lhs o x (var_operand y),
        )
  code-Computes op o w lhs (int_var x) (int_cst m) a b e f st h g h1 h2 h3 h4 new =
      rw
        (sym (some_inj _ _ h1), sym (some_inj _ _ h2), sym (some_inj _ _ h3), sym (some_inj _ _ h4))
        (
          _,
          st,
          code_vv op o w lhs x (exp_cst m) st h g,
          direct-Computes vfac μ env lhs o x (number_operand m),
        )
  code-Computes op o w lhs (int_cst n) (int_var y) a b e f st h g h1 h2 h3 h4 new =
      rw
        (sym (some_inj _ _ h1), sym (some_inj _ _ h2), sym (some_inj _ _ h3), sym (some_inj _ _ h4))
        (
          _,
          _,
          code_cv op o w lhs n y st h g,
          first-Computes vfac μ env lhs o n st.fresh_count _ y refl (new y refl),
        )
  code-Computes op o w lhs (int_cst n) (int_cst m) a b e f st h g h1 h2 h3 h4 new =
      rw
        (sym (some_inj _ _ h1), sym (some_inj _ _ h2), sym (some_inj _ _ h3), sym (some_inj _ _ h4))
        (
          _,
          _,
          code_cc op o w lhs n m st h g,
          both-Computes vfac μ env lhs o n m st.fresh_count (suc st.fresh_count) _ _ refl refl
              (λ q. suc_ne _ (fresh_injective _ _ q)),
        )
  code-Computes op o w lhs l1 l2 a b e f st h g h1 h2 h3 h4 new = ground arith

  -- The next fresh name is that of no variable that the factory gave out.
  fresh_unused :
      (v : Value) (st : LitState) (l : Lit) (z : Var)
      → IsValid vfac params distinct_names st
      → (get_lit vfac params v st).0 ≡ some l
      → get_var l ≡ some z
      → vfac.fresh_name (get_lit vfac params v st).1.fresh_count ≢ z.name
  fresh_unused v st l z valid e f q =
      elim ((get_lit-IsValid vfac params distinct_names v st valid).named v l z
        (find_lit-get_lit vfac params v st l e) f) [
          | inl same ↦ fresh_new _ _ (q ∙ same)
          | inr (n, lt, same) ↦ below _ n lt (fresh_injective _ _ (q ∙ same))
        ]
    where
      below : (m n : ℕ) → n < m → m ≢ n
      below m n lt e = omega arith

  -- An arithmetic instruction on two values with integer literals, variables or constants, is
  -- translated to statements that go on, assign LLVM's result of the operation, on integers without
  -- bounds and where it is defined, to the instruction's variable, and change no other integer
  -- variable but fresh ones, if Crab's operations do what is documented.
  pub do_arithmetic-Computes :
      (op : Opcode) (w : ℕ) (lhs : Var) (v1 v2 : Value) (l1 l2 : Lit) (a b r : ℤ) (st : LitState)
      → IsDocumented μ
      → IsValid vfac params distinct_names st
      → is_arithmetic op ≡ true
      → (get_lit vfac params v1 st).0 ≡ some l1
      → (get_lit vfac params v2 (get_lit vfac params v1 st).1).0 ≡ some l2
      → int_of env l1 ≡ some a
      → int_of env l2 ≡ some b
      → llvm_value op a b ≡ some r
      → (code : List Stmt) × (st' : LitState) × (do_arithmetic vfac params
            (some (int_var lhs))
            op
            w
            v1
            v2
            st
          ≡ some (code, st'))
        × Computes vfac μ env lhs r code
  unfolding do_arithmetic int_lhs is_int_lit get_var
  do_arithmetic-Computes op w lhs v1 v2 l1 l2 a b r st documented valid h e1 e2 h1 h2 value =
      let (o, g) = crab_op_of op h in
      let (x, f1) = exp_of env l1 a h1 in
      let (y, f2) = exp_of env l2 b h2 in
      let (code, st', made, computes) =
        code-Computes op o w lhs l1 l2 a b x y
          (get_lit vfac params v2 (get_lit vfac params v1 st).1).1 h g h1 h2 f1 f2
          (λ z k.
            fresh_unused v2 (get_lit vfac params v1 st).1 l2 z
              (get_lit-IsValid vfac params distinct_names v1 st valid) e2 k) in
      (
        code,
        st',
        rw (e1, f1) (rw (e2, f2) made),
        subst (λ n. Computes vfac μ env lhs n code)
            (compute-crab_op μ documented op o a b r g value) computes,
      )
