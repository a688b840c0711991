-- ===== src/Builder/Select/Booleans.antt =====
-- Selects of Booleans.
use crab_llvm.Prelude.{
  ℕ, suc, ◌≤◌, ◌≡◌, ◌≢◌, Bool, true, false, ◌&&◌, ◌||◌, none, some, List, [], ◌∷◌, if◌then◌else◌,
  refl, ==_refl, ne→test, ap, ◌∙◌, some_inj, arith, subst,
}
use crab_llvm.Llvm.{Value, as_constant_int}
use crab_llvm.Utils.Types.{CrabBuilderParams}
use crab_llvm.Lit.{
  Var, Lit, bool_cst, bool_var, is_bool_lit, get_var, VariableFactory, IsVariableFactory, LitState,
  mk_bool_var,
}
use crab_llvm.Crab.{
  Stmt, bool_assign_cst, bool_assign_var, bool_select, Env, set_bool, bool_at, bool_of, Meaning,
  continues,
}
use crab_llvm.Crab.Run.{holds, exec, run}
use crab_llvm.Builder.Logic.{truth}
use crab_llvm.Builder.Select.{choose, assign_bool, bool_select_code, select_bool}

-- What the condition is, with its truth, and whether it is a variable.
pub data BoolCondition (env : Env) (cond : Value) (c : Lit) : Bool → Bool → Type 0 where
  is_one : (w : ℕ) → as_constant_int cond ≡ some (w, 1) → BoolCondition env cond c true false
  is_zero : (w : ℕ) → as_constant_int cond ≡ some (w, 0) → BoolCondition env cond c false false
  variable :
      (x : Var)
      → as_constant_int cond ≡ none
      → c ≡ bool_var x
      → BoolCondition env cond c (bool_at env x.name) true

abbrev pub both_variables : Lit → Lit → Bool
both_variables (bool_var x) (bool_var y) = true
both_variables l m = false

-- No variable of a literal has a fresh name that is still to come.
abbrev pub IsUnused : VariableFactory → LitState → Lit → Type 0
IsUnused vfac st l =
    (n : ℕ) (z : Var) → st.fresh_count ≤ n → get_var l ≡ some z → vfac.fresh_name n ≢ z.name

module _ (vfac : VariableFactory) (params : CrabBuilderParams) (μ : Meaning) (env : Env) where
  holds-truth : (e : Env) (b : Bool) → holds μ e (truth b) ≡ b
  unfolding holds truth
  holds-truth e true = refl
  holds-truth e false = refl

  -- The statement for a Boolean literal.
  assign_bool-assigns :
      (lhs : Var) (l : Lit) (b : Bool)
      → bool_of env l ≡ some b
      → (s : Stmt) × (assign_bool lhs l ≡ some s)
        × (run μ (s ∷ []) env ≡ continues (set_bool lhs.name b env))
  unfolding assign_bool bool_of run exec
  assign_bool-assigns lhs (bool_cst v) b h =
      (bool_assign_cst lhs (truth v), refl, rw (holds-truth env v, some_inj _ _ h) refl)
  assign_bool-assigns lhs (bool_var x) b h =
      (bool_assign_var lhs x false, refl, rw (some_inj _ _ h) refl)
  assign_bool-assigns lhs l b h = absurd (ground arith)

  is_bool_lit-bool_of : (l : Lit) (b : Bool) → bool_of env l ≡ some b → is_bool_lit l ≡ true
  unfolding is_bool_lit bool_of
  is_bool_lit-bool_of l b h = ground arith

  -- A run that ends with the value of the left-hand side.
  abbrev Assigns : List Stmt → Var → Bool → Type 0
  Assigns code lhs b =
      (after : Env) × (run μ code env ≡ continues after) × (bool_at after lhs.name ≡ b)

  set_bool-Assigns :
      (code : List Stmt) (lhs : Var) (b : Bool) (e : Env)
      → run μ code env ≡ continues (set_bool lhs.name b e)
      → Assigns code lhs b
  unfolding bool_at
  set_bool-Assigns code lhs b e h = (set_bool lhs.name b e, h, rw (==_refl lhs.name) refl)

  suc_ne : (n : ℕ) → suc n ≢ n
  suc_ne n e = omega arith

  run-bool_select :
      (lhs c y z : Var) (e : Env)
      → run μ (bool_select lhs c y z ∷ []) e
        ≡ continues
            (set_bool lhs.name (if bool_at e c.name then bool_at e y.name else bool_at e z.name) e)
  unfolding run exec
  run-bool_select lhs c y z e = refl

  run-truth :
      (t : Var) (b : Bool) (rest : List Stmt) (e : Env)
      → run μ (bool_assign_cst t (truth b) ∷ rest) e ≡ run μ rest (set_bool t.name b e)
  unfolding run exec
  run-truth t b rest e = rw (holds-truth e b) refl

  if_or_false : (t a b : Bool) → (if t then a else b) ≡ (if t || false then a else b)
  if_or_false t a b = ground arith

  select-Assigns :
      (code : List Stmt) (lhs c y z : Var) (e : Env) (t a b : Bool)
      → run μ code env ≡ run μ (bool_select lhs c y z ∷ []) e
      → bool_at e c.name ≡ t
      → bool_at e y.name ≡ a
      → bool_at e z.name ≡ b
      → Assigns code lhs (if t || false then a else b)
  select-Assigns code lhs c y z e t a b h hc hy hz = set_bool-Assigns code lhs _ e (
      h
      ∙ run-bool_select lhs c y z e
      ∙ rw (hc, hy, hz) (ap (λ v. continues (set_bool lhs.name v e)) (if_or_false t a b)))

  set_other : (t x : ℕ) (b : Bool) (e : Env) → t ≢ x → bool_at (set_bool t b e) x ≡ bool_at e x
  unfolding bool_at
  set_other t x b e ne = rw (ne→test t x ne) refl

  set_same : (t : ℕ) (b : Bool) (e : Env) → bool_at (set_bool t b e) t ≡ b
  unfolding bool_at
  set_same t b e = rw (==_refl t) refl

  -- Which operand a select under a variable takes.
  taken : Bool → Lit → Lit → Bool → Bool → Bool
  taken t l1 l2 a b = if t || both_variables l1 l2 then a else b

  bool_select_code-Assigns :
      (distinct_names : IsVariableFactory vfac) (lhs x : Var) (l1 l2 : Lit) (a b : Bool)
      (st : LitState)
      → bool_of env l1 ≡ some a
      → bool_of env l2 ≡ some b
      → IsUnused vfac st (bool_var x)
      → IsUnused vfac st l1
      → IsUnused vfac st l2
      → (code : List Stmt) × (st' : LitState) × (bool_select_code vfac params lhs x l1 l2 st
          ≡ some (code, st'))
        × Assigns code lhs (taken (bool_at env x.name) l1 l2 a b)
  unfolding bool_select_code mk_bool_var bool_of run exec bool_at get_var taken
  bool_select_code-Assigns d lhs x (bool_cst u) (bool_cst v) a b st h1 h2 nx n1 n2 =
      let n = st.fresh_count in
      let t1 = (mk_bool_var vfac params st).0 in
      let st1 = (mk_bool_var vfac params st).1 in
      let t2 = (mk_bool_var vfac params st1).0 in
      let e1 = set_bool (vfac.fresh_name n) u env in
      let e2 = set_bool (vfac.fresh_name (suc n)) v e1 in
      let select = bool_select lhs x t1 t2 ∷ [] in
      (
        bool_assign_cst t1 (truth u) ∷ bool_assign_cst t2 (truth v) ∷ select,
        _,
        refl,
        select-Assigns (bool_assign_cst t1 (truth u) ∷ bool_assign_cst t2 (truth v) ∷ select) lhs x
            t1 t2 e2 _ a b
            (run-truth t1 u (bool_assign_cst t2 (truth v) ∷ select) env ∙ run-truth t2 v select e1)
            (set_other _ _ v e1 (nx (suc n) x (omega arith) refl)
              ∙ set_other _ _ u env (nx n x (omega arith) refl))
            (set_other _ _ v e1 (λ q. suc_ne n (d.fresh_injective _ _ q))
              ∙ set_same _ u env
              ∙ some_inj _ _ h1)
            (set_same _ v e1 ∙ some_inj _ _ h2),
      )
  bool_select_code-Assigns d lhs x (bool_cst u) (bool_var z) a b st h1 h2 nx n1 n2 =
      let n = st.fresh_count in
      let t = (mk_bool_var vfac params st).0 in
      let select = bool_select lhs x t z ∷ [] in
      (
        bool_assign_cst t (truth u) ∷ select,
        _,
        refl,
        select-Assigns (bool_assign_cst t (truth u) ∷ select) lhs x t z
            (set_bool (vfac.fresh_name n) u env) _ a b (run-truth t u select env)
            (set_other _ _ u env (nx n x (omega arith) refl)) (set_same _ u env ∙ some_inj _ _ h1)
            (set_other _ _ u env (n2 n z (omega arith) refl) ∙ some_inj _ _ h2),
      )
  bool_select_code-Assigns d lhs x (bool_var y) (bool_cst v) a b st h1 h2 nx n1 n2 =
      let n = st.fresh_count in
      let t = (mk_bool_var vfac params st).0 in
      let select = bool_select lhs x y t ∷ [] in
      (
        bool_assign_cst t (truth v) ∷ select,
        _,
        refl,
        select-Assigns (bool_assign_cst t (truth v) ∷ select) lhs x y t
            (set_bool (vfac.fresh_name n) v env) _ a b (run-truth t v select env)
            (set_other _ _ v env (nx n x (omega arith) refl))
            (set_other _ _ v env (n1 n y (omega arith) refl) ∙ some_inj _ _ h1)
            (set_same _ v env ∙ some_inj _ _ h2),
      )
  bool_select_code-Assigns d lhs x (bool_var y) (bool_var z) a b st h1 h2 nx n1 n2 = (
    bool_select lhs x y y ∷ [],
    _,
    refl,
    set_bool-Assigns (bool_select lhs x y y ∷ []) lhs _ env (
        run-bool_select lhs x y y env
        ∙ ap (λ v. continues (set_bool lhs.name v env))
            (always (bool_at env x.name) (bool_at env y.name) a b (some_inj _ _ h1))),
  )
    where
      always : (t v a b : Bool) → v ≡ a → (if t then v else v) ≡ (if t || true then a else b)
      always t v a b h = ground arith
  bool_select_code-Assigns d lhs x l1 l2 a b st h1 h2 nx n1 n2 = absurd (ground arith)

  -- A select of two Boolean literals, where no fresh name to come is that of a variable of the
  -- condition or the operands: under a constant, the statements go on and assign the first operand
  -- if it is 1 and the second if it is 0; under a variable they assign the second operand exactly
  -- if the variable is false and one operand at least is a constant, and the first otherwise.
  pub select_bool-chooses :
      (distinct_names : IsVariableFactory vfac) (cond : Value) (lhs : Var) (c l1 l2 : Lit)
      (a b t is_variable : Bool) (st : LitState)
      → BoolCondition env cond c t is_variable
      → bool_of env l1 ≡ some a
      → bool_of env l2 ≡ some b
      → IsUnused vfac st c
      → IsUnused vfac st l1
      → IsUnused vfac st l2
      → (code : List Stmt) × (st' : LitState) × (after : Env) × (select_bool vfac params cond lhs c
            l1 l2 st
          ≡ some (code, st'))
        × (run μ code env ≡ continues after)
        × (bool_at after lhs.name ≡ (if t || (is_variable && both_variables l1 l2) then a else b))
  unfolding select_bool choose get_var
  select_bool-chooses d cond lhs c l1 l2 a b t v st (is_one w h) h1 h2 nx n1 n2 =
      let (s, e, r) = assign_bool-assigns lhs l1 a h1 in
      let (after, goes_on, result) = set_bool-Assigns (s ∷ []) lhs a env r in
      (
        s ∷ [],
        st,
        after,
        rw (is_bool_lit-bool_of l1 a h1, is_bool_lit-bool_of l2 b h2) (rw h (rw e refl)),
        goes_on,
        result,
      )
  select_bool-chooses d cond lhs c l1 l2 a b t v st (is_zero w h) h1 h2 nx n1 n2 =
      let (s, e, r) = assign_bool-assigns lhs l2 b h2 in
      let (after, goes_on, result) = set_bool-Assigns (s ∷ []) lhs b env r in
      (
        s ∷ [],
        st,
        after,
        rw (is_bool_lit-bool_of l1 a h1, is_bool_lit-bool_of l2 b h2) (rw h (rw e refl)),
        goes_on,
        result,
      )
  select_bool-chooses d cond lhs c l1 l2 a b t v st (variable x h f) h1 h2 nx n1 n2 =
      let (code, st', made, (after, goes_on, result)) =
        bool_select_code-Assigns d lhs x l1 l2 a b st h1 h2 (subst (IsUnused vfac st) f nx) n1 n2 in
      (
        code,
        st',
        after,
        rw (is_bool_lit-bool_of l1 a h1, is_bool_lit-bool_of l2 b h2) (rw (h, f) made),
        goes_on,
        unfold taken in result,
      )
