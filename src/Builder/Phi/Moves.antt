-- ===== src/Builder/Phi/Moves.antt =====
-- What the second loop of CrabPhiVisitor does, against the literals of the final cache.
use crab_llvm.Prelude.{
  ◌≡◌, ◌≢◌, ◌∙◌, inl, inr, sym, ap, subst, refl, Bool, true, false, not, ◌||◌, none, some, List, [],
  ◌∷◌, ◌++◌, arith, Option-cases, true_ne_false, All,
}
use crab_llvm.Llvm.{Value, type_of}
use crab_llvm.Utils.Types.{
  CrabBuilderParams, is_tracked, is_tracked_type, is_bool, is_integer, is_pointer_ty,
}
use crab_llvm.Lit.{
  Var, Lit, get_var, VariableFactory, IsVariableFactory, LitState, find_lit, get_lit,
}
use crab_llvm.Lit.Cache.{IsValid}
use crab_llvm.Lit.Exact.{lacks_literal, find_lit-get_lit}
use crab_llvm.Lit.Fresh.{
  Extends, HasVars, get_lit-HasVars, Asks, asked, ask, Asks-keeps, Asks-Extends, Asks-trans,
}
use crab_llvm.Crab.{Stmt, havoc_stmt, Env, Meaning, continues}
use crab_llvm.Crab.Run.{run, exec, run-append, havoc_var}
use crab_llvm.Builder.Phi.{
  PhiNode, is_phi_of, find_old, assign_lit, assign_old, assign_incoming, assign_phi, assign_phis,
}
use crab_llvm.Builder.Phi.Values.{
  value_of, like, write, IsApart, run-assign_lit, write-like, write-IsApart, like-IsApart,
  havoc_var-IsApart, like-like, like_lem,
}
use crab_llvm.Builder.Phi.Olds.{IsRegNode}
use crab_llvm.Builder.Phi.Assign.{assign_phi-Round, assign_old_lem, get_lit-some}

-- A PHI node that the second loop assigns the incoming value to: it is tracked, does not have the
-- name of shadow memory, and its incoming value has a literal.
abbrev pub IsActive : CrabBuilderParams → PhiNode → Type 0
IsActive params p =
    (is_tracked p.node params ≡ true)
    × (p.shadow_name ≡ false)
    × (lacks_literal params p.incoming ≡ false)

abbrev pub AreDistinct : List PhiNode → Type 0
AreDistinct [] = Unit
AreDistinct (p ∷ ps) = All (λ q. p.node ≢ q.node) ps × AreDistinct ps

module _ (vfac : VariableFactory) (params : CrabBuilderParams)
    (distinct_names : IsVariableFactory vfac) (μ : Meaning) (env0 : Env) (block : List PhiNode)
    (olds : List (Value × Var)) (fin : LitState)
    (valid : IsValid vfac params distinct_names fin) where
  -- The literal that the second loop reads.
  abbrev pub source : PhiNode → Lit → Lit
  source p l = elim (find_old p.incoming olds) [ none ↦ l | some y ↦ like l y ]

  -- What the loop reads is still the incoming value of `env0`.
  abbrev pub Ready : Env → PhiNode → Type 0
  Ready env p =
      IsActive params p
      → (l : Lit) → find_lit p.incoming fin.cache ≡ some l
      → value_of env (source p l) ≡ value_of env0 l

  abbrev pub IsGood : PhiNode → Type 0
  IsGood p =
      IsRegNode p
      × (is_phi_of p.node block ≡ true)
      × (type_of p.incoming ≡ type_of p.node)
      × (is_tracked p.incoming params ≡ true
          → is_phi_of p.incoming block ≡ true
          → p.shadow_name ≡ false
          → find_old p.incoming olds ≢ none)

  -- A literal that does not read the variable of the node.
  abbrev pub IsClear : Lit → PhiNode → Type 0
  IsClear m p =
      (l : Lit) (x : Var) → find_lit p.node fin.cache ≡ some l → get_var l ≡ some x → IsApart x m

  abbrev pub Moved : Env → PhiNode → Type 0
  Moved env p =
      IsActive params p
      → (l k : Lit) × (find_lit p.node fin.cache ≡ some l)
        × (find_lit p.incoming fin.cache ≡ some k)
        × (value_of env l ≡ value_of env0 k)

  pub record IsMove (env : Env) (ps : List PhiNode) (code : List Stmt) : Type 0 where
    pub after : Env
    pub runs : run μ code env ≡ continues after
    pub frame : (m : Lit) → All (IsClear m) ps → value_of after m ≡ value_of env m
    pub moved : All (Moved after) ps

  module _
      (unused : (v : Value) (y : Var)
        → find_old v olds ≡ some y
        → (u : Value) (l : Lit) (x : Var) → find_lit u fin.cache ≡ some l
        → get_var l ≡ some x
        → y.name ≢ x.name)
      (cached : (v : Value) (y : Var)
        → find_old v olds ≡ some y
        → (l : Lit) × (find_lit v fin.cache ≡ some l)) where
    -- The variable of a node's literal, and a value's literal of the node's type.
    same_class :
        (p : PhiNode) (l k : Lit) (x : Var)
        → type_of p.incoming ≡ type_of p.node
        → find_lit p.node fin.cache ≡ some l
        → find_lit p.incoming fin.cache ≡ some k
        → get_var l ≡ some x
        → l ≡ like k x
    same_class p l k x e hl hk hx =
        let cl = valid.typed p.node l hl in
        let ck = valid.typed p.incoming k hk in
        like_lem k l x hx (cl.bools ∙ ap is_bool (sym e) ∙ sym ck.bools)
          (cl.ints ∙ ap is_integer (sym e) ∙ sym ck.ints)
          (cl.ptrs ∙ ap is_pointer_ty (sym e) ∙ sym ck.ptrs)

    -- Writing the node of one PHI node leaves what another reads.
    source-IsClear :
        (p q : PhiNode) (k : Lit)
        → IsGood p
        → IsGood q
        → IsActive params q
        → find_lit q.incoming fin.cache ≡ some k
        → IsClear (source q k) p
    unfolding is_tracked
    source-IsClear p q k (rp, inp, tp, cp) (rq, inq, tq, cq) (tracked, shadow, lit) hk l x hl hx =
        elim (Option-cases (find_old q.incoming olds)) [
          | inr (y, e) ↦
              rw (e, source)
                (like-IsApart k x y (λ same. unused q.incoming y e p.node l x hl hx (sym same)))
          | inl e ↦
              rw (e, source)
                (λ z hz same.
                  let eq : p.node ≡ q.incoming =
                    valid.distinct p.node q.incoming l k x z hl hk hx hz same in
                  cq (ap (λ t. is_tracked_type t params) tq ∙ tracked)
                    (subst (λ w. is_phi_of w block ≡ true) eq inp) shadow e)
        ]

    -- An assignment of a literal to the node's variable.
    assigned :
        (p : PhiNode) (l s : Lit) (x : Var) (env : Env)
        → find_lit p.node fin.cache ≡ some l
        → get_var l ≡ some x
        → (IsActive params p
            → (k : Lit) × (find_lit p.incoming fin.cache ≡ some k)
              × (l ≡ like s x)
              × (value_of env s ≡ value_of env0 k))
        → IsMove env (p ∷ []) (assign_lit x s)
    assigned p l s x env hl hx reads = record {
      after = write x s env;
      runs = run-assign_lit μ x s env;
      frame = λ m (clear, rest). write-IsApart x s m env (clear l x hl hx);
      moved = (
        λ active.
            let (k, hk, e, v) = reads active in
            (l, k, hl, hk, ap (value_of (write x s env)) e ∙ write-like x s env ∙ v),
        tt,
      );
    }

    active_absurd :
        (p : PhiNode) → not (is_tracked p.node params) || p.shadow_name ≡ true → ¬ IsActive params p
    active_absurd p skipped (tracked, shadow, lit) =
        true_ne_false (sym skipped ∙ both _ _ tracked shadow)
      where
        both : (a b : Bool) → a ≡ true → b ≡ false → not a || b ≡ false
        both a b h k = ground arith

    source-old :
        (p : PhiNode) (k : Lit) (y : Var)
        → find_old p.incoming olds ≡ some y
        → source p k ≡ like k y
    source-old p k y e = rw (e, source) refl

    source-new : (p : PhiNode) (k : Lit) → find_old p.incoming olds ≡ none → source p k ≡ k
    source-new p k e = rw (e, source) refl

    havocked :
        (p : PhiNode) (l : Lit) (x : Var) (env : Env)
        → find_lit p.node fin.cache ≡ some l
        → get_var l ≡ some x
        → ¬ IsActive params p
        → IsMove env (p ∷ []) (havoc_stmt x ∷ [])
    unfolding run exec
    havocked p l x env hl hx inactive = record {
      after = havoc_var μ x env;
      runs = refl;
      frame = λ m (clear, rest). havoc_var-IsApart μ x m env (clear l x hl hx);
      moved = (λ active. absurd (inactive active), tt);
    }

    -- The round for a value without an old version, from the state `st` after the node's literal.
    incoming_moves :
        (p : PhiNode) (l : Lit) (x : Var) (st : LitState)
        → get_var l ≡ some x
        → find_old p.incoming olds ≡ none
        → Asks vfac params st (assign_incoming vfac params x p.incoming st).1
          × ((env : Env)
              → Extends (assign_incoming vfac params x p.incoming st).1 fin
              → find_lit p.node fin.cache ≡ some l
              → type_of p.incoming ≡ type_of p.node
              → Ready env p
              → IsMove env (p ∷ []) (assign_incoming vfac params x p.incoming st).0)
    unfolding assign_incoming
    incoming_moves p l x st hx missing = elim (Option-cases (get_lit vfac params p.incoming st).0) [
      | inl e ↦
          rw (e, assign_incoming)
            (
              ask p.incoming st _ (asked _),
              λ env ext hl tp ready.
                  havocked p l x env hl hx
                    (λ (tracked, shadow, lit). get_lit-some vfac params p.incoming st lit e),
            )
      | inr (k, e) ↦
          rw (e, assign_incoming)
            (
              ask p.incoming st _ (asked _),
              λ env ext hl tp ready.
                  let hk : find_lit p.incoming fin.cache ≡ some k =
                    ext p.incoming k (find_lit-get_lit vfac params p.incoming st k e) in
                  assigned p l k x env hl hx (λ active. (
                    k,
                    hk,
                    same_class p l k x tp hl hk hx,
                    sym (ap (value_of env) (source-new p k missing)) ∙ ready active k hk,
                  )),
            )
    ]

    -- One round: the literals it asks for, and what its statements do once all literals are there.
    round_moves :
        (p : PhiNode) (st : LitState)
        → HasVars vfac params st
        → IsRegNode p
        → (r : List Stmt × LitState) × (assign_phi vfac params olds p st ≡ some r)
          × Asks vfac params st r.1
          × ((env : Env) → Extends r.1 fin → IsGood p → Ready env p → IsMove env (p ∷ []) r.0)
    round_moves p st vars reg = elim (assign_phi-Round vfac params olds p st reg vars) [
      | inl (skipped, e) ↦ (
        ([], st),
        e,
        asked st,
        λ env ext good ready. record {
          after = env;
          runs = unfold run in refl;
          frame = λ m clear. refl;
          moved = (λ active. absurd (active_absurd p skipped active), tt);
        },
      )
      | inr (l, x, tracked, shadow, hl, hx, inl (y, found, e)) ↦
          let (k, hk) = cached p.incoming y found in
          (
            (assign_old vfac params p.node x y, (get_lit vfac params p.node st).1),
            e,
            ask p.node st _ (asked _),
            λ env ext (rp, inp, tp, cp) ready.
                rw
                  (assign_old_lem vfac params p.node p.incoming x y k tp tracked
                    (valid.typed p.incoming k hk))
                  (let hn : find_lit p.node fin.cache ≡ some l =
                      ext p.node l (find_lit-get_lit vfac params p.node st l hl) in
                    assigned p l (like k y) x env hn hx (λ active. (
                      k,
                      hk,
                      same_class p l k x tp hn hk hx ∙ sym (like-like k y x),
                      sym (ap (value_of env) (source-old p k y found)) ∙ ready active k hk,
                    ))),
          )
      | inr (l, x, tracked, shadow, hl, hx, inr (missing, e)) ↦
          let (asks, moves) = incoming_moves p l x (get_lit vfac params p.node st).1 hx missing in
          (
            assign_incoming vfac params x p.incoming (get_lit vfac params p.node st).1,
            e,
            ask p.node st _ asks,
            λ env ext (rp, inp, tp, cp) ready.
                moves env ext
                  (ext p.node l (
                    Asks-Extends vfac params _ _ asks p.node l
                      (find_lit-get_lit vfac params p.node st l hl)))
                  tp ready,
          )
    ]

    -- What the others read stays, and so does what was moved.
    Ready-after :
        (p : PhiNode) (env : Env) (ps : List PhiNode) (code : List Stmt)
        → (move : IsMove env (p ∷ []) code) → IsGood p
        → All IsGood ps
        → All (Ready env) ps
        → All (Ready move.after) ps
    Ready-after p env [] code move good goods readies = tt
    Ready-after p env (q ∷ ps) code move good (g, goods) (r, readies) = (
      λ active k hk.
          move.frame (source q k) (source-IsClear p q k good g active hk, tt) ∙ r active k hk,
      Ready-after p env ps code move good goods readies,
    )

    IsClear-of :
        (p : PhiNode) (l : Lit) (ps : List PhiNode)
        → find_lit p.node fin.cache ≡ some l
        → All (λ q. p.node ≢ q.node) ps
        → All (IsClear l) ps
    IsClear-of p l [] hl ne = tt
    IsClear-of p l (q ∷ ps) hl (d, ne) = (
      λ k x hk hx y hy same. d (sym (valid.distinct q.node p.node k l x y hk hl hx hy same)),
      IsClear-of p l ps hl ne,
    )

    -- The whole loop.
    pub phis-IsMove :
        (ps : List PhiNode) (st : LitState)
        → HasVars vfac params st
        → All IsRegNode ps
        → (r : List Stmt × LitState) × (assign_phis vfac params olds ps st ≡ some r)
          × Asks vfac params st r.1
          × ((env : Env)
              → Extends r.1 fin
              → All IsGood ps
              → AreDistinct ps
              → All (Ready env) ps
              → IsMove env ps r.0)
    unfolding assign_phis
    phis-IsMove [] st vars regs = (
      ([], st),
      refl,
      asked st,
      λ env ext goods distinct readies. record {
        after = env;
        runs = unfold run in refl;
        frame = λ m clear. refl;
        moved = tt;
      },
    )
    phis-IsMove (p ∷ ps) st vars (reg, regs) =
        let (r, e, asks, first) = round_moves p st vars reg in
        let vars' : HasVars vfac params r.1 =
          Asks-keeps vfac params (HasVars vfac params)
            (λ v mid h. get_lit-HasVars vfac params v mid h) st r.1 asks vars in
        let (r', e', asks', rest) = phis-IsMove ps r.1 vars' regs in
        (
          (r.0 ++ r'.0, r'.1),
          rw e (rw e' refl),
          Asks-trans vfac params st r.1 r'.1 asks asks',
          λ env ext (good, goods) (ne, distinct) (ready, readies).
              chain p ps r.0 r'.0 env
                (first env (λ v l h. ext v l (Asks-Extends vfac params r.1 r'.1 asks' v l h)) good
                  ready)
                (λ move.
                  rest move.after ext goods distinct
                    (Ready-after p env ps r.0 move good goods readies))
                ne,
        )
      where
        chain :
            (p : PhiNode) (ps : List PhiNode) (code more : List Stmt) (env : Env)
            → (move : IsMove env (p ∷ []) code)
            → ((move : IsMove env (p ∷ []) code) → IsMove move.after ps more)
            → All (λ q. p.node ≢ q.node) ps
            → IsMove env (p ∷ ps) (code ++ more)
        chain p ps code more env move next ne =
            let later = next move in
            record {
              after = later.after;
              runs = run-append μ code more env move.after move.runs ∙ later.runs;
              frame = λ m (clear, others). later.frame m others ∙ move.frame m (clear, tt);
              moved = (
                λ active.
                    let (l, k, hl, hk, v) = move.moved.0 active in
                    (l, k, hl, hk, later.frame l (IsClear-of p l ps hl ne) ∙ v),
                later.moved,
              );
            }
