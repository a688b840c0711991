-- ===== src/PathAnalyzer/Slicing.antt =====
-- About the slice: what it keeps, and its runs.
use crab_llvm.Prelude.{
  ℕ, ◌≡◌, ◌↔◌, ◌⊎◌, inl, inr, refl, sym, ◌∙◌, Bool, true, false, not, ◌&&◌, ◌||◌, Option, none,
  some, List, [], ◌∷◌, ◌++◌, ◌>>=◌, ==_refl, Option-cases, Bool-cases, All, arith, get_elem?,
}
use mathlib.Core.List.{reverse, reverse-reverse}
use crab_llvm.PathAnalyzer.{
  Statement, Wrapper, Cfg, find_false, remove_irrelevant_statements, is_assume, is_bool_assume,
  member, meets, difference, is_empty, relevance, slice, find_from_end, slice_from,
}

-- Sets of variables as lists.
member-append : (x : ℕ) (xs ys : List ℕ) → member x (xs ++ ys) ≡ member x xs || member x ys
unfolding member
member-append x [] ys = refl
member-append x (y ∷ xs) ys = ground (arith, member-append x xs ys)

member-difference :
    (x : ℕ) (xs ys : List ℕ) → member x (difference xs ys) ≡ member x xs && not (member x ys)
unfolding difference member
member-difference x [] ys = refl
member-difference x (y ∷ xs) ys = ground (arith, member-difference x xs ys)

not-meets :
    (x : ℕ) (xs ys : List ℕ) → meets xs ys ≡ false → member x xs ≡ true → member x ys ≡ false
unfolding meets member
not-meets x [] ys h m = ground arith
not-meets x (y ∷ xs) ys h m = ground (arith, not-meets x xs ys)

-- What a statement that is kept adds to the variables of interest.
relevance_covers :
    (s : Statement) (d d' : List ℕ) (x : ℕ)
    → relevance false s d ≡ some d'
    → (member x s.uses ≡ true → member x d' ≡ true)
      × (member x d ≡ true → member x s.defs ≡ false → member x d' ≡ true)
unfolding relevance
relevance_covers s d d' x h = ground (
  arith,
  member-append x s.uses d,
  member-append x s.uses (difference d s.defs),
  member-difference x d s.defs,
)

-- A statement that is left out.
relevance-none :
    (s : Statement) (d : List ℕ)
    → relevance false s d ≡ none
    → (is_empty s.defs && not (is_empty s.uses) ≡ false) × (meets d s.defs ≡ false)
unfolding relevance
relevance-none s d h = ground arith

-- No assume(false).
abbrev pub IsFeasibleKind : Wrapper → Type 0
IsFeasibleKind w = is_assume w.stmt.kind && w.stmt.contradiction ≡ false

-- The slice from the last statement of the path.
slice_from_last :
    (w : Wrapper) (earlier core' : List Wrapper)
    → slice_from false (w ∷ earlier) w.stmt ≡ some (core', false)
    → (core' ≡ reverse (w ∷ slice false earlier w.stmt.criteria)) ⊎ (core' ≡ reverse (w ∷ earlier))
unfolding slice_from find_from_end
slice_from_last w earlier core' h =
    elim (Bool-cases (is_assume w.stmt.kind || is_bool_assume w.stmt.kind)) [
      | inl yes_assume ↦ inl (cc (rw (yes_assume, ==_refl w.stmt.address) at h))
      | inr no_assume ↦ inr (cc (rw no_assume at h))
    ]

core_cases :
    (cfg : Cfg) (core core' earlier : List Wrapper) (w v : Wrapper) (bottom_stmt : ℕ)
    → reverse core ≡ w ∷ v ∷ earlier
    → get_elem? (cfg.node w.parent) bottom_stmt ≡ some w.stmt
    → remove_irrelevant_statements cfg core bottom_stmt false ≡ some (core', false)
    → (core' ≡ reverse (w ∷ slice false (v ∷ earlier) w.stmt.criteria))
      ⊎ (core' ≡ reverse (w ∷ v ∷ earlier))
unfolding remove_irrelevant_statements
core_cases cfg core core' earlier w v bottom_stmt e at h =
    elim (Option-cases (find_false (reverse (cfg.node w.parent)))) [
      | inl nothing ↦
          slice_from_last w (v ∷ earlier) core'
            (rw (e, remove_irrelevant_statements, nothing, at) at h)
      | inr (s, found) ↦ absurd (ne (rw (e, remove_irrelevant_statements, found) at h))
    ]
  where
    ne :
        {c : List Wrapper}
        → ¬ (◌≡◌ {A = Option (List Wrapper × Bool)} (some (c, true)) (some (core', false)))
    ne h = ground arith

-- A concrete meaning of statements: none where the statement blocks.
module _ {V : Type 0} (step : Statement → (ℕ → V) → Option (ℕ → V)) where
  abbrev pub Agree : List ℕ → (ℕ → V) → (ℕ → V) → Type 0
  Agree d σ τ = (x : ℕ) → member x d ≡ true → σ x ≡ τ x

  -- Both block, or both go on to states that agree on `d`.
  pub data SameOutcome (d : List ℕ) : Option (ℕ → V) → Option (ℕ → V) → Type 0 where
    block : SameOutcome d none none
    go_on : (σ τ : ℕ → V) → Agree d σ τ → SameOutcome d (some σ) (some τ)

  -- What a statement's uses and definitions say: it changes what it defines and nothing else, reads
  -- what it uses and nothing else, and blocks only if it defines nothing and uses something, or is
  -- assume(false).
  pub record IsMeaning : Type 0 where
    pub frame :
        (s : Statement) (σ σ' : ℕ → V) (x : ℕ)
        → step s σ ≡ some σ'
        → member x s.defs ≡ false
        → σ' x ≡ σ x
    pub local :
        (s : Statement) (σ τ : ℕ → V) → Agree s.uses σ τ → SameOutcome s.defs (step s σ) (step s τ)
    pub total :
        (s : Statement) (σ : ℕ → V)
        → is_assume s.kind && s.contradiction ≡ false
        → is_empty s.defs && not (is_empty s.uses) ≡ false
        → (σ' : ℕ → V) × (step s σ ≡ some σ')

  -- Runs statements that are given latest first.
  unfoldable pub run_back : List Wrapper → (ℕ → V) → Option (ℕ → V)
  run_back [] σ = some σ
  run_back (w ∷ earlier) σ = do σ' ← run_back earlier σ; step w.stmt σ'

  module _ (meaning : IsMeaning) where
    open meaning use {frame, local, total}

    -- A statement that is kept: agreement on the variables before it gives agreement behind it.
    kept_step :
        (s : Statement) (d d' : List ℕ) (σ τ : ℕ → V)
        → relevance false s d ≡ some d'
        → Agree d' σ τ
        → SameOutcome d (step s σ) (step s τ)
    kept_step s d d' σ τ h agree =
        combine (step s σ) (step s τ) refl refl
          (local s σ τ (λ x m. agree x ((relevance_covers s d d' x h).0 m)))
      where
        behind :
            (σ' τ' : ℕ → V)
            → step s σ ≡ some σ'
            → step s τ ≡ some τ'
            → Agree s.defs σ' τ'
            → Agree d σ' τ'
        behind σ' τ' e f same x m = elim (Bool-cases (member x s.defs)) [
          | inl defined ↦ same x defined
          | inr other ↦
              frame s σ σ' x e other
              ∙ agree x ((relevance_covers s d d' x h).1 m other)
              ∙ sym (frame s τ τ' x f other)
        ]

        combine :
            (o p : Option (ℕ → V))
            → step s σ ≡ o
            → step s τ ≡ p
            → SameOutcome s.defs o p
            → SameOutcome d o p
        combine o p e f block = block
        combine o p e f (go_on σ' τ' same) = go_on σ' τ' (behind σ' τ' e f same)

    -- A statement that is left out does not block and changes nothing of interest.
    dropped_step :
        (s : Statement) (d : List ℕ) (σ τ : ℕ → V)
        → is_assume s.kind && s.contradiction ≡ false
        → relevance false s d ≡ none
        → Agree d σ τ
        → SameOutcome d (step s σ) (some τ)
    dropped_step s d σ τ ok h agree =
        let (goes_on, apart) = relevance-none s d h in
        let (σ', e) = total s σ ok goes_on in
        rw e (go_on σ' τ (λ x m. frame s σ σ' x e (not-meets x d s.defs apart m) ∙ agree x m))

    -- The slice blocks where the whole does, and otherwise they agree on the variables of interest.
    slice-SameOutcome :
        (ws : List Wrapper) (d : List ℕ) (σ : ℕ → V)
        → All IsFeasibleKind ws
        → SameOutcome d (run_back ws σ) (run_back (slice false ws d) σ)
    unfolding run_back slice
    slice-SameOutcome [] d σ ok = go_on σ σ (λ x m. refl)
    slice-SameOutcome (w ∷ earlier) d σ ok = elim (Option-cases (relevance false w.stmt d)) [
      | inl dropped ↦
          rw (dropped, slice)
            (after_dropped (run_back earlier σ) (run_back (slice false earlier d) σ) dropped
              (slice-SameOutcome earlier d σ ok.1))
      | inr (d', kept) ↦
          rw (kept, slice)
            (after_kept (run_back earlier σ) (run_back (slice false earlier d') σ) kept
              (slice-SameOutcome earlier d' σ ok.1))
    ]
      where
        after_dropped :
            (o p : Option (ℕ → V))
            → relevance false w.stmt d ≡ none
            → SameOutcome d o p
            → SameOutcome d (do σ' ← o; step w.stmt σ') p
        after_dropped o p h block = block
        after_dropped o p h (go_on σ' τ agree) = dropped_step w.stmt d σ' τ ok.0 h agree

        after_kept :
            (o p : Option (ℕ → V)) {d' : List ℕ}
            → relevance false w.stmt d ≡ some d'
            → SameOutcome d' o p
            → SameOutcome d (do σ' ← o; step w.stmt σ') (do σ' ← p; step w.stmt σ')
        after_kept o p h block = block
        after_kept o p h (go_on σ' τ agree) = kept_step w.stmt d _ σ' τ h agree

  -- Runs statements from first to last.
  unfoldable pub run : List Wrapper → (ℕ → V) → Option (ℕ → V)
  unfolding run_back
  run ws σ = run_back (reverse ws) σ

  module _ (meaning : IsMeaning) where
    SameOutcome-none :
        (d : List ℕ) (o p : Option (ℕ → V)) → SameOutcome d o p → (p ≡ none) ↔ (o ≡ none)
    SameOutcome-none d o p block = (λ h. h, λ h. h)
    SameOutcome-none d o p (go_on σ τ h) =
        (λ e. absurd (some_ne_none τ e), λ e. absurd (some_ne_none σ e))
      where
        some_ne_none : (σ : ℕ → V) → ¬ (some σ ≡ none)
        some_ne_none σ e = ground arith

    -- The last statement is kept, and blocks behind the slice where it blocks behind the whole.
    slice_last :
        (w : Wrapper) (earlier : List Wrapper) (σ : ℕ → V)
        → All IsFeasibleKind earlier
        → ((x : ℕ) → member x w.stmt.uses ≡ true → member x w.stmt.criteria ≡ true)
        → (run_back (w ∷ slice false earlier w.stmt.criteria) σ ≡ none)
          ↔ (run_back (w ∷ earlier) σ ≡ none)
    unfolding run_back
    slice_last w earlier σ ok covered = SameOutcome-none w.stmt.defs _ _ (
        last_step (run_back earlier σ) (run_back (slice false earlier w.stmt.criteria) σ)
          (slice-SameOutcome meaning earlier w.stmt.criteria σ ok))
      where
        last_step :
            (o p : Option (ℕ → V))
            → SameOutcome w.stmt.criteria o p
            → SameOutcome w.stmt.defs (do σ' ← o; step w.stmt σ') (do σ' ← p; step w.stmt σ')
        last_step o p block = block
        last_step o p (go_on σ' τ agree) = meaning.local w.stmt σ' τ (λ x m. agree x (covered x m))

    -- Where the path's last statement is the one at which bottom was found, what is kept under data
    -- and control dependencies is infeasible from exactly the states from which the whole is: for
    -- any meaning of the statements that fits their uses and definitions, without an assume(false)
    -- before the last statement, and with the criteria covering what the last statement uses.
    pub remove_irrelevant_statements-infeasible :
        (cfg : Cfg) (core core' earlier : List Wrapper) (w v : Wrapper) (bottom_stmt : ℕ)
        (σ : ℕ → V)
        → reverse core ≡ w ∷ v ∷ earlier
        → get_elem? (cfg.node w.parent) bottom_stmt ≡ some w.stmt
        → All IsFeasibleKind (v ∷ earlier)
        → ((x : ℕ) → member x w.stmt.uses ≡ true → member x w.stmt.criteria ≡ true)
        → remove_irrelevant_statements cfg core bottom_stmt false ≡ some (core', false)
        → (run core' σ ≡ none) ↔ (run core σ ≡ none)
    unfolding run
    remove_irrelevant_statements-infeasible cfg core core' earlier w v bottom_stmt σ e at ok covered
          h =
        rw e (elim (core_cases cfg core core' earlier w v bottom_stmt e at h) [
          | inl sliced ↦
              rw (sliced, reverse-reverse (w ∷ slice false (v ∷ earlier) w.stmt.criteria))
                (slice_last w (v ∷ earlier) σ ok covered)
          | inr same ↦ rw (same, reverse-reverse (w ∷ v ∷ earlier)) (λ k. k, λ k. k)
        ])
