-- ===== src/PathAnalyzer/Core.antt =====
-- About the core that minimize_path computes.
use mathlib.Core.List.{append-nil, append_assoc}
use crab_llvm.Prelude.{
  true_ne_false, ℕ, ◌≡◌, ◌⊎◌, inl, inr, refl, sym, ap, subst, ◌∙◌, true, false, none, some, List,
  [], ◌∷◌, ◌++◌, ◌>>=◌, Bool-cases,
}
use crab_llvm.PathAnalyzer.{
  Wrapper, Cfg, Domain, implies_bottom, shrink, checked, Settings, semantic_core,
  remove_irrelevant_statements, minimize_path, settings, speculation_holds,
}

-- Leaving statements out.
pub data Sub : List Wrapper → List Wrapper → Type 0 where
  nil : Sub [] []
  skip : {w : Wrapper} {xs ys : List Wrapper} → Sub xs ys → Sub xs (w ∷ ys)
  keep : {w : Wrapper} {xs ys : List Wrapper} → Sub xs ys → Sub (w ∷ xs) (w ∷ ys)

Sub-refl : (xs : List Wrapper) → Sub xs xs
Sub-refl [] = nil
Sub-refl (x ∷ xs) = keep (Sub-refl xs)

Sub-trans : {xs ys zs : List Wrapper} → Sub xs ys → Sub ys zs → Sub xs zs
Sub-trans p nil = p
Sub-trans p (skip q) = skip (Sub-trans p q)
Sub-trans (skip p) (keep q) = skip (Sub-trans p q)
Sub-trans (keep p) (keep q) = keep (Sub-trans p q)

Sub-append :
    (before : List Wrapper) {xs ys : List Wrapper} → Sub xs ys → Sub (before ++ xs) (before ++ ys)
Sub-append [] p = p
Sub-append (b ∷ before) p = keep (Sub-append before p)

Sub-drop :
    (before : List Wrapper) (w : Wrapper) (rest : List Wrapper)
    → Sub (before ++ rest) (before ++ w ∷ rest)
Sub-drop before w rest = Sub-append before (skip (Sub-refl rest))

-- Leaving one statement out.
pub data DropOne : List Wrapper → List Wrapper → Type 0 where
  here : {w : Wrapper} {xs : List Wrapper} → DropOne (w ∷ xs) xs
  there : {w : Wrapper} {xs ys : List Wrapper} → DropOne xs ys → DropOne (w ∷ xs) (w ∷ ys)

DropOne-append :
    (before : List Wrapper) (w : Wrapper) (ys : List Wrapper)
    → DropOne (before ++ w ∷ []) ys
    → (ys ≡ before) ⊎ ((b : List Wrapper) × DropOne before b × (ys ≡ b ++ w ∷ []))
DropOne-append [] w ys here = inl refl
DropOne-append [] w _ (there d) = elim d [ ]
DropOne-append (b ∷ before) w ys here = inr (before, here, refl)
DropOne-append (b ∷ before) w (c ∷ ys) (there d) = elim (DropOne-append before w ys d) [
  | inl e ↦ inl (ap (λ l. b ∷ l) e)
  | inr (b', d', e) ↦ inr (b ∷ b', there d', ap (λ l. b ∷ l) e)
]

module _ {D : Type 0} (dom : Domain D) where
  append_one :
      (before : List Wrapper) (w : Wrapper) (rest : List Wrapper)
      → (before ++ w ∷ []) ++ rest ≡ before ++ w ∷ rest
  append_one before w rest = append_assoc before (w ∷ []) rest

  -- The loop keeps a part of the statements that still implies bottom.
  shrink-implies_bottom :
      (before rest : List Wrapper)
      → implies_bottom dom (before ++ rest) ≡ true
      → implies_bottom dom (shrink dom before rest) ≡ true
  unfolding shrink
  shrink-implies_bottom before [] h = subst (λ l. implies_bottom dom l ≡ true) (append-nil before) h
  shrink-implies_bottom before (w ∷ rest) h =
      elim (Bool-cases (implies_bottom dom (before ++ rest))) [
        | inl needless ↦ rw (needless, shrink) (shrink-implies_bottom before rest needless)
        | inr needed ↦
            rw (needed, shrink)
              (shrink-implies_bottom (before ++ w ∷ []) rest
                (subst (λ l. implies_bottom dom l ≡ true) (sym (append_one before w rest)) h))
      ]

  shrink-Sub : (before rest : List Wrapper) → Sub (shrink dom before rest) (before ++ rest)
  unfolding shrink
  shrink-Sub before [] = subst (Sub before) (sym (append-nil before)) (Sub-refl before)
  shrink-Sub before (w ∷ rest) = elim (Bool-cases (implies_bottom dom (before ++ rest))) [
    | inl needless ↦
        rw (needless, shrink) (Sub-trans (shrink-Sub before rest) (Sub-drop before w rest))
    | inr needed ↦
        rw (needed, shrink)
          (subst (Sub (shrink dom (before ++ w ∷ []) rest)) (append_one before w rest)
            (shrink-Sub (before ++ w ∷ []) rest))
  ]

  shrink_needless :
      (before : List Wrapper) (w : Wrapper) (rest : List Wrapper)
      → implies_bottom dom (before ++ rest) ≡ true
      → shrink dom before (w ∷ rest) ≡ shrink dom before rest
  unfolding shrink
  shrink_needless before w rest h = rw (h, shrink) refl

  shrink_needed :
      (before : List Wrapper) (w : Wrapper) (rest : List Wrapper)
      → implies_bottom dom (before ++ rest) ≡ false
      → shrink dom before (w ∷ rest) ≡ shrink dom (before ++ w ∷ []) rest
  unfolding shrink
  shrink_needed before w rest h = rw (h, shrink) refl

  -- No statement of the list can be left out.
  abbrev pub IsMinimal : List Wrapper → Type 0
  IsMinimal ws = (ys : List Wrapper) → DropOne ws ys → implies_bottom dom ys ≡ false

  -- More statements imply bottom where fewer do.
  abbrev pub IsUpward : Type 0
  IsUpward =
      (xs ys : List Wrapper)
      → Sub xs ys
      → implies_bottom dom xs ≡ true
      → implies_bottom dom ys ≡ true

  shrink-IsMinimal :
      (before rest : List Wrapper)
      → IsUpward
      → ((ys : List Wrapper) → DropOne before ys → implies_bottom dom (ys ++ rest) ≡ false)
      → IsMinimal (shrink dom before rest)
  unfolding shrink
  shrink-IsMinimal before [] up inv ys d =
      subst (λ l. implies_bottom dom l ≡ false) (append-nil ys) (inv ys d)
  shrink-IsMinimal before (w ∷ rest) up inv zs dz =
      elim (Bool-cases (implies_bottom dom (before ++ rest))) [
        | inl needless ↦
            shrink-IsMinimal before rest up fewer zs
              (subst (λ l. DropOne l zs) (shrink_needless before w rest needless) dz)
        | inr needed ↦
            shrink-IsMinimal (before ++ w ∷ []) rest up (longer needed) zs
              (subst (λ l. DropOne l zs) (shrink_needed before w rest needed) dz)
      ]
    where
      fewer : (ys : List Wrapper) → DropOne before ys → implies_bottom dom (ys ++ rest) ≡ false
      fewer ys d = elim (Bool-cases (implies_bottom dom (ys ++ rest))) [
        | inl yes_bottom ↦ absurd (
            true_ne_false
              (sym (up (ys ++ rest) (ys ++ w ∷ rest) (Sub-drop ys w rest) yes_bottom) ∙ inv ys d))
        | inr not_bottom ↦ not_bottom
      ]

      longer :
          implies_bottom dom (before ++ rest) ≡ false
          → (ys : List Wrapper) → DropOne (before ++ w ∷ []) ys
          → implies_bottom dom (ys ++ rest) ≡ false
      longer needed ys d = elim (DropOne-append before w ys d) [
        | inl e ↦ rw e needed
        | inr (b, d', e) ↦
            rw e (subst (λ l. implies_bottom dom l ≡ false) (sym (append_one b w rest)) (inv b d'))
      ]

  semantic_core_lem :
      (flags : Settings) (core : List Wrapper)
      → implies_bottom dom core ≡ true
      → (result : List Wrapper) × (semantic_core dom flags (core, false) ≡ some result)
        × Sub result core
        × (implies_bottom dom result ≡ true)
        × (IsUpward → IsMinimal result)
  unfolding semantic_core checked
  semantic_core_lem flags core h =
      let still = shrink-implies_bottom [] core h in
      (
        shrink dom [] core,
        elim (Bool-cases flags.do_sanity_check) [
          | inl yes_check ↦ rw (yes_check, still) refl
          | inr no_check ↦ rw no_check refl
        ],
        shrink-Sub [] core,
        still,
        λ up. shrink-IsMinimal [] core up (λ ys d. elim d [ ]),
      )

  speculation_false :
      (c : List Wrapper) → dom.moved_is_bottom ≡ false → speculation_holds dom c ≡ false
  unfolding speculation_holds
  speculation_false [] moved = refl
  speculation_false (w ∷ ws) moved = moved

  module _ (cfg : Cfg) (path : List Wrapper) (bottom_stmt : ℕ) (c1 c2 : List Wrapper) where
    minimize_path_lem :
        remove_irrelevant_statements cfg path bottom_stmt true ≡ some (c1, false)
        → remove_irrelevant_statements cfg path bottom_stmt false ≡ some (c2, false)
        → dom.moved_is_bottom ≡ false
        → minimize_path dom settings cfg path bottom_stmt ≡ semantic_core dom settings (c2, false)
    unfolding minimize_path
    minimize_path_lem e1 e2 moved = rw (e1, ◌>>=◌) (rw (speculation_false c1 moved) (rw e2 refl))

    -- Where the slice under data and control dependencies, which is not just assume(false), implies
    -- bottom, the core that is computed is a part of it that still implies bottom, and, if more
    -- statements always imply bottom where fewer do, none of its statements can be left out. The
    -- value that was moved from must not count as bottom.
    pub minimize_path-IsMinimal :
        remove_irrelevant_statements cfg path bottom_stmt true ≡ some (c1, false)
        → remove_irrelevant_statements cfg path bottom_stmt false ≡ some (c2, false)
        → dom.moved_is_bottom ≡ false
        → implies_bottom dom c2 ≡ true
        → (core : List Wrapper) × (minimize_path dom settings cfg path bottom_stmt ≡ some core)
          × Sub core c2
          × (implies_bottom dom core ≡ true)
          × (IsUpward → IsMinimal core)
    minimize_path-IsMinimal e1 e2 moved h =
        rw (minimize_path_lem e1 e2 moved) (semantic_core_lem settings c2 h)

    -- Under the same conditions, but where the slice does not imply bottom, the sanity check ends
    -- the analysis with an error, if more statements always imply bottom where fewer do.
    pub minimize_path-error :
        remove_irrelevant_statements cfg path bottom_stmt true ≡ some (c1, false)
        → remove_irrelevant_statements cfg path bottom_stmt false ≡ some (c2, false)
        → dom.moved_is_bottom ≡ false
        → implies_bottom dom c2 ≡ false
        → IsUpward
        → minimize_path dom settings cfg path bottom_stmt ≡ none
    minimize_path-error e1 e2 moved h up =
        minimize_path_lem e1 e2 moved
        ∙ (unfold semantic_core checked in
            rw (not_bottom (shrink dom [] c2) (shrink-Sub [] c2)) refl)
      where
        not_bottom : (ws : List Wrapper) → Sub ws c2 → implies_bottom dom ws ≡ false
        not_bottom ws p = elim (Bool-cases (implies_bottom dom ws)) [
          | inl yes_bottom ↦ absurd (true_ne_false (sym (up ws c2 p yes_bottom) ∙ h))
          | inr other ↦ other
        ]
