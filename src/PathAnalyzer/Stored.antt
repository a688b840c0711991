-- ===== src/PathAnalyzer/Stored.antt =====
-- The map that solve stores the value at the entry of a block in.
use crab_llvm.Prelude.{
  ℕ, ◌≡◌, inl, inr, refl, sym, ap, Option, none, some, List, ◌∷◌, ◌==◌, if◌then◌else◌, Option-cases,
  Bool-cases, ==_iff,
}
use crab_llvm.PathAnalyzer.{Cfg, Domain, lookup, store}

module _ {D : Type 0} where
  -- The first of two results.
  unfoldable pub or_else : Option D → Option D → Option D
  or_else none o = o
  or_else (some d) o = some d

  pub or_else_assoc : (o p q : Option D) → or_else (or_else o p) q ≡ or_else o (or_else p q)
  unfolding or_else
  or_else_assoc none p q = refl
  or_else_assoc (some d) p q = refl

  pub or_else-none : (o : Option D) → or_else o none ≡ o
  unfolding or_else
  or_else-none none = refl
  or_else-none (some d) = refl

module _ {D : Type 0} (dom : Domain D) (cfg : Cfg) where
  store_known :
      (c : ℕ) (d e : D) (map : List (ℕ × D)) → lookup c map ≡ some d → store dom cfg c e map ≡ map
  unfolding store
  store_known c d e map h = rw (store, h) refl

  store_unknown :
      (c : ℕ) (e : D) (map : List (ℕ × D))
      → lookup c map ≡ none
      → store dom cfg c e map ≡ (c, e) ∷ map
  unfolding store
  store_unknown c e map h = rw (store, h) refl

  or_else-lookup_known :
      (b c : ℕ) (d e : D) (map : List (ℕ × D))
      → lookup c map ≡ some d
      → lookup b map ≡ or_else (lookup b map) (if b == c then some e else none)
  or_else-lookup_known b c d e map h = elim (Bool-cases (b == c)) [
    | inl same ↦ rw (ap (λ x. lookup x map) ((==_iff b c).0 same), h) (unfold or_else in refl)
    | inr other ↦ rw other (sym (or_else-none (lookup b map)))
  ]

  or_else-lookup_unknown :
      (b c : ℕ) (e : D) (map : List (ℕ × D))
      → lookup c map ≡ none
      → lookup b ((c, e) ∷ map) ≡ or_else (lookup b map) (if b == c then some e else none)
  unfolding lookup
  or_else-lookup_unknown b c e map h = elim (Bool-cases (b == c)) [
    | inl same ↦ rw (same, ap (λ x. lookup x map) ((==_iff b c).0 same), h) (unfold or_else in refl)
    | inr other ↦ rw other (sym (or_else-none (lookup b map)))
  ]

  -- What is stored for a block stays, and the rest is as before.
  pub lookup-store :
      (b c : ℕ) (e : D) (map : List (ℕ × D))
      → lookup b (store dom cfg c e map) ≡ or_else (lookup b map) (if b == c then some e else none)
  lookup-store b c e map = elim (Option-cases (lookup c map)) [
    | inl unknown ↦ rw (store_unknown c e map unknown) (or_else-lookup_unknown b c e map unknown)
    | inr (d, known) ↦ rw (store_known c d e map known) (or_else-lookup_known b c d e map known)
  ]
