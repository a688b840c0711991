-- ===== src/Devirt/AliasSets.antt =====
-- About populate_type_alias_sets and the cache of CallSiteResolverByTypes.
use crab_llvm.Prelude.{
  ℕ, ◌≡◌, ◌≢◌, ◌⊎◌, inl, inr, ◌↔◌, refl, sym, ap, ◌∙◌, true, false, none, some, List, [], ◌∷◌, ◌==◌,
  Bool-cases, ==_iff, ==_refl, true_ne_false, subst,
}
use mathlib.Core.List.{Memᴰ}
use crab_llvm.Devirt.{
  Function, is_candidate, insert_sorted, find_targets, add_target, populate_from,
  populate_type_alias_sets,
}
use crab_llvm.Devirt.Sorted.{
  IsSorted, insert_sorted-in, insert_sorted-new, insert_sorted-old, insert_sorted-IsSorted,
}

-- The functions of a type, in the map.
unfoldable pub functions_of : ℕ → List (ℕ × List Function) → List Function
functions_of t map = elim (find_targets t map) [ none ↦ [] | some fs ↦ fs ]

pub functions_of_found :
    (t : ℕ) (map : List (ℕ × List Function)) (fs : List Function)
    → find_targets t map ≡ some fs
    → functions_of t map ≡ fs
unfolding functions_of
functions_of_found t map fs h = rw (functions_of, h) refl

functions_of_here :
    (t u : ℕ) (fs : List Function) (map : List (ℕ × List Function))
    → (t == u) ≡ true
    → functions_of t ((u, fs) ∷ map) ≡ fs
unfolding functions_of find_targets
functions_of_here t u fs map h = rw (functions_of, h) refl

functions_of_later :
    (t u : ℕ) (fs : List Function) (map : List (ℕ × List Function))
    → (t == u) ≡ false
    → functions_of t ((u, fs) ∷ map) ≡ functions_of t map
unfolding functions_of find_targets
functions_of_later t u fs map h = rw (functions_of, h) refl

functions_of-nil : (t : ℕ) → functions_of t [] ≡ []
unfolding functions_of find_targets
functions_of-nil t = refl

add_target-same :
    (t : ℕ) (f : Function) (map : List (ℕ × List Function))
    → functions_of t (add_target t f map) ≡ insert_sorted f (functions_of t map)
unfolding add_target
add_target-same t f [] =
    functions_of_here t t (f ∷ []) [] (==_refl t)
    ∙ (rw (functions_of-nil t) (unfold insert_sorted in refl))
add_target-same t f ((u, fs) ∷ map) = elim (Bool-cases (t == u)) [
  | inl e ↦
      rw (e, functions_of_here t u (insert_sorted f fs) map e, functions_of_here t u fs map e) refl
  | inr e ↦
      rw (e, functions_of_later t u fs (add_target t f map) e, functions_of_later t u fs map e)
        (add_target-same t f map)
]

add_target-other :
    (t u : ℕ) (f : Function) (map : List (ℕ × List Function))
    → (t == u) ≡ false
    → functions_of t (add_target u f map) ≡ functions_of t map
unfolding add_target
add_target-other t u f [] ne = functions_of_later t u (f ∷ []) [] ne
add_target-other t u f ((v, fs) ∷ map) ne = elim (Bool-cases (u == v)) [
  | inl e ↦
      let ne' = subst (λ x. (t == x) ≡ false) ((==_iff u v).0 e) ne in
      rw (e, functions_of_later t v (insert_sorted f fs) map ne', functions_of_later t v fs map ne')
        refl
  | inr e ↦ elim (Bool-cases (t == v)) [
    | inl h ↦
        rw (e, functions_of_here t v fs (add_target u f map) h, functions_of_here t v fs map h) refl
    | inr h ↦
        rw (e, functions_of_later t v fs (add_target u f map) h, functions_of_later t v fs map h)
          (add_target-other t u f map ne)
  ]
]

-- What adding a function does to the set of a type.
add_target_cases :
    (t u : ℕ) (f : Function) (map : List (ℕ × List Function))
    → ((t ≡ u) × (functions_of t (add_target u f map) ≡ insert_sorted f (functions_of t map)))
      ⊎ ((t ≢ u) × (functions_of t (add_target u f map) ≡ functions_of t map))
add_target_cases t u f map = elim (Bool-cases (t == u)) [
  | inl e ↦
      let same = (==_iff t u).0 e in
      inl (
        same,
        subst (λ v. functions_of t (add_target v f map) ≡ insert_sorted f (functions_of t map)) same
            (add_target-same t f map),
      )
  | inr e ↦
      inr (λ same. true_ne_false (sym ((==_iff t u).1 same) ∙ e), add_target-other t u f map e)
]

-- A function of the module that belongs to the set of a type.
pub record Belongs (t : ℕ) (m : List Function) (f : Function) : Type 0 where
  pub is_in : Memᴰ f m
  pub candidate : is_candidate f ≡ true
  pub of_type : t ≡ f.pointer_type

Belongs-later : (t : ℕ) (h f : Function) (m : List Function) → Belongs t m f → Belongs t (h ∷ m) f
Belongs-later t h f m b = record {
  is_in = Memᴰ.tail b.is_in;
  candidate = b.candidate;
  of_type = b.of_type;
}

populate_from-in :
    (t : ℕ) (f : Function) (m : List Function) (map : List (ℕ × List Function))
    → Memᴰ f (functions_of t (populate_from m map))
    → Memᴰ f (functions_of t map) ⊎ Belongs t m f
unfolding populate_from
populate_from-in t f [] map n = inl n
populate_from-in t f (h ∷ m) map n = elim (Bool-cases (is_candidate h)) [
  | inl yes_candidate ↦
      elim (populate_from-in t f m (add_target h.pointer_type h map) (rw yes_candidate at n)) [
        | inr b ↦ inr (Belongs-later t h f m b)
        | inl added ↦ elim (add_target_cases t h.pointer_type h map) [
          | inr (other, e) ↦ inl (subst (Memᴰ f) e added)
          | inl (same, e) ↦
              elim (insert_sorted-in f h (functions_of t map) (subst (Memᴰ f) e added)) [
                | inr old ↦ inl old
                | inl is_h ↦ inr (record {
                  is_in = Memᴰ.head is_h;
                  candidate = ap is_candidate is_h ∙ yes_candidate;
                  of_type = same ∙ ap (λ g. g.pointer_type) (sym is_h);
                })
              ]
        ]
      ]
  | inr no_candidate ↦ elim (populate_from-in t f m map (rw no_candidate at n)) [
    | inl old ↦ inl old
    | inr b ↦ inr (Belongs-later t h f m b)
  ]
]

populate_from-old :
    (t : ℕ) (f : Function) (m : List Function) (map : List (ℕ × List Function))
    → Memᴰ f (functions_of t map)
    → Memᴰ f (functions_of t (populate_from m map))
unfolding populate_from
populate_from-old t f [] map n = n
populate_from-old t f (h ∷ m) map n = elim (Bool-cases (is_candidate h)) [
  | inl yes_candidate ↦ rw yes_candidate (
      populate_from-old t f m (add_target h.pointer_type h map)
        (elim (add_target_cases t h.pointer_type h map) [
          | inl (same, e) ↦ subst (Memᴰ f) (sym e) (insert_sorted-old f h (functions_of t map) n)
          | inr (other, e) ↦ subst (Memᴰ f) (sym e) n
        ]))
  | inr no_candidate ↦ rw no_candidate (populate_from-old t f m map n)
]

populate_from-new :
    (t : ℕ) (f : Function) (m : List Function) (map : List (ℕ × List Function))
    → Memᴰ f m
    → is_candidate f ≡ true
    → t ≡ f.pointer_type
    → Memᴰ f (functions_of t (populate_from m map))
unfolding populate_from
populate_from-new t f [] map n yes_candidate same = elim n [ ]
populate_from-new t f (h ∷ m) map (Memᴰ.head is_h) yes_candidate same =
    rw (ap is_candidate (sym is_h) ∙ yes_candidate) (
      populate_from-old t f m (add_target h.pointer_type h map)
        (elim (add_target_cases t h.pointer_type h map) [
          | inl (same', e) ↦ subst (Memᴰ f) (sym e) (
              subst (λ g. Memᴰ g (insert_sorted h (functions_of t map))) (sym is_h)
                (insert_sorted-new h (functions_of t map)))
          | inr (other, e) ↦ absurd (other (same ∙ ap (λ g. g.pointer_type) is_h))
        ]))
populate_from-new t f (h ∷ m) map (Memᴰ.tail n) yes_candidate same =
    elim (Bool-cases (is_candidate h)) [
      | inl e ↦
          rw e (populate_from-new t f m (add_target h.pointer_type h map) n yes_candidate same)
      | inr e ↦ rw e (populate_from-new t f m map n yes_candidate same)
    ]

populate_from-IsSorted :
    (t : ℕ) (m : List Function) (map : List (ℕ × List Function))
    → IsSorted (functions_of t map)
    → IsSorted (functions_of t (populate_from m map))
unfolding populate_from
populate_from-IsSorted t [] map ok = ok
populate_from-IsSorted t (h ∷ m) map ok = elim (Bool-cases (is_candidate h)) [
  | inl e ↦ rw e (
      populate_from-IsSorted t m (add_target h.pointer_type h map)
        (elim (add_target_cases t h.pointer_type h map) [
          | inl (same, e') ↦
              subst IsSorted (sym e') (insert_sorted-IsSorted h (functions_of t map) ok)
          | inr (other, e') ↦ subst IsSorted (sym e') ok
        ]))
  | inr e ↦ rw e (populate_from-IsSorted t m map ok)
]

-- The set of every type is sorted by address and has exactly the functions of the module that may
-- be called indirectly and whose pointer has this type.
pub populate_type_alias_sets-exact :
    (m : List Function) (t : ℕ)
    → IsSorted (functions_of t (populate_type_alias_sets m))
      × ((f : Function) → Memᴰ f (functions_of t (populate_type_alias_sets m)) ↔ Belongs t m f)
unfolding populate_type_alias_sets
populate_type_alias_sets-exact m t = (
  populate_from-IsSorted t m [] (rw (functions_of-nil t) (unfold IsSorted in tt)),
  λ f. (only f, λ b. populate_from-new t f m [] b.is_in b.candidate b.of_type),
)
  where
    only : (f : Function) → Memᴰ f (functions_of t (populate_from m [])) → Belongs t m f
    only f n = elim (populate_from-in t f m [] n) [
      | inl old ↦ elim (rw (functions_of-nil t) at old) [ ]
      | inr b ↦ b
    ]
