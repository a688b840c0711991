-- ===== src/Devirt/ByTypes.antt =====
-- CallSiteResolverByTypes
use text.Mathlib.Text.{◌==◌ as same_name, starts_with}
use crab_llvm.Prelude.{
  ℕ, Bool, true, false, not, ◌&&◌, Option, none, some, List, [], ◌∷◌, ◌==◌, if◌then◌else◌, ltb,
}
use crab_llvm.Devirt.Defs.{Function, CallSite, type_alias_id}

-- The functions that an indirect call may have as its target.
unfoldable pub is_candidate : Function → Bool
is_candidate f =
    not f.is_intrinsic
    && (not (f.has_local_linkage && not f.has_address_taken)
        && (not f.is_declaration
            && (not (starts_with f.name "seahorn.")
                && (not (starts_with f.name "verifier.") && not (same_name f.name "main")))))

-- upper_bound and insert
unfoldable pub insert_sorted : Function → List Function → List Function
insert_sorted f [] = f ∷ []
insert_sorted f (g ∷ gs) =
    let rest = insert_sorted f gs in if ltb f.address g.address then f ∷ g ∷ gs else g ∷ rest

-- m_targets_map as an association list.
unfoldable pub find_targets : ℕ → List (ℕ × List Function) → Option (List Function)
find_targets t [] = none
find_targets t ((u, fs) ∷ rest) = if t == u then some fs else find_targets t rest

unfoldable pub add_target : ℕ → Function → List (ℕ × List Function) → List (ℕ × List Function)
unfolding insert_sorted
add_target t f [] = (t, f ∷ []) ∷ []
add_target t f ((u, fs) ∷ rest) =
    let others = add_target t f rest in
    if t == u then (u, insert_sorted f fs) ∷ rest else (u, fs) ∷ others

unfoldable pub populate_from : List Function → List (ℕ × List Function) → List (ℕ × List Function)
unfolding is_candidate add_target
populate_from [] map = map
populate_from (f ∷ fs) map =
    if is_candidate f
    then populate_from fs (add_target f.pointer_type f map)
    else populate_from fs map

unfoldable pub populate_type_alias_sets : List Function → List (ℕ × List Function)
unfolding populate_from
populate_type_alias_sets m = populate_from m []

-- getTargets
unfoldable pub type_targets : List (ℕ × List Function) → CallSite → Option (List Function)
unfolding type_alias_id find_targets
type_targets map cs = find_targets (type_alias_id cs true) map

-- m_bounce_map, and the functions that read and fill it.
unfoldable pub find_bounce : ℕ → List (ℕ × ℕ) → Option ℕ
find_bounce t [] = none
find_bounce t ((u, b) ∷ rest) = if t == u then some b else find_bounce t rest

unfoldable pub type_bounce : List (ℕ × ℕ) → CallSite → Option ℕ
unfolding type_alias_id find_bounce
type_bounce cache cs = find_bounce (type_alias_id cs false) cache

-- A key that is in the map keeps its value.
unfoldable pub cache_type_bounce : List (ℕ × ℕ) → CallSite → ℕ → List (ℕ × ℕ)
unfolding type_alias_id find_bounce
cache_type_bounce cache cs b = elim (find_bounce (type_alias_id cs false) cache) [
  | none ↦ (type_alias_id cs false, b) ∷ cache
  | some old ↦ cache
]
