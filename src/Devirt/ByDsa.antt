-- ===== src/Devirt/ByDsa.antt =====
-- CallSiteResolverByDsa
use crab_llvm.Prelude.{
  ℕ, suc, Bool, true, false, ◌&&◌, ◌||◌, Option, none, some, List, [], ◌∷◌, ◌++◌, ◌==◌,
  if◌then◌else◌, leb, length,
}
use Prim.Native.Nat.{compare, Ordering}
use crab_llvm.Devirt.Defs.{Function, CallSite, is_indirect_call, type_alias_id}
use crab_llvm.Devirt.ByTypes.{insert_sorted, type_targets}

-- The pointer analysis: whether it knows all targets of a call site, and those that it knows.
pub record Dsa : Type 0 where
  pub is_complete : CallSite → Bool
  pub targets : CallSite → List Function

pub record Settings : Type 0 where
  pub allow_incomplete : Bool
  pub max_num_targets : ℕ

-- The counters that the construction changes.
pub record DevirtStats : Type 0 where
  pub num_dsa_unresolved : ℕ
  pub num_type_unresolved : ℕ

-- m_targets_map, by the instruction of the call site, and the counters.
pub record Resolved : Type 0 where
  pub targets_map : List (ℕ × List Function)
  pub stats : DevirtStats

-- std::sort
unfoldable pub sort : List Function → List Function
unfolding insert_sorted
sort [] = []
sort (f ∷ fs) = insert_sorted f (sort fs)

-- std::set_intersection
unfoldable pub set_intersection : List Function → List Function → List Function
set_intersection [] gs = []
set_intersection (f ∷ fs) [] = []
set_intersection (f ∷ fs) (g ∷ gs) = elim (compare f.address g.address) [
  | Ordering.lt ↦ set_intersection fs (g ∷ gs)
  | Ordering.gt ↦ set_intersection (f ∷ fs) gs
  | Ordering.eq ↦ f ∷ set_intersection fs gs
]

-- insert: a key that is in the map keeps its value.
unfoldable pub find_instruction : ℕ → List (ℕ × List Function) → Option (List Function)
find_instruction i [] = none
find_instruction i ((j, fs) ∷ rest) = if i == j then some fs else find_instruction i rest

unfoldable pub insert_new : ℕ → List Function → List (ℕ × List Function) → List (ℕ × List Function)
unfolding find_instruction
insert_new i fs map = elim (find_instruction i map) [ none ↦ (i, fs) ∷ map | some old ↦ map ]

-- What the construction makes of a call site.
pub data Verdict : Type 0 where
  skipped dsa_unresolved type_unresolved : Verdict
  resolved : List Function → Verdict

unfoldable pub refine : ℕ → List Function → Verdict
refine max [] = Verdict.type_unresolved
refine max (f ∷ fs) =
    if leb (length (f ∷ fs)) max then Verdict.resolved (f ∷ fs) else Verdict.dsa_unresolved

module _ (dsa : Dsa) (settings : Settings) (types : List (ℕ × List Function)) where
  unfoldable pub refined_targets : CallSite → List Function → Verdict
  unfolding refine set_intersection sort
  refined_targets cs [] = Verdict.dsa_unresolved
  refined_targets cs (d ∷ ds) = elim (type_targets types cs) [
    | none ↦ Verdict.type_unresolved
    | some fs ↦ refine settings.max_num_targets (set_intersection (sort (d ∷ ds)) fs)
  ]

  unfoldable pub verdict : CallSite → Verdict
  unfolding refined_targets is_indirect_call
  verdict cs =
      if is_indirect_call cs
      then (if settings.allow_incomplete || dsa.is_complete cs
          then refined_targets cs (dsa.targets cs)
          else Verdict.dsa_unresolved)
      else Verdict.skipped

  unfoldable pub record_verdict : ℕ → Verdict → Resolved → Resolved
  unfolding insert_new
  record_verdict i Verdict.skipped r = r
  record_verdict i Verdict.dsa_unresolved r = record r {
    stats = record r.stats { num_dsa_unresolved = suc r.stats.num_dsa_unresolved };
  }
  record_verdict i Verdict.type_unresolved r = record r {
    stats = record r.stats { num_type_unresolved = suc r.stats.num_type_unresolved };
  }
  record_verdict i (Verdict.resolved fs) r = record r {
    targets_map = insert_new i fs r.targets_map;
  }

  -- The calls and invokes of the module, in order.
  unfoldable pub resolve_all : List CallSite → Resolved → Resolved
  unfolding verdict record_verdict
  resolve_all [] r = r
  resolve_all (cs ∷ sites) r = resolve_all sites (record_verdict cs.instruction (verdict cs) r)

-- getTargets
unfoldable pub dsa_targets : List (ℕ × List Function) → CallSite → Option (List Function)
unfolding find_instruction
dsa_targets map cs = find_instruction cs.instruction map

-- std::equal on the range of the first list. `past_end` is what it says where it reads behind the
-- end of the second.
unfoldable pub equal_range : Bool → List Function → List Function → Bool
equal_range past_end [] gs = true
equal_range past_end (f ∷ fs) [] = past_end
equal_range past_end (f ∷ fs) (g ∷ gs) = f.address == g.address && equal_range past_end fs gs

-- m_bounce_map, and the functions that read and fill it: find gives the first entry of a key.
unfoldable find_dsa_bounce : ℕ → List (ℕ × List Function × ℕ) → Option (List Function × ℕ)
find_dsa_bounce t [] = none
find_dsa_bounce t ((u, fs, b) ∷ rest) = if t == u then some (fs, b) else find_dsa_bounce t rest

module _ (past_end : Bool) (map : List (ℕ × List Function)) where
  unfoldable matching : Option (List Function × ℕ) → Option (List Function) → Option ℕ
  unfolding equal_range
  matching none targets = none
  matching (some (cached, b)) none = none
  matching (some (cached, b)) (some fs) = if equal_range past_end cached fs then some b else none

  unfoldable pub dsa_bounce : List (ℕ × List Function × ℕ) → CallSite → Option ℕ
  unfolding matching find_dsa_bounce type_alias_id dsa_targets
  dsa_bounce cache cs =
      matching (find_dsa_bounce (type_alias_id cs false) cache) (dsa_targets map cs)

  unfoldable pub cache_dsa_bounce :
      List (ℕ × List Function × ℕ) → CallSite → ℕ → List (ℕ × List Function × ℕ)
  unfolding type_alias_id dsa_targets
  cache_dsa_bounce cache cs b = elim (dsa_targets map cs) [
    | none ↦ cache
    | some fs ↦ cache ++ (type_alias_id cs false, fs, b) ∷ []
  ]
