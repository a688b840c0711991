-- ===== src/Devirt/DsaResolver.antt =====
-- About CallSiteResolverByDsa: which targets it keeps for a call site.
pub mod Intersection
use Prim.Native.Nat.{compare, Ordering}
use crab_llvm.Prelude.{
  ℕ, ◌≤◌, ◌<◌, ◌≡◌, ◌⊎◌, inl, inr, refl, sym, ap, ◌∙◌, Bool, true, false, ◌&&◌, ◌||◌, some, List,
  [], ◌∷◌, ◌==◌, leb, length, Bool-cases, Option-cases, ==_iff, arith, some_inj, subst,
}
use mathlib.Core.List.{Memᴰ}
use mathlib.Core.List.Memᴰ
use crab_llvm.Devirt.{
  Function, CallSite, has, is_indirect_call, insert_sorted, type_alias_id, type_targets,
  populate_type_alias_sets, Dsa, Settings, DevirtStats, Resolved, sort, set_intersection,
  find_instruction, insert_new, Verdict, refine, refined_targets, verdict, record_verdict,
  resolve_all, dsa_targets,
}
use crab_llvm.Devirt.AliasSets.{functions_of_found, functions_of, populate_type_alias_sets-exact}
use crab_llvm.Devirt.Sorted.{IsSorted, insert_sorted-IsSorted}
use crab_llvm.Devirt.DsaResolver.Intersection.{has-sort, sort-IsSorted, has-set_intersection}

-- What the verdict on a call site says, where it is resolved.
pub record IsRefined (dsa : Dsa) (settings : Settings) (types : List (ℕ × List Function))
    (cs : CallSite) (fs : List Function) : Type 0 where
  pub indirect : is_indirect_call cs ≡ true
  pub allowed : settings.allow_incomplete || dsa.is_complete cs ≡ true
  pub some_target : 0 < length fs
  pub bounded : length fs ≤ settings.max_num_targets
  pub both :
      (a : ℕ)
      → has a fs ≡ has a (dsa.targets cs) && has a (functions_of (type_alias_id cs true) types)

unresolved_ne : (fs : List Function) → ¬ (Verdict.type_unresolved ≡ Verdict.resolved fs)
unresolved_ne fs h = ground arith

dsa_unresolved_ne : (fs : List Function) → ¬ (Verdict.dsa_unresolved ≡ Verdict.resolved fs)
dsa_unresolved_ne fs h = ground arith

skipped_ne : (fs : List Function) → ¬ (Verdict.skipped ≡ Verdict.resolved fs)
skipped_ne fs h = ground arith

resolved_inj : (fs gs : List Function) → Verdict.resolved fs ≡ Verdict.resolved gs → fs ≡ gs
resolved_inj fs gs h = cc

le_of_leb : (m n : ℕ) → leb m n ≡ true → m ≤ n
le_of_leb m n h = ground arith

refine_lem :
    (max : ℕ) (gs fs : List Function)
    → refine max gs ≡ Verdict.resolved fs
    → (gs ≡ fs) × (0 < length fs) × (length fs ≤ max)
unfolding refine
refine_lem max [] fs h = absurd (unresolved_ne fs h)
refine_lem max (g ∷ gs) fs h = elim (Bool-cases (leb (length (g ∷ gs)) max)) [
  | inl small ↦
      let same = resolved_inj (g ∷ gs) fs (rw small at h) in
      (
        same,
        subst (λ l. 0 < length l) same (omega arith),
        subst (λ l. length l ≤ max) same (le_of_leb _ _ small),
      )
  | inr large ↦ absurd (dsa_unresolved_ne fs (rw large at h))
]

refined_targets_lem :
    (dsa : Dsa) (settings : Settings) (types : List (ℕ × List Function)) (cs : CallSite)
    (ds fs : List Function)
    → ((t : ℕ) → IsSorted (functions_of t types))
    → refined_targets dsa settings types cs ds ≡ Verdict.resolved fs
    → (0 < length fs)
      × (length fs ≤ settings.max_num_targets)
      × ((a : ℕ) → has a fs ≡ has a ds && has a (functions_of (type_alias_id cs true) types))
unfolding refined_targets
refined_targets_lem dsa settings types cs [] fs sorted h = absurd (dsa_unresolved_ne fs h)
refined_targets_lem dsa settings types cs (d ∷ ds) fs sorted h =
    elim (Option-cases (type_targets types cs)) [
      | inl unknown ↦ absurd (unresolved_ne fs (rw (refined_targets, unknown) at h))
      | inr (ts, known) ↦
          let (same, positive, small) =
            refine_lem settings.max_num_targets (set_intersection (sort (d ∷ ds)) ts) fs
              (rw (refined_targets, known) at h) in
          let at_type =
            functions_of_found (type_alias_id cs true) types ts (unfold type_targets in known) in
          (
            positive,
            small,
            λ a.
                ap (has a) (sym same)
                ∙ has-set_intersection a (sort (d ∷ ds)) ts (sort-IsSorted (d ∷ ds))
                    (subst IsSorted at_type (sorted (type_alias_id cs true)))
                ∙ (rw (has-sort a (d ∷ ds), at_type) refl),
          )
    ]

find_first :
    (i j : ℕ) (gs fs : List Function) (map : List (ℕ × List Function))
    → find_instruction i ((j, gs) ∷ map) ≡ some fs
    → (find_instruction i map ≡ some fs) ⊎ ((j ≡ i) × (Verdict.resolved gs ≡ Verdict.resolved fs))
unfolding find_instruction
find_first i j gs fs map h = elim (Bool-cases (i == j)) [
  | inl same ↦ inr (sym ((==_iff i j).0 same), ap Verdict.resolved (some_inj _ _ (rw same at h)))
  | inr other ↦ inl (rw other at h)
]

not_in_empty : (i : ℕ) (fs : List Function) → ¬ (find_instruction i [] ≡ some fs)
unfolding find_instruction
not_in_empty i fs h = ground arith

module _ (dsa : Dsa) (settings : Settings) (types : List (ℕ × List Function)) where
  verdict_lem :
      (cs : CallSite) (fs : List Function)
      → ((t : ℕ) → IsSorted (functions_of t types))
      → verdict dsa settings types cs ≡ Verdict.resolved fs
      → IsRefined dsa settings types cs fs
  unfolding verdict
  verdict_lem cs fs sorted h = elim (Bool-cases (is_indirect_call cs)) [
    | inr direct ↦ absurd (skipped_ne fs (rw (verdict, direct) at h))
    | inl indirect ↦ elim (Bool-cases (settings.allow_incomplete || dsa.is_complete cs)) [
      | inr incomplete ↦ absurd (dsa_unresolved_ne fs (rw (verdict, indirect, incomplete) at h))
      | inl allowed ↦
          let (positive, small, both) =
            refined_targets_lem dsa settings types cs (dsa.targets cs) fs sorted
              (rw (verdict, indirect, allowed) at h) in
          record {
            indirect = indirect;
            allowed = allowed;
            some_target = positive;
            bounded = small;
            both = both;
          }
    ]
  ]

  -- What one verdict adds to the map.
  record_cases :
      (i j : ℕ) (v : Verdict) (r : Resolved) (fs : List Function)
      → find_instruction i (record_verdict dsa settings types j v r).targets_map ≡ some fs
      → (find_instruction i r.targets_map ≡ some fs) ⊎ ((j ≡ i) × (v ≡ Verdict.resolved fs))
  unfolding record_verdict
  record_cases i j Verdict.skipped r fs h = inl h
  record_cases i j Verdict.dsa_unresolved r fs h = inl h
  record_cases i j Verdict.type_unresolved r fs h = inl h
  record_cases i j (Verdict.resolved gs) r fs h =
      elim (Option-cases (find_instruction j r.targets_map)) [
        | inl unknown ↦ find_first i j gs fs r.targets_map (rw (insert_new, unknown) at h)
        | inr (old, known) ↦ inl (rw (insert_new, known) at h)
      ]

  resolve_all_cases :
      (sites : List CallSite) (i : ℕ) (r : Resolved) (fs : List Function)
      → find_instruction i (resolve_all dsa settings types sites r).targets_map ≡ some fs
      → (find_instruction i r.targets_map ≡ some fs)
        ⊎ ((cs : CallSite) × Memᴰ cs sites
            × (cs.instruction ≡ i)
            × (verdict dsa settings types cs ≡ Verdict.resolved fs))
  unfolding resolve_all
  resolve_all_cases [] i r fs h = inl h
  resolve_all_cases (cs ∷ sites) i r fs h =
      elim (resolve_all_cases sites i
        (record_verdict dsa settings types cs.instruction (verdict dsa settings types cs) r) fs h) [
          | inr (cs', m, same, e) ↦ inr (cs', Memᴰ.tail m, same, e)
          | inl found ↦
              elim (record_cases i cs.instruction (verdict dsa settings types cs) r fs found) [
                | inl old ↦ inl old
                | inr (same, e) ↦ inr (cs, Memᴰ.head refl, same, e)
              ]
        ]

  -- Where a call site is known by its instruction, and the sets by types are those of the module:
  -- the targets that the constructor keeps for it are one at least and no more than the bound, and
  -- an address is among them exactly if the pointer analysis and the set of its type both have it;
  -- and the call site is indirect, and complete unless incomplete ones are allowed.
  pub resolve_all-IsRefined :
      (m : List Function) (sites : List CallSite) (stats : DevirtStats) (cs : CallSite)
      (fs : List Function)
      → types ≡ populate_type_alias_sets m
      → ((cs' : CallSite) → Memᴰ cs' sites → cs'.instruction ≡ cs.instruction → cs' ≡ cs)
      → dsa_targets
          (resolve_all dsa settings types sites
            (record { targets_map = []; stats = stats })).targets_map
          cs
        ≡ some fs
      → IsRefined dsa settings types cs fs
  unfolding dsa_targets
  resolve_all-IsRefined m sites stats cs fs populated unique h =
      elim (resolve_all_cases sites cs.instruction (record { targets_map = []; stats = stats }) fs
        h) [
          | inl old ↦ absurd (not_in_empty cs.instruction fs old)
          | inr (cs', n, same, e) ↦
              verdict_lem cs fs
                (λ t.
                  subst (λ map. IsSorted (functions_of t map)) (sym populated)
                    (populate_type_alias_sets-exact m t).0)
                (subst (λ c. verdict dsa settings types c ≡ Verdict.resolved fs) (unique cs' n same)
                  e)
        ]
