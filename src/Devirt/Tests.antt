-- ===== src/Devirt/Tests.antt =====
-- Tests of the bounce functions and the resolvers, and witnesses of their properties.
use crab_llvm.Prelude.{
  ℕ, ◌+◌, ◌≡◌, ◌↔◌, refl, sym, true, false, some, List, [], ◌∷◌, arith, length, get_elem?, subst,
}
use mathlib.Core.List.{Memᴰ}
use mathlib.Core.List.Memᴰ
use crab_llvm.Devirt.{
  Function, CallSite, Bounce, bounce_code, run_bounce, called, returned, type_resolver,
  populate_type_alias_sets, is_candidate, resolve_call_sites, call, invoke, Instruction,
  resolve_all, dsa_targets, dsa_bounce, DevirtStats, type_alias_id, type_targets, is_indirect_call,
}
use crab_llvm.Devirt.Dispatch.{dispatch, bounce_code-dispatch}
use crab_llvm.Devirt.Resolve.{fresh_state, resolve_call_sites-replaces, resolve_call_sites-dispatch}
use crab_llvm.Devirt.Resolve.Drain.{IsResolvable}
use crab_llvm.Devirt.Resolve.Visit.{IsCall, by_call, by_invoke}
use crab_llvm.Devirt.AliasSets.{functions_of, Belongs, populate_type_alias_sets-exact}
use crab_llvm.Devirt.Sorted.{IsSorted}
use crab_llvm.Devirt.TypeResolver.{
  IsPlain, type_resolver-IsResolver, resolve_call_sites-type_resolver, no_bounce,
}
use crab_llvm.Devirt.DsaResolver.{IsRefined, resolve_all-IsRefined}
use crab_llvm.Devirt.Sample.{
  open_file, close_file, other_type, functions, site, cast_site, code, types, sample_dsa,
  sample_settings,
}

abbrev sets : List (ℕ × List Function)
sets = populate_type_alias_sets functions

-- A call that returns nothing, with a pointer to no target, is not made, although indirect calls
-- are allowed.
void_default_test :
    run_bounce 3 (bounce_code true 7 true (close_file ∷ open_file ∷ [])) 99 ≡ some returned
unfolding bounce_code run_bounce
void_default_test = refl

sets_test :
    populate_type_alias_sets functions
    ≡ (7, close_file ∷ open_file ∷ []) ∷ (9, other_type ∷ []) ∷ []
unfolding populate_type_alias_sets
sets_test = refl

-- The targets that were cached are a part of those of the call, and count as the same.
part_test :
    dsa_bounce false ((1, close_file ∷ open_file ∷ []) ∷ []) ((7, close_file ∷ [], 0) ∷ []) site
    ≡ some 0
unfolding dsa_bounce
part_test = refl

-- The first call has other targets than the second, but gets the bounce function that is made for it.
cast_test :
    (resolve_call_sites true types
      (type_resolver sets)
      (call false site ∷ call false cast_site ∷ [])
      (fresh_state true types (type_resolver sets) [])).0.replaced
    ≡ (site, 0) ∷ (cast_site, 0) ∷ []
unfolding resolve_call_sites type_resolver populate_type_alias_sets
cast_test = refl

bounce_code-dispatch_example :
    run_bounce 3 (bounce_code true 7 true (close_file ∷ open_file ∷ [])) 10
    ≡ some (dispatch true true (close_file ∷ open_file ∷ []) 10)
bounce_code-dispatch_example = bounce_code-dispatch true 7 true (close_file ∷ open_file ∷ []) 10

populate_type_alias_sets-exact_example :
    IsSorted (functions_of 7 sets)
    × ((f : Function) → Memᴰ f (functions_of 7 sets) ↔ Belongs 7 functions f)
populate_type_alias_sets-exact_example = populate_type_alias_sets-exact functions 7

call_inj : (cs : CallSite) → call false cs ≡ call false site → cs ≡ site
call_inj cs e = cc

invoke_ne_call : (cs : CallSite) → ¬ (invoke cs ≡ call false site)
invoke_ne_call cs e = ground arith

in_code : (i : Instruction) (cs : CallSite) → Memᴰ i code → IsCall i cs → IsPlain cs
unfolding type_alias_id
in_code i cs (Memᴰ.head e) is_call = elim (subst (λ j. IsCall j cs) e is_call) [ ]
in_code i cs (Memᴰ.tail (Memᴰ.head e)) is_call = on _ (subst (λ j. IsCall j cs) e is_call) refl
  where
    on : (j : Instruction) → IsCall j cs → j ≡ call false site → IsPlain cs
    on j (by_call cs') e' = subst IsPlain (sym (call_inj cs e')) refl
    on j (by_invoke cs') e' = absurd (invoke_ne_call cs e')
in_code i cs (Memᴰ.tail (Memᴰ.tail m)) is_call = elim m [ ]

resolvable : IsResolvable true types (type_resolver sets) site
unfolding type_resolver
resolvable = record {
  fixed = refl;
  target = close_file;
  others = open_file ∷ [];
  targets = unfold populate_type_alias_sets type_targets in refl;
}

resolve_call_sites-replaces_example :
    (b : ℕ) × Memᴰ
      (site, b)
      (resolve_call_sites true types
        (type_resolver sets)
        code
        (fresh_state true types (type_resolver sets) [])).0.replaced
resolve_call_sites-replaces_example =
    resolve_call_sites-replaces true types (type_resolver sets) code
      (fresh_state true types (type_resolver sets) []) (call false site) site
      (Memᴰ.tail (Memᴰ.head refl)) (by_call site) (unfold is_indirect_call in refl) resolvable

replaced_in_test :
    Memᴰ
      (site, 0)
      (resolve_call_sites true types
        (type_resolver sets)
        code
        (fresh_state true types (type_resolver sets) [])).0.replaced
unfolding resolve_call_sites type_resolver populate_type_alias_sets
replaced_in_test = Memᴰ.head refl

resolve_call_sites-dispatch_example :
    (targets : List Function) × (bounce : Bounce) × ((type_resolver sets).get_targets site
      ≡ some targets)
    × (get_elem?
          (resolve_call_sites true types
            (type_resolver sets)
            code
            (fresh_state true types (type_resolver sets) [])).0.bounces
          0
        ≡ some bounce)
    × ((p : ℕ) → run_bounce (length targets + 1) bounce p ≡ some (dispatch true true targets p))
resolve_call_sites-dispatch_example =
    resolve_call_sites-dispatch true types (type_resolver sets) IsPlain code []
      (type_resolver-IsResolver true types sets) (λ i cs m is_call indirect. in_code i cs m is_call)
      (unfold type_resolver in no_bounce) site 0 replaced_in_test

belongs : Belongs 7 functions open_file
unfolding is_candidate
belongs = record { is_in = Memᴰ.head refl; candidate = refl; of_type = refl }

resolve_call_sites-type_resolver_example :
    (b : ℕ) × (bounce : Bounce) × (fuel : ℕ) × Memᴰ
      (site, b)
      (resolve_call_sites true types
        (type_resolver sets)
        code
        (fresh_state true types (type_resolver sets) [])).0.replaced
    × (get_elem?
          (resolve_call_sites true types
            (type_resolver sets)
            code
            (fresh_state true types (type_resolver sets) [])).0.bounces
          b
        ≡ some bounce)
    × (run_bounce fuel bounce 10 ≡ some (called 10))
resolve_call_sites-type_resolver_example =
    resolve_call_sites-type_resolver true types functions code
      (λ i cs m is_call indirect. in_code i cs m is_call) (call false site) site
      (Memᴰ.tail (Memᴰ.head refl)) (by_call site) (unfold is_indirect_call in refl) refl open_file
      belongs

abbrev stats : DevirtStats
stats = record { num_dsa_unresolved = 0; num_type_unresolved = 0 }

found_test :
    dsa_targets
      (resolve_all sample_dsa sample_settings sets
        (site ∷ [])
        (record { targets_map = []; stats = stats })).targets_map
      site
    ≡ some (open_file ∷ [])
unfolding dsa_targets resolve_all populate_type_alias_sets type_targets
found_test = refl

only_site : (cs : CallSite) → Memᴰ cs (site ∷ []) → cs.instruction ≡ 1 → cs ≡ site
only_site cs m e = Memᴰ.eq_of_singleton m

resolve_all-IsRefined_example : IsRefined sample_dsa sample_settings sets site (open_file ∷ [])
resolve_all-IsRefined_example =
    resolve_all-IsRefined sample_dsa sample_settings sets functions (site ∷ []) stats site
      (open_file ∷ []) refl only_site found_test
