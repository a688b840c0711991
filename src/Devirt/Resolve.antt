-- ===== src/Devirt/Resolve.antt =====
-- About resolve_call_sites: which calls are replaced, and by what.
pub mod Drain
pub mod Visit
use crab_llvm.Prelude.{
  ℕ, zero, suc, ◌+◌, ◌≡◌, ◌⊎◌, inl, inr, refl, sym, ap, ◌∙◌, Bool, true, false, Option, none, some,
  List, [], ◌∷◌, ◌++◌, length, get_elem?, Bool-cases, Option-cases, arith, true_ne_false, subst,
}
use mathlib.Core.List.{Memᴰ}
use mathlib.Core.List.Memᴰ
use crab_llvm.Devirt.{
  Function, CallSite, is_indirect_call, Bounce, bounce_code, run_bounce, CallSiteResolver, CallType,
  Instruction, call, invoke, other_inst, State, visit_call_site, visit, new_bounce, mk_bounce_fn,
  replace_call, mk_direct_call, drain, resolve_call_sites,
}
use crab_llvm.Devirt.Dispatch.{dispatch, bounce_code-dispatch}
use crab_llvm.Devirt.Resolve.Drain.{
  IsResolver, IsResolvable, Serves, IsServed, drain-IsServed, drain_lem,
}
use crab_llvm.Devirt.Resolve.Visit.{IsCall, visit-indirect, visit-all}

module _ {C : Type 0} (allow_indirect_calls : Bool) (type : CallType)
    (resolver : CallSiteResolver C) where
  abbrev pub fresh_state : C → State C
  fresh_state c = record {
    cache = c;
    bounces = [];
    replaced = [];
    num_indirect_calls = 0;
    num_resolved_calls = 0;
  }

  none_ne_some : (b : ℕ) → ¬ (◌≡◌ {A = Option ℕ} none (some b))
  none_ne_some b h = ground arith

  -- Every call or invoke of the code that is indirect, is no inline assembly, has no variable
  -- arguments and has a target for the resolver is replaced by a call of a bounce function.
  pub resolve_call_sites-replaces :
      (code : List Instruction) (st : State C) (i : Instruction) (cs : CallSite)
      → Memᴰ i code
      → IsCall i cs
      → is_indirect_call cs ≡ true
      → IsResolvable allow_indirect_calls type resolver cs
      → (b : ℕ) × Memᴰ
          (cs, b)
          (resolve_call_sites allow_indirect_calls type resolver code st).0.replaced
  unfolding resolve_call_sites
  resolve_call_sites-replaces code st i cs m is_call indirect can =
      drain_lem allow_indirect_calls type resolver (visit code []) st cs
        (visit-indirect code [] i cs m is_call indirect) can

  -- From a state without bounce functions, for a resolver whose cache keeps its promise for the
  -- indirect calls of the code: every call that is replaced has targets, and becomes a call of a
  -- function that runs, for every pointer, as these targets say.
  pub resolve_call_sites-dispatch :
      (Site : CallSite → Type 0) (code : List Instruction) (c : C)
      → IsResolver allow_indirect_calls type resolver Site
      → ((i : Instruction) (cs : CallSite)
          → Memᴰ i code
          → IsCall i cs
          → is_indirect_call cs ≡ true
          → Site cs)
      → ((cs : CallSite) → resolver.get_bounce_function c cs ≡ none)
      → (cs : CallSite) (b : ℕ)
      → Memᴰ
          (cs, b)
          (resolve_call_sites allow_indirect_calls type resolver code (fresh_state c)).0.replaced
      → (targets : List Function) × (bounce : Bounce) × (resolver.get_targets cs ≡ some targets)
        × (get_elem?
              (resolve_call_sites allow_indirect_calls type resolver code (fresh_state c)).0.bounces
              b
            ≡ some bounce)
        × ((p : ℕ)
            → run_bounce (length targets + 1) bounce p
              ≡ some (dispatch allow_indirect_calls (type.is_void cs.called_type) targets p))
  unfolding resolve_call_sites
  resolve_call_sites-dispatch Site code c laws sites nothing cs b m =
      let start : IsServed allow_indirect_calls type resolver Site laws (fresh_state c) = record {
        cache_served = λ cs' b' site found. absurd (none_ne_some b' (sym (nothing cs') ∙ found));
        replaced_served = λ cs' b' n. elim n [ ];
      } in
      let served =
        drain-IsServed allow_indirect_calls type resolver Site laws (visit code []) (fresh_state c)
          (visit-all Site code [] sites (λ x n. elim n [ ])) start in
      let s = served.replaced_served cs b m in
      (
        s.target ∷ s.others,
        _,
        s.targets,
        s.code,
        bounce_code-dispatch allow_indirect_calls cs.called_type (type.is_void cs.called_type)
            (s.target ∷ s.others),
      )
