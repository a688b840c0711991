-- ===== src/Devirt/Pass.antt =====
-- DevirtualizeFunctions: the visitor, mkBounceFn's use of the resolver, mkDirectCall and
-- resolveCallSites. The pass is generic in the resolver.
use crab_llvm.Prelude.{
  ℕ, suc, Bool, true, false, Option, none, some, List, [], ◌∷◌, ◌++◌, if◌then◌else◌, length,
}
use crab_llvm.Devirt.Defs.{Function, CallSite, is_indirect_call}
use crab_llvm.Devirt.Blocks.{Bounce, bounce_code}

-- CallSiteResolver: its targets, which do not change, and its cache of bounce functions.
pub record CallSiteResolver (C : Type 0) : Type 0 where
  pub get_targets : CallSite → Option (List Function)
  pub get_bounce_function : C → CallSite → Option ℕ
  pub cache_bounce_function : C → CallSite → ℕ → C

-- What the type of a call says.
pub record CallType : Type 0 where
  pub is_void : ℕ → Bool
  pub is_var_arg : ℕ → Bool

pub data Instruction : Type 0 where
  call : Bool → CallSite → Instruction
  invoke : CallSite → Instruction
  other_inst : Instruction

-- The bounce functions are known by their positions in the order of their creation; `replaced` has
-- the calls that became calls of a bounce function.
pub record State (C : Type 0) : Type 0 where
  pub cache : C
  pub bounces : List Bounce
  pub replaced : List (CallSite × ℕ)
  pub num_indirect_calls : ℕ
  pub num_resolved_calls : ℕ

unfoldable pub visit_call_site : CallSite → List CallSite → List CallSite
unfolding is_indirect_call
visit_call_site cs worklist = if is_indirect_call cs then cs ∷ worklist else worklist

-- The flag of a call says that it calls inline assembly. The last call that was visited is the
-- first of the worklist.
unfoldable pub visit : List Instruction → List CallSite → List CallSite
unfolding visit_call_site
visit [] worklist = worklist
visit (call is_inline_asm cs ∷ code) worklist =
    if is_inline_asm then visit code worklist else visit code (visit_call_site cs worklist)
visit (invoke cs ∷ code) worklist = visit code (visit_call_site cs worklist)
visit (other_inst ∷ code) worklist = visit code worklist

module _ {C : Type 0} (allow_indirect_calls : Bool) (type : CallType)
    (resolver : CallSiteResolver C) where
  unfoldable pub new_bounce : CallSite → Option (List Function) → State C → Option ℕ × State C
  unfolding bounce_code
  new_bounce cs none st = (none, st)
  new_bounce cs (some []) st = (none, st)
  new_bounce cs (some (f ∷ fs)) st =
      let b = length st.bounces in
      let code =
        bounce_code allow_indirect_calls cs.called_type (type.is_void cs.called_type) (f ∷ fs) in
      (
        some b,
        record st {
          cache = resolver.cache_bounce_function st.cache cs b;
          bounces = st.bounces ++ code ∷ [];
        },
      )

  unfoldable pub mk_bounce_fn : CallSite → State C → Option ℕ × State C
  unfolding new_bounce
  mk_bounce_fn cs st =
      if type.is_var_arg cs.called_type
      then (none, st)
      else elim (resolver.get_bounce_function st.cache cs) [
        | some b ↦ (some b, st)
        | none ↦ new_bounce cs (resolver.get_targets cs) st
      ]

  unfoldable pub replace_call : CallSite → Option ℕ × State C → State C
  replace_call cs (none, st) = st
  replace_call cs (some b, st) = record st {
    replaced = (cs, b) ∷ st.replaced;
    num_resolved_calls = suc st.num_resolved_calls;
  }

  unfoldable pub mk_direct_call : CallSite → State C → State C
  unfolding mk_bounce_fn replace_call
  mk_direct_call cs st =
      replace_call cs
        (mk_bounce_fn cs (record st { num_indirect_calls = suc st.num_indirect_calls }))

  -- The loop over the worklist.
  unfoldable pub drain : List CallSite → State C → State C
  unfolding mk_direct_call
  drain [] st = st
  drain (cs ∷ worklist) st = drain worklist (mk_direct_call cs st)

  -- The new state, and whether there was an indirect call.
  unfoldable pub resolve_call_sites : List Instruction → State C → State C × Bool
  unfolding visit drain
  resolve_call_sites code st =
      let worklist = visit code [] in
      (drain worklist st, elim worklist [ [] ↦ false | cs ∷ rest ↦ true ])
