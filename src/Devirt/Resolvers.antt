-- ===== src/Devirt/Resolvers.antt =====
-- The two resolvers, as the pass uses them.
use crab_llvm.Prelude.{ℕ, Bool, List}
use crab_llvm.Devirt.Defs.{Function}
use crab_llvm.Devirt.ByTypes.{type_targets, type_bounce, cache_type_bounce}
use crab_llvm.Devirt.ByDsa.{dsa_targets, dsa_bounce, cache_dsa_bounce}
use crab_llvm.Devirt.Pass.{CallSiteResolver}

-- CallSiteResolverByTypes, with its m_targets_map.
unfoldable pub type_resolver : List (ℕ × List Function) → CallSiteResolver (List (ℕ × ℕ))
unfolding type_targets type_bounce cache_type_bounce
type_resolver map = record {
  get_targets = type_targets map;
  get_bounce_function = type_bounce;
  cache_bounce_function = cache_type_bounce;
}

-- CallSiteResolverByDsa, with its m_targets_map.
unfoldable pub dsa_resolver :
    Bool → List (ℕ × List Function) → CallSiteResolver (List (ℕ × List Function × ℕ))
unfolding dsa_targets dsa_bounce cache_dsa_bounce
dsa_resolver past_end map = record {
  get_targets = dsa_targets map;
  get_bounce_function = dsa_bounce past_end map;
  cache_bounce_function = cache_dsa_bounce past_end map;
}
