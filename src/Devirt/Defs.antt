-- ===== src/Devirt/Defs.antt =====
-- Functions and call sites, and the sets that type aliases share: isIndirectCall and typeAliasId.
use Prim.Native.String.{String}
use crab_llvm.Prelude.{ℕ, Bool, true, false, Option, none, some, List, [], ◌∷◌, ◌==◌, ◌||◌}

-- A function: its address, its name, the type of a pointer to it, and what LLVM says of it.
pub record Function : Type 0 where
  pub address : ℕ
  pub name : String
  pub pointer_type : ℕ
  pub is_intrinsic : Bool
  pub has_local_linkage : Bool
  pub has_address_taken : Bool
  pub is_declaration : Bool

-- The called value: none, a function behind casts, a value loaded from a constant that is cast from
-- a pointer (to a pointer of the type given, or to something else), or another value.
pub data Called : Type 0 where
  nothing function other_value : Called
  loaded_through_cast : Option ℕ → Called

-- called_type is the type of the called value.
pub record CallSite : Type 0 where
  pub instruction : ℕ
  pub called : Called
  pub called_type : ℕ

unfoldable pub is_indirect_call : CallSite → Bool
is_indirect_call cs = elim cs.called [
  | Called.nothing ↦ false
  | Called.function ↦ false
  | Called.other_value ↦ true
  | Called.loaded_through_cast t ↦ true
]

-- The type that a called value has behind the cast.
unfoldable cast_type : Called → Option ℕ
cast_type (Called.loaded_through_cast t) = t
cast_type _ = none

unfoldable pub type_alias_id : CallSite → Bool → ℕ
unfolding cast_type
type_alias_id cs false = cs.called_type
type_alias_id cs true = elim (cast_type cs.called) [ none ↦ cs.called_type | some t ↦ t ]

-- A function of this address is in the list.
unfoldable pub has : ℕ → List Function → Bool
has a [] = false
has a (f ∷ fs) = a == f.address || has a fs
